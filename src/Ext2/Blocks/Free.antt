-- ===== src/Ext2/Blocks/Free.antt =====
-- The blocks that free_all_blocks_of_inode of ext2general.c gives back.
use kernel_programming_proje.Base.{
  ℕ, zero, suc, ◌+◌, ◌≡◌, refl, sym, ap, subst, ◌∙◌, Bool, true, false, not, ◌&&◌, ◌||◌, List, [],
  ◌∷◌, ◌++◌, has, has-append, ◌==◌, if◌then◌else◌, arith, inl, inr, Bool-cases,
}
use kernel_programming_proje.Ext2.Bitmaps.{bit_at, update_bitmap}
use kernel_programming_proje.Ext2.Bitmaps.Laws.{update_bitmap-bit}
use kernel_programming_proje.Ext2.Disk.{direct_block_count, ptrs_in_block, Inode, Disk, update_bits}
use kernel_programming_proje.Ext2.Blocks.{
  free_each, free_indirect, free_double, free_single, free_dble, free_tple,
  free_all_blocks_of_inode,
}

abbrev pub numbers : ℕ → ℕ → (ℕ → ℕ) → List ℕ
numbers zero i f = []
numbers (suc n) i f = f i ∷ numbers n (i + 1) f

-- The blocks that a block of pointers leads to, and itself.
abbrev pub indirect : Disk → ℕ → List ℕ
indirect d block = numbers ptrs_in_block 0 (d.pointers block) ++ block ∷ []

abbrev pub indirects : Disk → List ℕ → List ℕ
indirects d [] = []
indirects d (block ∷ blocks) = indirect d block ++ indirects d blocks

abbrev pub single_blocks : Disk → Inode → List ℕ
single_blocks d inode = if inode.i_block 12 == 0 then [] else indirect d (inode.i_block 12)

abbrev pub double_blocks : Disk → Inode → List ℕ
double_blocks d inode =
    if inode.i_block 13 == 0
    then []
    else indirects d (numbers ptrs_in_block 0 (d.pointers (inode.i_block 13)))
      ++ inode.i_block 13 ∷ []

-- The blocks of which the function clears the bits.
abbrev freed_blocks : Disk → Inode → List ℕ
freed_blocks d inode =
    numbers direct_block_count 0 inode.i_block ++ (single_blocks d inode ++ double_blocks d inode)

-- A pointer that is 0 leads nowhere.
abbrev pub nonzero : List ℕ → List ℕ
nonzero [] = []
nonzero (b ∷ bs) = let rest = nonzero bs in if b == 0 then rest else b ∷ rest

-- The blocks of an inode without triple indirect blocks: those of its data, and those that hold
-- pointers.
abbrev pub blocks_of : Disk → Inode → List ℕ
blocks_of d inode =
    numbers direct_block_count 0 inode.i_block
    ++ (single_blocks d inode
        ++ (if inode.i_block 13 == 0
            then []
            else indirects d (nonzero (numbers ptrs_in_block 0 (d.pointers (inode.i_block 13))))
              ++ inode.i_block 13 ∷ []))

-- The numbers that block 0, which is no block of a file, has at the places of pointers, if the
-- double indirect block has a pointer that is 0.
abbrev pub stray_blocks : Disk → Inode → List ℕ
stray_blocks d inode =
    if not (inode.i_block 13 == 0)
      && has 0 (numbers ptrs_in_block 0 (d.pointers (inode.i_block 13)))
    then numbers ptrs_in_block 0 (d.pointers 0)
    else []

abbrev free_list : List ℕ → Disk → Disk
free_list [] d = d
free_list (block ∷ blocks) d = free_list blocks (update_bits b'b' block 0 d)

free_list-append :
    (xs ys : List ℕ) (d : Disk) → free_list (xs ++ ys) d ≡ free_list ys (free_list xs d)
free_list-append [] ys d = refl
free_list-append (x ∷ xs) ys d = free_list-append xs ys (update_bits b'b' x 0 d)

free_list-pointers : (xs : List ℕ) (d : Disk) → (free_list xs d).pointers ≡ d.pointers
free_list-pointers [] d = refl
free_list-pointers (x ∷ xs) d = free_list-pointers xs (update_bits b'b' x 0 d)

free_each-list : (n i : ℕ) (f : ℕ → ℕ) (d : Disk) → free_each n i f d ≡ free_list (numbers n i f) d
unfolding free_each
free_each-list zero i f d = refl
free_each-list (suc n) i f d = free_each-list n (i + 1) f (update_bits b'b' (f i) 0 d)

free_indirect-list :
    (block : ℕ) (d e : Disk)
    → e.pointers ≡ d.pointers
    → free_indirect block e ≡ free_list (indirect d block) e
free_indirect-list block d e same =
    let on : numbers ptrs_in_block 0 (e.pointers block)
        ≡ numbers ptrs_in_block 0 (d.pointers block) =
      ap (λ p. numbers ptrs_in_block 0 (p block)) same in
    ap (update_bits b'b' block 0)
      (free_each-list ptrs_in_block 0 (e.pointers block) e ∙ ap (λ l. free_list l e) on)
    ∙ sym (free_list-append (numbers ptrs_in_block 0 (d.pointers block)) (block ∷ []) e)

free_double-list :
    (n i : ℕ) (f : ℕ → ℕ) (d e : Disk)
    → e.pointers ≡ d.pointers
    → free_double n i f e ≡ free_list (indirects d (numbers n i f)) e
unfolding free_double
free_double-list zero i f d e same = refl
free_double-list (suc n) i f d e same =
    let one : free_indirect (f i) e ≡ free_list (indirect d (f i)) e =
      free_indirect-list (f i) d e same in
    ap (free_double n (i + 1) f) one
    ∙ free_double-list n (i + 1) f d (free_list (indirect d (f i)) e)
        (free_list-pointers (indirect d (f i)) e ∙ same)
    ∙ sym (free_list-append (indirect d (f i)) (indirects d (numbers n (i + 1) f)) e)

freed_bit :
    (block : ℕ) (d : Disk) (i : ℕ)
    → bit_at (update_bits b'b' block 0 d).image.blocks i
      ≡ (if block == i + 1 then false else bit_at d.image.blocks i)
unfolding update_bitmap
freed_bit block d i = elim (Bool-cases (block == 0)) [
  | inl unused ↦ rw (unused, update_bitmap) (ground arith)
  | inr some_block ↦
      let one = update_bitmap-bit b'b' block 0 d.image i (ground arith) in one.0 ∙ ground arith
]

free_list-bits :
    (xs : List ℕ) (d : Disk) (i : ℕ)
    → bit_at (free_list xs d).image.blocks i
      ≡ (if has (i + 1) xs then false else bit_at d.image.blocks i)
free_list-bits [] d i = refl
free_list-bits (x ∷ xs) d i =
    free_list-bits xs (update_bits b'b' x 0 d) i ∙ rw (freed_bit x d i) (ground arith)

-- All that is not the bitmap of the blocks and its counts.
abbrev pub Spared : Disk → Disk → Type 0
Spared d e =
    (e.image.inodes ≡ d.image.inodes)
    × (e.inodes ≡ d.inodes)
    × (e.entries ≡ d.entries)
    × (e.pointers ≡ d.pointers)
    × (e.bytes ≡ d.bytes)

free_list-Spared : (xs : List ℕ) (d : Disk) → Spared d (free_list xs d)
unfolding update_bitmap
free_list-Spared [] d = (refl, refl, refl, refl, refl)
free_list-Spared (x ∷ xs) d =
    let (a, b, c, e, f) = free_list-Spared xs (update_bits b'b' x 0 d) in
    let same : (update_bitmap b'b' x 0 d.image).inodes ≡ d.image.inodes = ground arith in
    (a ∙ same, b, c, e, f)

free_single-list :
    (inode : Inode) (d e : Disk)
    → e.pointers ≡ d.pointers
    → free_single inode e ≡ free_list (single_blocks d inode) e
unfolding free_single
free_single-list inode d e same = elim (Bool-cases (inode.i_block 12 == 0)) [
  | inl unused ↦ rw (free_single, unused) refl
  | inr used ↦ rw (free_single, used) (free_indirect-list (inode.i_block 12) d e same)
]

free_dble-list :
    (inode : Inode) (d e : Disk)
    → e.pointers ≡ d.pointers
    → free_dble inode e ≡ free_list (double_blocks d inode) e
unfolding free_dble
free_dble-list inode d e same = elim (Bool-cases (inode.i_block 13 == 0)) [
  | inl unused ↦ rw (free_dble, unused) refl
  | inr used ↦
      let f : ℕ → ℕ = d.pointers (inode.i_block 13) in
      let on : free_double ptrs_in_block 0 (e.pointers (inode.i_block 13)) e
          ≡ free_double ptrs_in_block 0 f e =
        ap (λ p. free_double ptrs_in_block 0 (p (inode.i_block 13)) e) same in
      rw (free_dble, used)
        (ap (update_bits b'b' (inode.i_block 13) 0)
            (on ∙ free_double-list ptrs_in_block 0 f d e same)
          ∙ sym (
              free_list-append (indirects d (numbers ptrs_in_block 0 f)) (inode.i_block 13 ∷ []) e))
]

free_tple-none : (inode : Inode) (d : Disk) → inode.i_block 14 ≡ 0 → free_tple inode d ≡ d
unfolding free_tple
free_tple-none inode d no_triple =
    let unused : (inode.i_block 14 == 0) ≡ true = ground arith in rw (free_tple, unused) refl

free_all-list :
    (inode : Inode) (d : Disk)
    → inode.i_block 14 ≡ 0
    → free_all_blocks_of_inode inode d ≡ free_list (freed_blocks d inode) d
unfolding free_all_blocks_of_inode
free_all-list inode d no_triple =
    let direct : List ℕ = numbers direct_block_count 0 inode.i_block in
    let rest : List ℕ = single_blocks d inode ++ double_blocks d inode in
    let e1 : Disk = free_list direct d in
    let e2 : Disk = free_list (single_blocks d inode) e1 in
    let same1 : e1.pointers ≡ d.pointers = free_list-pointers direct d in
    let same2 : e2.pointers ≡ d.pointers = free_list-pointers (single_blocks d inode) e1 ∙ same1 in
    free_tple-none inode
      (free_dble inode (free_single inode (free_each direct_block_count 0 inode.i_block d)))
      no_triple
    ∙ ap (λ x. free_dble inode (free_single inode x))
        (free_each-list direct_block_count 0 inode.i_block d)
    ∙ ap (free_dble inode) (free_single-list inode d e1 same1)
    ∙ free_dble-list inode d e2 same2
    ∙ sym (free_list-append (single_blocks d inode) (double_blocks d inode) e1)
    ∙ sym (free_list-append direct rest d)

indirect-zero :
    (d : Disk) (b i : ℕ)
    → (b == 0) ≡ true
    → has (i + 1) (indirect d b) ≡ has (i + 1) (numbers ptrs_in_block 0 (d.pointers 0))
indirect-zero d b i zero_pointer =
    let e : b ≡ 0 = ground arith in
    has-append (i + 1) (numbers ptrs_in_block 0 (d.pointers b)) (b ∷ []) ∙ rw e (ground arith)

-- A pointer that is 0 makes block 0 a block of pointers.
indirects-has :
    (d : Disk) (i : ℕ) (blocks : List ℕ)
    → has (i + 1) (indirects d blocks) ≡ (
        has (i + 1) (indirects d (nonzero blocks))
        || (has 0 blocks && has (i + 1) (numbers ptrs_in_block 0 (d.pointers 0))))
indirects-has d i [] = refl
indirects-has d i (b ∷ blocks) =
    let all = has-append (i + 1) (indirect d b) (indirects d blocks) in
    let rest = indirects-has d i blocks in
    elim (Bool-cases (b == 0)) [
      | inl nowhere ↦ all ∙ rw nowhere (ground (arith, indirect-zero d b i nowhere, rest))
      | inr block ↦
          all
          ∙ rw block (
              ground
                (arith, rest, has-append (i + 1) (indirect d b) (indirects d (nonzero blocks))))
    ]

freed_or :
    (a b c e z : Bool) (i : ℕ) (xs : List ℕ)
    → (a || (b || (c || (z && has i xs) || e)))
      ≡ ((a || (b || (c || e))) || has i (if z then xs else []))
freed_or a b c e z i xs = ground arith

freed_blocks-has :
    (d : Disk) (inode : Inode) (i : ℕ)
    → has (i + 1) (freed_blocks d inode)
      ≡ (has (i + 1) (blocks_of d inode) || has (i + 1) (stray_blocks d inode))
freed_blocks-has d inode i =
    let direct : List ℕ = numbers direct_block_count 0 inode.i_block in
    let pointers : List ℕ = numbers ptrs_in_block 0 (d.pointers (inode.i_block 13)) in
    let last : List ℕ = inode.i_block 13 ∷ [] in
    let single : List ℕ = single_blocks d inode in
    elim (Bool-cases (inode.i_block 13 == 0)) [
      | inl unused ↦ rw unused (ground arith)
      | inr used ↦
          rw
            (
              used,
              has-append (i + 1) direct (single ++ (indirects d pointers ++ last)),
              has-append (i + 1) single (indirects d pointers ++ last),
              has-append (i + 1) (indirects d pointers) last,
              has-append (i + 1) direct (single ++ (indirects d (nonzero pointers) ++ last)),
              has-append (i + 1) single (indirects d (nonzero pointers) ++ last),
              has-append (i + 1) (indirects d (nonzero pointers)) last,
              indirects-has d i pointers,
            )
            (freed_or (has (i + 1) direct) (has (i + 1) single)
              (has (i + 1) (indirects d (nonzero pointers))) (has (i + 1) last) (has 0 pointers)
              (i + 1) (numbers ptrs_in_block 0 (d.pointers 0)))
    ]

-- For an inode without triple indirect blocks, free_all_blocks_of_inode clears the bit of every
-- block that holds the file's data or its pointers, which pointers other than 0 lead to. If the
-- double indirect block has a pointer that is 0, it also clears the bits of the blocks whose numbers
-- block 0 has at the places of pointers. It leaves each other bit of the blocks' bitmap, the
-- inodes' bitmap, and all other blocks and inodes as they were.
pub free_all_blocks_of_inode-frees :
    (inode : Inode) (d : Disk) (i : ℕ)
    → inode.i_block 14 ≡ 0
    → (bit_at (free_all_blocks_of_inode inode d).image.blocks i ≡ (
        if has (i + 1) (blocks_of d inode) || has (i + 1) (stray_blocks d inode)
        then false
        else bit_at d.image.blocks i))
      × Spared d (free_all_blocks_of_inode inode d)
free_all_blocks_of_inode-frees inode d i no_triple =
    subst
      (λ e.
        (bit_at e.image.blocks i ≡ (
          if has (i + 1) (blocks_of d inode) || has (i + 1) (stray_blocks d inode)
          then false
          else bit_at d.image.blocks i))
        × Spared d e)
      (sym (free_all-list inode d no_triple))
      (
        free_list-bits (freed_blocks d inode) d i
            ∙ ap (λ t. if t then false else bit_at d.image.blocks i) (freed_blocks-has d inode i),
        free_list-Spared (freed_blocks d inode) d,
      )
