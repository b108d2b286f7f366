-- ===== src/Ext2/Lookup/Entries.antt =====
-- The entries of a directory as a list of places, and what locate_file_by_name of ext2general.c
-- finds among them.
use kernel_programming_proje.Base.{
  ℕ, zero, suc, ◌+◌, ◌<◌, ◌≡◌, refl, List, [], ◌∷◌, ◌++◌, Option, none, some, ltb, ◌==◌,
  if◌then◌else◌, arith, inl, inr, Bool-cases, ltb→lt,
}
use kernel_programming_proje.Ext2.Disk.{
  total_block_count, Inode, Place, Disk, entry_at, rounds, rounds-many,
}
use kernel_programming_proje.Ext2.Lookup.{
  has_name, locate_in_block, locate_in_blocks, locate_file_by_name,
}

-- The entries of a block from `position` on, each rec_len bytes behind the one before.
abbrev pub chain : ℕ → Disk → ℕ → ℕ → List Place
chain zero d block position = []
chain (suc n) d block position =
    let rest = chain n d block (position + (d.entries block position).rec_len) in
    if ltb position 1024 then record { block = block; offset = position } ∷ rest else []

-- The entries of the `n` blocks of an inode from `i` on, where a block's number is not 0.
abbrev pub listing : ℕ → ℕ → Disk → Inode → List Place
listing zero i d inode = []
listing (suc n) i d inode =
    if inode.i_block i == 0
    then listing n (i + 1) d inode
    else chain rounds d (inode.i_block i) 0 ++ listing n (i + 1) d inode

-- The entries of a directory.
abbrev pub entries_of : Disk → Inode → List Place
entries_of d inode = listing total_block_count 0 d inode

-- No entry of the list has the length 0.
abbrev pub Advances : Disk → List Place → Type 0
Advances d [] = Unit {0}
Advances d (p ∷ ps) = (0 < (entry_at d p).rec_len) × Advances d ps

abbrev pub first_named : Disk → List ℕ → List Place → Option Place
first_named d name [] = none
first_named d name (p ∷ ps) = if has_name name (entry_at d p) then some p else first_named d name ps

pub Advances-append :
    (d : Disk) (xs ys : List Place) → Advances d (xs ++ ys) → Advances d xs × Advances d ys
Advances-append d [] ys a = (tt, a)
Advances-append d (x ∷ xs) ys a = let (b, c) = Advances-append d xs ys a.1 in ((a.0, b), c)

first_named-append :
    (d : Disk) (name : List ℕ) (xs ys : List Place)
    → first_named d name (xs ++ ys)
      ≡ elim (first_named d name xs) [ some p ↦ some p | none ↦ first_named d name ys ]
first_named-append d name [] ys = refl
first_named-append d name (x ∷ xs) ys = elim (Bool-cases (has_name name (entry_at d x))) [
  | inl y ↦ rw y refl
  | inr y ↦ rw y (first_named-append d name xs ys)
]

pub locate_in_block-first :
    (n : ℕ) (d : Disk) (block : ℕ) (name : List ℕ) (position : ℕ)
    → 0 < n
    → 1024 < n + position
    → Advances d (chain n d block position)
    → locate_in_block n d block name position ≡ some (first_named d name (chain n d block position))
unfolding locate_in_block
locate_in_block-first zero d block name position more enough a = absurd (omega arith)
locate_in_block-first (suc n) d block name position more enough a =
    elim (Bool-cases (ltb position 1024)) [
      | inr past ↦ rw (past, locate_in_block) refl
      | inl inside ↦
          let (long, rest) : (0 < (d.entries block position).rec_len)
              × Advances d (chain n d block (position + (d.entries block position).rec_len)) =
            rw inside at a in
          let lt : position < 1024 = ltb→lt position 1024 inside in
          elim (Bool-cases (has_name name (d.entries block position))) [
            | inl y ↦ rw (inside, locate_in_block, y) refl
            | inr y ↦
                rw (inside, locate_in_block, y)
                  (locate_in_block-first n d block name
                    (position + (d.entries block position).rec_len) (omega arith) (omega arith)
                    rest)
          ]
    ]

-- The rest of the blocks is searched after a block without the name.
search_on :
    (here rest : Option Place) (found : Option (Option Place))
    → found ≡ some rest
    → elim here [ none ↦ found | some p ↦ some (some p) ]
      ≡ some (elim here [ some p ↦ some p | none ↦ rest ])
search_on none rest found e = e
search_on (some p) rest found e = refl

locate_in_blocks-first :
    (n i : ℕ) (d : Disk) (inode : Inode) (name : List ℕ)
    → Advances d (listing n i d inode)
    → locate_in_blocks n i d inode name ≡ some (first_named d name (listing n i d inode))
unfolding locate_in_blocks
locate_in_blocks-first zero i d inode name a = refl
locate_in_blocks-first (suc n) i d inode name a = elim (Bool-cases (inode.i_block i == 0)) [
  | inl unused ↦
      rw (unused, locate_in_blocks) (locate_in_blocks-first n (i + 1) d inode name (rw unused at a))
  | inr used ↦
      let (here, rest) =
        Advances-append d (chain rounds d (inode.i_block i) 0) (listing n (i + 1) d inode)
          (rw used at a) in
      let found =
        locate_in_block-first rounds d (inode.i_block i) name 0 (omega (arith, rounds-many))
          (omega (arith, rounds-many)) here in
      rw
        (
          used,
          locate_in_blocks,
          found,
          first_named-append d name (chain rounds d (inode.i_block i) 0)
              (listing n (i + 1) d inode),
        )
        (search_on (first_named d name (chain rounds d (inode.i_block i) 0))
          (first_named d name (listing n (i + 1) d inode)) (locate_in_blocks n (i + 1) d inode name)
          (locate_in_blocks-first n (i + 1) d inode name rest))
]

-- If no entry of a directory has the length 0, locate_file_by_name ends, and finds the first entry
-- in use that has the name.
pub locate_file_by_name-first :
    (d : Disk) (inode : Inode) (name : List ℕ)
    → Advances d (entries_of d inode)
    → locate_file_by_name d inode name ≡ some (first_named d name (entries_of d inode))
unfolding locate_file_by_name
locate_file_by_name-first d inode name a = locate_in_blocks-first total_block_count 0 d inode name a
