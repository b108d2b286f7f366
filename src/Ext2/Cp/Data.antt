-- ===== src/Ext2/Cp/Data.antt =====
-- What the loops of ext2_cp.c over the direct blocks and over the pointers of a block write.
use kernel_programming_proje.Base.{
  ℕ, zero, suc, ◌+◌, ◌<◌, ◌≡◌, refl, sym, ap, subst, ◌∙◌, true, List, [], ◌∷◌, length, arith, false,
  ◌==◌,
}
use kernel_programming_proje.Ext2.Bitmaps.{find_free_block, update_bitmap, to_index}
use kernel_programming_proje.Ext2.Disk.{block_size, Disk}
use kernel_programming_proje.Ext2.Names.{byte_at, take, drop}
use kernel_programming_proje.Ext2.Allocate.{write_name}
use kernel_programming_proje.Ext2.Cp.{
  Copy, write_direct, write_indirect, copy_direct, copy_indirect,
}
use kernel_programming_proje.Ext2.Cp.Keeps.{
  in_use, Later, Later-refl, Later-trans, HasRoom, earlier-HasRoom, step-Later, step-in_use,
}

-- The state behind the fread of the first bytes of `x`.
abbrev pub reading : List ℕ → Disk → Copy
reading x d = record { disk = d; buffer = take block_size x; rest = drop block_size x }

-- What is left of the file behind `k` blocks.
abbrev pub skip : ℕ → List ℕ → List ℕ
skip zero x = x
skip (suc k) x = skip k (drop block_size x)

pub skip-nil : (k : ℕ) → skip k [] ≡ []
skip-nil zero = refl
skip-nil (suc k) = skip-nil k

abbrev pub block_of : Disk → ℕ → ℕ → ℕ
block_of d number k = (d.inodes (to_index number)).i_block k

-- Block `b` is in use, and has the bytes at the start of `x`, if `x` has any.
abbrev pub Holds : Disk → ℕ → List ℕ → Type 0
Holds d b x =
    (j : ℕ)
    → j < length (take block_size x)
    → (0 < b) × (in_use d b ≡ true) × (d.bytes b j ≡ byte_at (take block_size x) j)

pub later-Holds : (d d' : Disk) (b : ℕ) (x : List ℕ) → Later d d' → Holds d b x → Holds d' b x
later-Holds d d' b x l h j lt =
    let (above, used, same) = h j lt in
    (above, l.kept (to_index b) used, ap (λ f. f j) (l.bytes_same b above used) ∙ same)

-- The direct blocks from `i` on, `n` of them at most, have the bytes of `x`.
pub record WroteDirect (number n i : ℕ) (x : List ℕ) (d d' : Disk) : Type 0 where
  pub later : Later d d'
  pub before : (k : ℕ) → k < i → block_of d' number k ≡ block_of d number k
  pub blocks : HasRoom d' → (k : ℕ) → k < n → Holds d' (block_of d' number (i + k)) (skip k x)

nothing_left : (d : Disk) (b k : ℕ) → Holds d b (skip k [])
nothing_left d b k = subst (Holds d b) (sym (skip-nil k)) (λ j lt. absurd (omega arith))

-- A block that is written and stays as it is.
written :
    (d d1 d' : Disk) (x : List ℕ)
    → d1.image ≡ update_bitmap b'b' (find_free_block d.image) 1 d.image
    → d1.bytes (find_free_block d.image)
      ≡ write_name
          (length (take block_size x))
          (take block_size x)
          (d.bytes (find_free_block d.image))
    → Later d1 d'
    → HasRoom d
    → Holds d' (find_free_block d.image) x
written d d1 d' x image bytes l room j lt =
    let (above, used) = step-in_use d d1 image room in
    (
      above,
      l.kept (to_index (find_free_block d.image)) used,
      ap (λ f. f j) (l.bytes_same (find_free_block d.image) above used ∙ bytes) ∙ ground arith,
    )

-- The blocks that `f` names from `i` on: the first, and the others.
pieces :
    (d : Disk) (f : ℕ → ℕ) (n i : ℕ) (x : List ℕ)
    → Holds d (f i) x
    → ((k : ℕ) → k < n → Holds d (f (i + 1 + k)) (skip k (drop block_size x)))
    → (k : ℕ) → k < suc n
    → Holds d (f (i + k)) (skip k x)
pieces d f n i x first rest zero lt =
    let e : i ≡ i + 0 = omega arith in subst (λ m. Holds d (f m) x) e first
pieces d f n i x first rest (suc k) lt =
    let e : i + 1 + k ≡ i + suc k = omega arith in
    subst (λ m. Holds d (f m) (skip k (drop block_size x))) e (rest k (omega arith))

pub copy_direct-WroteDirect :
    (number n i : ℕ) (x : List ℕ) (d : Disk)
    → (d' : Disk) × (copy_direct n number i (reading x d) ≡ reading (skip n x) d')
      × WroteDirect number n i x d d'
unfolding copy_direct
copy_direct-WroteDirect number zero i x d = (
  d,
  refl,
  record {
    later = Later-refl d;
    before = λ k lt. refl;
    blocks = λ room k lt. absurd (omega arith);
  },
)
copy_direct-WroteDirect number (suc n) i [] d = (
  d,
  ap (λ l. reading l d) (sym (skip-nil n)),
  record {
    later = Later-refl d;
    before = λ k lt. refl;
    blocks = λ room k lt. nothing_left d (block_of d number (i + k)) k;
  },
)
copy_direct-WroteDirect number (suc n) i (c ∷ x) d =
    let d1 : Disk = (write_direct number i (reading (c ∷ x) d)).disk in
    let (d', runs, w) = copy_direct-WroteDirect number n (i + 1) (drop block_size (c ∷ x)) d1 in
    let step : Later d d1 =
      step-Later d d1
        (write_name (length (take block_size (c ∷ x))) (take block_size (c ∷ x))
          (d.bytes (find_free_block d.image)))
        refl (λ block. refl) in
    let here : block_of d' number i ≡ find_free_block d.image =
      w.before i (omega arith) ∙ ground arith in
    (
      d',
      runs,
      record {
        later = Later-trans d d1 d' step w.later;
        before = λ k lt. w.before k (omega arith) ∙ ground arith;
        blocks = λ room.
            pieces d' (block_of d' number) n i (c ∷ x)
              (subst (λ b. Holds d' b (c ∷ x)) (sym here)
                (written d d1 d' (c ∷ x) refl (ground arith) w.later
                  (earlier-HasRoom d d' (Later-trans d d1 d' step w.later) room)))
              (w.blocks room);
      },
    )

-- The blocks whose numbers `ptr_block` has from the offset `i` on.
pub record WroteIndirect (number ptr_block n i : ℕ) (x : List ℕ) (d d' : Disk) : Type 0 where
  pub later : Later d d'
  pub direct_same : (k : ℕ) → block_of d' number k ≡ block_of d number k
  pub before : (k : ℕ) → k < i → d'.pointers ptr_block k ≡ d.pointers ptr_block k
  pub blocks : HasRoom d' → (k : ℕ) → k < n → Holds d' (d'.pointers ptr_block (i + k)) (skip k x)
  pub elsewhere :
      (b : ℕ)
      → ((k : ℕ) → k < n → (d'.pointers ptr_block (i + k) == b) ≡ false)
      → d'.bytes b ≡ d.bytes b

pub copy_indirect-WroteIndirect :
    (number ptr_block n i : ℕ) (x : List ℕ) (d : Disk)
    → (d' : Disk) × (copy_indirect n number ptr_block i (reading x d) ≡ reading (skip n x) d')
      × WroteIndirect number ptr_block n i x d d'
unfolding copy_indirect
copy_indirect-WroteIndirect number ptr_block zero i x d = (
  d,
  refl,
  record {
    later = Later-refl d;
    direct_same = λ k. refl;
    before = λ k lt. refl;
    blocks = λ room k lt. absurd (omega arith);
    elsewhere = λ b out. refl;
  },
)
copy_indirect-WroteIndirect number ptr_block (suc n) i [] d = (
  d,
  ap (λ l. reading l d) (sym (skip-nil n)),
  record {
    later = Later-refl d;
    direct_same = λ k. refl;
    before = λ k lt. refl;
    blocks = λ room k lt. nothing_left d (d.pointers ptr_block (i + k)) k;
    elsewhere = λ b out. refl;
  },
)
copy_indirect-WroteIndirect number ptr_block (suc n) i (c ∷ x) d =
    let d1 : Disk = (write_indirect number ptr_block i (reading (c ∷ x) d)).disk in
    let (d', runs, w) =
      copy_indirect-WroteIndirect number ptr_block n (i + 1) (drop block_size (c ∷ x)) d1 in
    let step : Later d d1 =
      step-Later d d1
        (write_name (length (take block_size (c ∷ x))) (take block_size (c ∷ x))
          (d.bytes (find_free_block d.image)))
        refl (λ block. refl) in
    let here : d'.pointers ptr_block i ≡ find_free_block d.image =
      w.before i (omega arith) ∙ ground arith in
    (
      d',
      runs,
      record {
        later = Later-trans d d1 d' step w.later;
        direct_same = λ k. w.direct_same k ∙ ground arith;
        before = λ k lt. w.before k (omega arith) ∙ ground arith;
        blocks = λ room.
            pieces d' (d'.pointers ptr_block) n i (c ∷ x)
              (subst (λ b. Holds d' b (c ∷ x)) (sym here)
                (written d d1 d' (c ∷ x) refl (ground arith) w.later
                  (earlier-HasRoom d d' (Later-trans d d1 d' step w.later) room)))
              (w.blocks room);
        elsewhere = λ b out.
            w.elsewhere b (λ k lt.
              ap (λ m. d'.pointers ptr_block m == b) (omega arith) ∙ out (suc k) (omega arith))
            ∙ (let start : i + 0 ≡ i = omega arith in
                let away : (find_free_block d.image == b) ≡ false =
                  ap (λ m. m == b) (sym here ∙ ap (d'.pointers ptr_block) (sym start))
                  ∙ out 0 (omega arith) in
                ground arith);
      },
    )
