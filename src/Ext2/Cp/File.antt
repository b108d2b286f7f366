-- ===== src/Ext2/Cp/File.antt =====
-- A file that ext2_cp.c has copied is read back from the blocks of its inode.
use kernel_programming_proje.Base.{
  ℕ, zero, suc, ◌+◌, ◌-◌, ◌*◌, ◌/◌, ◌%◌, ◌<◌, ◌≤◌, ◌≡◌, refl, sym, ap, subst, ◌∙◌, true, List, [],
  ◌∷◌, length, ltb, ◌==◌, if◌then◌else◌, put, arith, inl, inr, Bool-cases,
}
use kernel_programming_proje.Ext2.Bitmaps.{find_free_block, to_index}
use kernel_programming_proje.Ext2.Disk.{block_size, direct_block_count, ptrs_in_block, Disk}
use kernel_programming_proje.Ext2.Names.{byte_at, take, drop}
use kernel_programming_proje.Ext2.Cp.{
  take_in_inode, when_read, start_indirect, start_double, copy_file,
}
use kernel_programming_proje.Ext2.Cp.Keeps.{
  in_use, Later, Later-trans, HasRoom, earlier-HasRoom, step-Later,
}
use kernel_programming_proje.Ext2.Cp.Data.{
  reading, skip, skip-nil, block_of, Holds, later-Holds, WroteDirect, WroteIndirect,
  copy_direct-WroteDirect, copy_indirect-WroteIndirect,
}

length-drop : (n : ℕ) (x : List ℕ) → length (drop n x) ≡ length x - n
length-drop zero x = omega arith
length-drop (suc n) [] = omega arith
length-drop (suc n) (c ∷ x) = omega (arith, length-drop n x)

byte_at-drop : (n : ℕ) (x : List ℕ) (j : ℕ) → byte_at (drop n x) j ≡ byte_at x (j + n)
byte_at-drop zero x j = ap (byte_at x) (omega arith)
byte_at-drop (suc n) [] j = refl
byte_at-drop (suc n) (c ∷ x) j =
    let e : suc (j + n) ≡ j + suc n = omega arith in byte_at-drop n x j ∙ ap (byte_at (c ∷ x)) e

take-lt : (n j : ℕ) (x : List ℕ) → j < n → j < length x → j < length (take n x)
take-lt zero j x lt inside = absurd (omega arith)
take-lt (suc n) j [] lt inside = inside
take-lt (suc n) zero (c ∷ x) lt inside = omega arith
take-lt (suc n) (suc j) (c ∷ x) lt inside = omega (arith, take-lt n j x (omega arith) (omega arith))

byte_at-take : (n j : ℕ) (x : List ℕ) → j < n → byte_at (take n x) j ≡ byte_at x j
byte_at-take zero j x lt = absurd (omega arith)
byte_at-take (suc n) j [] lt = refl
byte_at-take (suc n) zero (c ∷ x) lt = refl
byte_at-take (suc n) (suc j) (c ∷ x) lt = byte_at-take n j x (omega arith)

length-skip : (k : ℕ) (x : List ℕ) → length (skip k x) ≡ length x - k * 1024
length-skip zero x = omega arith
length-skip (suc k) x = omega (arith, length-skip k (drop block_size x), length-drop 1024 x)

byte_at-skip : (k j : ℕ) (x : List ℕ) → byte_at (skip k x) j ≡ byte_at x (j + k * 1024)
byte_at-skip zero j x = ap (byte_at x) (omega arith)
byte_at-skip (suc k) j x =
    let e : j + k * 1024 + 1024 ≡ j + suc k * 1024 = omega arith in
    byte_at-skip k j (drop block_size x) ∙ byte_at-drop 1024 x (j + k * 1024) ∙ ap (byte_at x) e

nil_of_length : (x : List ℕ) → length x ≤ 0 → x ≡ []
nil_of_length [] le = refl
nil_of_length (c ∷ x) le = absurd (omega arith)

skip_all : (k : ℕ) (x : List ℕ) → length x ≤ k * 1024 → skip k x ≡ []
skip_all k x le = nil_of_length (skip k x) (omega (arith, length-skip k x))

pub skip-skip : (k m : ℕ) (x : List ℕ) → skip k (skip m x) ≡ skip (m + k) x
skip-skip k zero x = let e : k ≡ 0 + k = omega arith in ap (λ n. skip n x) e
skip-skip k (suc m) x =
    let e : suc (m + k) ≡ suc m + k = omega arith in
    skip-skip k m (drop block_size x) ∙ ap (λ n. skip n x) e

-- The number of block `k` of a file: a direct block, or one behind the indirect block.
abbrev pub file_block : Disk → ℕ → ℕ → ℕ
file_block d number k =
    if ltb k 12 then block_of d number k else d.pointers (block_of d number 12) (k - 12)

-- What the copy leaves.
record Copied (number : ℕ) (x : List ℕ) (d d' : Disk) : Type 0 where
  later : Later d d'
  blocks : HasRoom d' → (k : ℕ) → k < 268 → Holds d' (file_block d' number k) (skip k x)

ends : (d : Disk) (b k : ℕ) (x : List ℕ) → 12 ≤ k → skip 12 x ≡ [] → Holds d b (skip k x)
ends d b k x le done =
    let e : 12 + (k - 12) ≡ k = omega arith in
    let empty : skip k x ≡ [] =
      ap (λ n. skip n x) (sym e)
      ∙ sym (skip-skip (k - 12) 12 x)
      ∙ ap (skip (k - 12)) done
      ∙ skip-nil (k - 12) in
    subst (Holds d b) (sym empty) (λ j lt. absurd (omega arith))

Copied-direct :
    (number : ℕ) (x : List ℕ) (d d1 : Disk)
    → skip 12 x ≡ []
    → WroteDirect number 12 0 x d d1
    → Copied number x d d1
Copied-direct number x d d1 done w = record {
  later = w.later;
  blocks = λ room k lt. elim (Bool-cases (ltb k 12)) [
    | inl direct ↦ rw direct (
        (let e : 0 + k ≡ k = omega arith in
          subst (λ m. Holds d1 (block_of d1 number m) (skip k x)) e
            (w.blocks room k (ground arith))))
    | inr behind ↦
        rw behind (ends d1 (d1.pointers (block_of d1 number 12) (k - 12)) k x (ground arith) done)
  ];
}

Copied-indirect :
    (number : ℕ) (x : List ℕ) (d d1 d2 d3 : Disk)
    → WroteDirect number 12 0 x d d1
    → Later d1 d2
    → ((k : ℕ)
        → block_of d2 number k
          ≡ (if k == 12 then find_free_block d1.image else block_of d1 number k))
    → WroteIndirect number (find_free_block d1.image) 256 0 (skip 12 x) d2 d3
    → Copied number x d d3
Copied-indirect number x d d1 d2 d3 w l at v =
    let on : Later d1 d3 = Later-trans d1 d2 d3 l v.later in
    record {
      later = Later-trans d d1 d3 w.later on;
      blocks = λ room k lt. elim (Bool-cases (ltb k 12)) [
        | inl direct ↦
            let e : 0 + k ≡ k = omega arith in
            let same : block_of d3 number k ≡ block_of d1 number k =
              v.direct_same k ∙ at k ∙ ground arith in
            rw direct (
              subst (λ b. Holds d3 b (skip k x)) (sym same)
                (later-Holds d1 d3 (block_of d1 number k) (skip k x) on (
                  subst (λ m. Holds d1 (block_of d1 number m) (skip k x)) e
                    (w.blocks (earlier-HasRoom d1 d3 on room) k (ground arith)))))
        | inr behind ↦
            let e : 12 + (k - 12) ≡ k = ground arith in
            let none_before : 0 + (k - 12) ≡ k - 12 = omega arith in
            let pointer : block_of d3 number 12 ≡ find_free_block d1.image =
              v.direct_same 12 ∙ at 12 ∙ ground arith in
            rw behind (
              subst (λ b. Holds d3 (d3.pointers b (k - 12)) (skip k x)) (sym pointer)
                (subst (Holds d3 (d3.pointers (find_free_block d1.image) (k - 12)))
                  (skip-skip (k - 12) 12 x ∙ ap (λ n. skip n x) e)
                  (subst
                    (λ m.
                      Holds d3 (d3.pointers (find_free_block d1.image) m)
                        (skip (k - 12) (skip 12 x)))
                    none_before (v.blocks room (k - 12) (omega arith)))))
      ];
    }

put_self : (f : ℕ → ℕ → ℕ) (i b : ℕ) → f b ≡ put f i (f i) b
put_self f i b = elim (Bool-cases (b == i)) [
  | inl here ↦ let e : b ≡ i = ground arith in rw here (ap f e)
  | inr there ↦ rw there refl
]

indirect_block :
    (number : ℕ) (d : Disk) (k : ℕ)
    → block_of (take_in_inode number 12 d) number k
      ≡ (if k == 12 then find_free_block d.image else block_of d number k)
indirect_block number d k = ground arith

-- One of the two ways through copy_file for a file of at most 268 blocks.
copy_file-Copied :
    (number : ℕ) (x : List ℕ) (d : Disk)
    → length x ≤ 268 * 1024
    → Copied number x d (copy_file number x d)
unfolding copy_file start_indirect direct_block_count ptrs_in_block
copy_file-Copied number x d short =
    let (d1, runs, w) = copy_direct-WroteDirect number 12 0 x d in
    subst (λ s. Copied number x d (when_read (start_indirect number) s).disk) (sym runs)
      (behind d1 w (skip 12 x) refl)
  where
    behind :
        (d1 : Disk)
        → WroteDirect number 12 0 x d d1
        → (y : List ℕ) → skip 12 x ≡ y
        → Copied number x d (when_read (start_indirect number) (reading y d1)).disk
    behind d1 w [] e = Copied-direct number x d d1 e w
    behind d1 w (c ∷ y) e =
        let d2 : Disk = take_in_inode number 12 d1 in
        let (d3, runs, v) =
          copy_indirect-WroteIndirect number (find_free_block d1.image) 256 0 (c ∷ y) d2 in
        let over : skip 256 (c ∷ y) ≡ [] =
          ap (skip 256) (sym e) ∙ skip-skip 256 12 x ∙ skip_all 268 x short in
        subst (λ s. Copied number x d (when_read (start_double number) s).disk)
          (sym (runs ∙ ap (λ l. reading l d3) over))
          (Copied-indirect number x d d1 d2 d3 w
            (step-Later d1 d2 (d1.bytes (find_free_block d1.image)) refl
              (put_self d1.bytes (find_free_block d1.image)))
            (indirect_block number d1)
            (subst (λ l. WroteIndirect number (find_free_block d1.image) 256 0 l d2 d3) (sym e) v))

-- If a file of at most 268 blocks is copied to an inode, and a free block is left, the blocks of the
-- inode, the direct ones and those behind the indirect block, have every byte of the file at its
-- place, and every block that was in use before is in use still, with the same bytes.
pub copy_file-reads :
    (number : ℕ) (content : List ℕ) (d : Disk)
    → length content ≤ 268 * 1024
    → HasRoom (copy_file number content d)
    → ((p : ℕ)
        → p < length content
        → (copy_file number content d).bytes
            (file_block (copy_file number content d) number (p / 1024))
            (p % 1024)
          ≡ byte_at content p)
      × ((block : ℕ)
          → 0 < block
          → in_use d block ≡ true
          → (in_use (copy_file number content d) block ≡ true)
            × ((copy_file number content d).bytes block ≡ d.bytes block))
copy_file-reads number content d short room =
    let c = copy_file-Copied number content d short in
    (
      λ p inside.
          let k : ℕ = p / 1024 in
          let j : ℕ = p % 1024 in
          let within : j < length (skip k content) = omega (arith, length-skip k content) in
          let low : j < 1024 = omega arith in
          let whole : j + k * 1024 ≡ p = omega arith in
          (c.blocks room k (omega arith) j (take-lt 1024 j (skip k content) low within)).2
          ∙ byte_at-take 1024 j (skip k content) low
          ∙ byte_at-skip k j content
          ∙ ap (byte_at content) whole,
      λ block above used. (c.later.kept (to_index block) used, c.later.bytes_same block above used),
    )
