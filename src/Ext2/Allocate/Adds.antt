-- ===== src/Ext2/Allocate/Adds.antt =====
-- allocate_space_in_block of ext2general.c on a disk.
use kernel_programming_proje.Base.{
  ℕ, zero, suc, ◌%◌, ◌^◌, ◌<◌, ◌≡◌, ◌≢◌, refl, sym, ap, subst, fun_ext, Bool, true, false, List,
  Option, none, some, length, has, put, ◌==◌, arith, ◌⊎◌, inl, inr, Bool-cases,
}
use kernel_programming_proje.Ext2.Disk.{DirEntry, Disk}
use kernel_programming_proje.Ext2.Allocate.{NewEntry, allocate_entry, allocate_space_in_block}
use kernel_programming_proje.Ext2.Allocate.Slots.{slots, tiles, OneMore, Spills, Full}
use kernel_programming_proje.Ext2.Allocate.Block.{allocate_in_block-Allocated}

put-same : (entries : ℕ → ℕ → DirEntry) (b : ℕ) → put entries b (entries b) ≡ entries
put-same entries b = fun_ext (λ i. elim (Bool-cases (i == b)) [
  | inl here ↦ let e : i ≡ b = ground arith in rw here (ap entries (sym e))
  | inr away ↦ rw away refl
])

abbrev pub new_entry : ℕ → ℕ → List ℕ → ℕ → NewEntry
new_entry name_len inode_num file_name file_type = record {
  name_len = name_len;
  inode_num = inode_num;
  file_name = file_name;
  file_type = file_type;
}

-- The three things that may come of a block.
abbrev pub Outcome : Disk → ℕ → ℕ → ℕ → ℕ → List ℕ → Option (Bool × Disk) → Type 0
Outcome d n block_num inode_num file_type file_name r =
    ((r ≡ none)
      × Spills (new_entry (length file_name) inode_num file_name file_type) n (d.entries block_num)
          0)
    ⊎ ((r ≡ some (false, d))
          × Full (new_entry (length file_name) inode_num file_name file_type) n
              (d.entries block_num) 0
        ⊎ ((g : ℕ → DirEntry) × (m : ℕ) × (r
              ≡ some (true, record d { entries = put d.entries block_num g }))
            × (tiles m g 0 ≡ true)
            × OneMore (inode_num, file_type, file_name) (slots n (d.entries block_num) 0)
                (slots m g 0)))

allocate_entry-Outcome :
    (d : Disk) (n block_num inode_num file_type : ℕ) (file_name : List ℕ)
    → tiles n (d.entries block_num) 0 ≡ true
    → has 0 file_name ≡ false
    → inode_num ≢ 0
    → Outcome d n block_num inode_num file_type file_name
        (allocate_entry (new_entry (length file_name) inode_num file_name file_type) block_num d)
unfolding allocate_entry
allocate_entry-Outcome d zero block_num inode_num file_type file_name tiled no_nul used =
    absurd (ground arith)
allocate_entry-Outcome d (suc n) block_num inode_num file_type file_name tiled no_nul used =
    elim (allocate_in_block-Allocated (new_entry (length file_name) inode_num file_name file_type)
      refl no_nul used n (d.entries block_num) tiled) [
        | inl (e, why) ↦ inl (rw (allocate_entry, e) refl, why)
        | inr (inl (e, full)) ↦ inr (
            inl (
              rw (allocate_entry, e)
                  (ap (λ t. some (false, record d { entries = t })) (put-same d.entries block_num)),
              full,
            ))
        | inr (inr (g, m, e, ok, one_more, same)) ↦
            inr (inr (g, m, rw (allocate_entry, e) refl, ok, one_more))
      ]

-- For a block whose entries are at least 8 bytes long and end at the block's end, a name of fewer
-- than 256 bytes without a NUL, and an inode other than 0, one of three holds.
-- allocate_space_in_block leaves the disk as it was and answers 0, and then no unused entry is long
-- enough for the name that it had, and the last entry has no room for both names; or it answers 1, the entries still
-- end at the block's end, the entries in use are those from before, in order, and one more with the
-- inode, the type and the name, and no other block and nothing else of the disk changes; or it has no
-- answer here, and one of the block's entries is too small for the name: an unused one, long enough
-- for the name that it had, or the last one, with room for both names when their lengths are added
-- and then rounded to a multiple of 4, but not when the old one is rounded by itself.
pub allocate_space_in_block-adds :
    (d : Disk) (n block_num inode_num file_type : ℕ) (file_name : List ℕ)
    → tiles n (d.entries block_num) 0 ≡ true
    → length file_name < 2 ^ 8
    → has 0 file_name ≡ false
    → inode_num ≢ 0
    → Outcome d n block_num inode_num file_type file_name
        (allocate_space_in_block d (length file_name) block_num inode_num file_name file_type)
unfolding allocate_space_in_block
allocate_space_in_block-adds d n block_num inode_num file_type file_name tiled short no_nul used =
    let byte : length file_name % 2 ^ 8 ≡ length file_name = omega arith in
    subst
      (λ l.
        Outcome d n block_num inode_num file_type file_name
          (allocate_entry (new_entry l inode_num file_name file_type) block_num d))
      (sym byte)
      (allocate_entry-Outcome d n block_num inode_num file_type file_name tiled no_nul used)
