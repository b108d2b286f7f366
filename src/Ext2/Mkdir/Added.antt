-- ===== src/Ext2/Mkdir/Added.antt =====
-- The steps of ext2_mkdir.c that add an entry keep the inodes' bitmap.
use kernel_programming_proje.Base.{
  ℕ, zero, suc, ◌+◌, ◌%◌, ◌^◌, ◌≡◌, refl, ◌∙◌, Bool, true, false, List, Option, none, some, length,
  ◌==◌, arith, inl, inr, Bool-cases, Option-cases,
}
use kernel_programming_proje.Ext2.Bitmaps.{update_bitmap, find_free_block}
use kernel_programming_proje.Ext2.Disk.{total_block_count, Disk, get_inode}
use kernel_programming_proje.Ext2.Allocate.{
  NewEntry, allocate_in_block, allocate_entry, allocate_space_in_block,
}
use kernel_programming_proje.Ext2.Mkdir.{add_to_blocks, unused_index, add_in_new_block}

-- The disks of all answers have the same bits of inodes as `d`.
abbrev pub SameInodes : Disk → Option (Bool × Disk) → Type 0
SameInodes d none = Unit {0}
SameInodes d (some (b, e)) = e.image.inodes ≡ d.image.inodes

-- What follows an answer that is not final.
then_SameInodes :
    (d : Disk) (r : Option (Bool × Disk)) (k : Disk → Option (Bool × Disk))
    → SameInodes d r
    → ((e : Disk) → e.image.inodes ≡ d.image.inodes → SameInodes d (k e))
    → SameInodes d
        (elim r [ none ↦ none | some (true, e) ↦ some (true, e) | some (false, e) ↦ k e ])
then_SameInodes d none k s on = tt
then_SameInodes d (some (true, e)) k s on = s
then_SameInodes d (some (false, e)) k s on = on e s

allocate_entry-SameInodes :
    (a : NewEntry) (block : ℕ) (d : Disk) → SameInodes d (allocate_entry a block d)
unfolding allocate_entry
allocate_entry-SameInodes a block d = elim (Option-cases (allocate_in_block a (d.entries block))) [
  | inl e ↦ rw (allocate_entry, e) tt
  | inr ((b, f), e) ↦ rw (allocate_entry, e) refl
]

pub allocate-SameInodes :
    (d : Disk) (name_len block number : ℕ) (name : List ℕ) (type : ℕ)
    → SameInodes d (allocate_space_in_block d name_len block number name type)
unfolding allocate_space_in_block
allocate-SameInodes d name_len block number name type =
    allocate_entry-SameInodes
      (record {
        name_len = name_len % 2 ^ 8;
        inode_num = number;
        file_name = name;
        file_type = type;
      })
      block d

SameInodes-of :
    (d0 d : Disk) (r : Option (Bool × Disk))
    → SameInodes d r
    → d.image.inodes ≡ d0.image.inodes
    → SameInodes d0 r
SameInodes-of d0 d none s same = tt
SameInodes-of d0 d (some (b, e)) s same = s ∙ same

pub add_to_blocks-SameInodes :
    (n i : ℕ) (d0 d : Disk) (parent number : ℕ) (name : List ℕ) (type : ℕ)
    → d.image.inodes ≡ d0.image.inodes
    → SameInodes d0 (add_to_blocks n i d parent number name type)
unfolding add_to_blocks
add_to_blocks-SameInodes zero i d0 d parent number name type same = same
add_to_blocks-SameInodes (suc n) i d0 d parent number name type same =
    elim (Option-cases (get_inode d parent)) [
      | inl e ↦ rw (add_to_blocks, e) tt
      | inr (inode, e) ↦ elim (Bool-cases (inode.i_block i == 0)) [
        | inl unused ↦
            rw (add_to_blocks, e, unused)
              (add_to_blocks-SameInodes n (i + 1) d0 d parent number name type same)
        | inr used ↦
            rw (add_to_blocks, e, used)
              (then_SameInodes d0
                (allocate_space_in_block d (length name) (inode.i_block i) number name type)
                (λ d'. add_to_blocks n (i + 1) d' parent number name type)
                (SameInodes-of d0 d
                  (allocate_space_in_block d (length name) (inode.i_block i) number name type)
                  (allocate-SameInodes d (length name) (inode.i_block i) number name type) same)
                (λ d' s. add_to_blocks-SameInodes n (i + 1) d0 d' parent number name type s))
      ]
    ]

pub add_in_new_block-SameInodes :
    (d0 d : Disk) (parent number : ℕ) (name : List ℕ) (type : ℕ)
    → d.image.inodes ≡ d0.image.inodes
    → SameInodes d0 (add_in_new_block d parent number name type)
unfolding update_bitmap
add_in_new_block-SameInodes d0 d parent number name type same =
    let kept : (update_bitmap b'b' (find_free_block d.image) 1 d.image).inodes ≡ d.image.inodes =
      ground arith in
    elim (Option-cases (get_inode d parent)) [
      | inl e ↦ rw (add_in_new_block, e) tt
      | inr (inode, e) ↦ elim (Option-cases (unused_index total_block_count 0 inode)) [
        | inl full ↦ rw (add_in_new_block, e, full) (kept ∙ same)
        | inr (i, place) ↦ rw (add_in_new_block, e, place) (kept ∙ same)
      ]
    ]
