-- ===== src/Ext2/Mkdir/Made.antt =====
-- The steps of ext2_mkdir.c that follow the new inode, and the inodes' bitmap.
use kernel_programming_proje.Base.{
  ℕ, ◌+◌, ◌<◌, ◌≡◌, refl, ap, ◌∙◌, Bool, true, false, List, [], ◌∷◌, Option, none, some, ◌==◌,
  if◌then◌else◌, arith,
}
use kernel_programming_proje.Ext2.Bitmaps.{Image, bit_at, update_bitmap, to_index}
use kernel_programming_proje.Ext2.Bitmaps.Laws.{update_bitmap-bit}
use kernel_programming_proje.Ext2.Disk.{
  total_block_count, ft_dir, Place, Disk, entry_at, set_inode, set_entry, update_bits,
}
use kernel_programming_proje.Ext2.Allocate.{allocate_space_in_block}
use kernel_programming_proje.Ext2.Tools.{Exit, success, failure, enospc}
use kernel_programming_proje.Ext2.Mkdir.{
  add_to_blocks, add_in_new_block, finish, one_more_link, add_block, self_entry, fill_directory,
}
use kernel_programming_proje.Ext2.Mkdir.Added.{
  SameInodes, allocate-SameInodes, add_to_blocks-SameInodes, add_in_new_block-SameInodes,
}

-- Afterwards the inode `number` is marked if the status is 0, and is not marked otherwise; all
-- other inodes are marked as in `d`.
abbrev pub Marked : Disk → ℕ → Option (Exit × Option Disk) → Type 0
Marked d number none = Unit {0}
Marked d number (some (exit, none)) = Unit {0}
Marked d number (some (success, some e)) =
    (i : ℕ) → bit_at e.image.inodes i ≡ (if i + 1 == number then true else bit_at d.image.inodes i)
Marked d number (some (failure code, some e)) =
    (i : ℕ) → bit_at e.image.inodes i ≡ (if i + 1 == number then false else bit_at d.image.inodes i)

-- The inode `number` is marked, and all others are marked as in `d0`.
abbrev pub MarkedIn : Disk → ℕ → Disk → Type 0
MarkedIn d0 number d =
    (i : ℕ) → bit_at d.image.inodes i ≡ (if i + 1 == number then true else bit_at d0.image.inodes i)

MarkedIn-same :
    (d0 d e : Disk) (number : ℕ)
    → MarkedIn d0 number d
    → e.image.inodes ≡ d.image.inodes
    → MarkedIn d0 number e
MarkedIn-same d0 d e number marked same i = ap (λ b. bit_at b i) same ∙ marked i

block_keeps :
    (num value : ℕ) (image : Image) → (update_bitmap b'b' num value image).inodes ≡ image.inodes
unfolding update_bitmap
block_keeps num value image = ground arith

roll_back :
    (d0 e : Disk) (number : ℕ)
    → 0 < number
    → MarkedIn d0 number e
    → (i : ℕ)
    → bit_at (update_bits b'i' number 0 (update_bits b'b' number 0 e)).image.inodes i
      ≡ (if i + 1 == number then false else bit_at d0.image.inodes i)
roll_back d0 e number above marked i =
    (update_bitmap-bit b'i' number 0 (update_bitmap b'b' number 0 e.image) i above).0
    ∙ rw (block_keeps number 0 e.image, marked i) (ground arith)

finish_new :
    (d0 d : Disk) (number : ℕ) (r : Option (Bool × Disk))
    → 0 < number
    → MarkedIn d0 number d
    → SameInodes d r
    → Marked d0 number (elim r [
      | none ↦ none
      | some (true, e) ↦ some (success, some e)
      | some (false, e) ↦
          some (failure enospc, some (update_bits b'i' number 0 (update_bits b'b' number 0 e)))
    ])
finish_new d0 d number none above marked s = tt
finish_new d0 d number (some (true, e)) above marked s = MarkedIn-same d0 d e number marked s
finish_new d0 d number (some (false, e)) above marked s =
    roll_back d0 e number above (MarkedIn-same d0 d e number marked s)

finish_old :
    (d0 d : Disk) (number : ℕ) (r : Option (Bool × Disk)) (k : Disk → Option (Exit × Option Disk))
    → MarkedIn d0 number d
    → SameInodes d r
    → ((e : Disk) → MarkedIn d0 number e → Marked d0 number (k e))
    → Marked d0 number
        (elim r [ none ↦ none | some (true, e) ↦ some (success, some e) | some (false, e) ↦ k e ])
finish_old d0 d number none k marked s on = tt
finish_old d0 d number (some (true, e)) k marked s on = MarkedIn-same d0 d e number marked s
finish_old d0 d number (some (false, e)) k marked s on = on e (MarkedIn-same d0 d e number marked s)

finish-Marked :
    (d0 d : Disk) (parent number : ℕ) (name : List ℕ)
    → 0 < number
    → MarkedIn d0 number d
    → Marked d0 number (finish d parent number name)
finish-Marked d0 d parent number name above marked =
    finish_old d0 d number (add_to_blocks total_block_count 0 d parent number name ft_dir)
      (λ d'. elim (add_in_new_block d' parent number name ft_dir) [
        | none ↦ none
        | some (true, e) ↦ some (success, some e)
        | some (false, e) ↦
            some (failure enospc, some (update_bits b'i' number 0 (update_bits b'b' number 0 e)))
      ])
      marked (add_to_blocks-SameInodes total_block_count 0 d d parent number name ft_dir refl)
      (λ d' m.
        finish_new d0 d' number (add_in_new_block d' parent number name ft_dir) above m
          (add_in_new_block-SameInodes d' d' parent number name ft_dir refl))

then_finish :
    (d0 d : Disk) (parent number : ℕ) (name : List ℕ) (r : Option (Bool × Disk))
    → 0 < number
    → MarkedIn d0 number d
    → SameInodes d r
    → Marked d0 number (elim r [
      | none ↦ none
      | some (added, e) ↦ finish (one_more_link parent e) parent number name
    ])
then_finish d0 d parent number name none above marked s = tt
then_finish d0 d parent number name (some (added, e)) above marked s =
    finish-Marked d0 (one_more_link parent e) parent number name above
      (MarkedIn-same d0 d e number marked s)

pub fill_directory-Marked :
    (d0 d : Disk) (parent number block : ℕ) (name : List ℕ)
    → 0 < number
    → MarkedIn d0 number d
    → Marked d0 number (fill_directory d parent number block name)
fill_directory-Marked d0 d parent number block name above marked =
    let used : Disk = update_bits b'b' block 1 d in
    let with_block : Disk =
      set_inode number (add_block 0 block (used.inodes (to_index number))) used in
    let place : Place = record { block = block; offset = 0 } in
    let with_self : Disk =
      set_entry place (self_entry number (entry_at with_block place)) with_block in
    then_finish d0 with_self parent number name
      (allocate_space_in_block with_self 2 block parent (b'.' ∷ b'.' ∷ []) ft_dir) above
      (MarkedIn-same d0 d with_self number marked (block_keeps block 1 d.image))
      (allocate-SameInodes with_self 2 block parent (b'.' ∷ b'.' ∷ []) ft_dir)
