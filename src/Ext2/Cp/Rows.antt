-- ===== src/Ext2/Cp/Rows.antt =====
-- The loop of ext2_cp.c over the double indirect blocks.
use kernel_programming_proje.Base.{
  ℕ, suc, ◌+◌, ◌<◌, ◌≡◌, ap, ◌∙◌, List, [], ◌∷◌, length, arith, false, ◌==◌,
}
use kernel_programming_proje.Ext2.Bitmaps.{find_free_block}
use kernel_programming_proje.Ext2.Disk.{ptrs_in_block, Disk}
use kernel_programming_proje.Ext2.Cp.{fread, take_in_block, copy_double}
use kernel_programming_proje.Ext2.Cp.Keeps.{HasRoom}
use kernel_programming_proje.Ext2.Cp.Data.{reading, skip, Holds, copy_indirect-WroteIndirect}
use kernel_programming_proje.Ext2.Cp.File.{skip-skip}

-- A round of the loop over the double indirect blocks, at a place of the file that is not its end,
-- writes the next 256 blocks of the file behind one block of pointers, if a free block is left, and
-- changes the bytes of no other block; the next round goes on 257 blocks behind that place, so that
-- the block between is left out.
pub copy_double-skips :
    (n number ptr_ptr_block offset : ℕ) (x : List ℕ) (d : Disk)
    → 0 < length x
    → (d' : Disk) × (copy_double (suc n) number ptr_ptr_block offset (reading x d)
        ≡ copy_double n number ptr_ptr_block (offset + 1) (reading (skip 257 x) d'))
      × (HasRoom d'
          → (k : ℕ) → k < 256
          → Holds d' (d'.pointers (find_free_block d.image) (0 + k)) (skip k x))
      × ((b : ℕ)
          → ((k : ℕ) → k < 256 → (d'.pointers (find_free_block d.image) (0 + k) == b) ≡ false)
          → d'.bytes b ≡ d.bytes b)
unfolding copy_double ptrs_in_block
copy_double-skips n number ptr_ptr_block offset [] d more = absurd (omega arith)
copy_double-skips n number ptr_ptr_block offset (c ∷ x) d more =
    let d1 : Disk = take_in_block number ptr_ptr_block offset d in
    let (d', runs, w) =
      copy_indirect-WroteIndirect number (find_free_block d.image) 256 0 (c ∷ x) d1 in
    (
      d',
      ap (λ s. copy_double n number ptr_ptr_block (offset + 1) (fread s)) runs
          ∙ ap (λ l. copy_double n number ptr_ptr_block (offset + 1) (reading l d'))
              (skip-skip 1 256 (c ∷ x)),
      w.blocks,
      w.elsewhere,
    )
