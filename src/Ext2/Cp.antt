-- ===== src/Ext2/Cp.antt =====
-- ext2_cp.c, lines 157 to 261 and 311 to 368: the data of a file of the native system is copied into an inode. fread gives the next
-- bytes of the file, `block_size` of them at most; they and the unread rest are the state `Copy`.
pub mod Main
pub mod Space
pub mod Errors
pub mod Keeps
pub mod Data
pub mod File
pub mod Rows
use kernel_programming_proje.Base.{
  ℕ, zero, suc, ◌+◌, ◌-◌, ◌*◌, ◌/◌, ◌%◌, ◌^◌, Bool, true, false, List, [], ◌∷◌, length, ltb, leb,
  ◌==◌, if◌then◌else◌, put,
}
use kernel_programming_proje.Ext2.Bitmaps.{find_free_block, to_index}
use kernel_programming_proje.Ext2.Disk.{
  block_size, direct_block_count, ptrs_in_block, total_block_count, Inode, Disk, set_inode,
  update_bits,
}
use kernel_programming_proje.Ext2.Names.{take, drop}
use kernel_programming_proje.Ext2.Allocate.{write_name}

-- A quotient, rounded up: `n / m` with `if (n % m) += 1`.
abbrev pub up : ℕ → ℕ → ℕ
up n m = n / m + (if n % m == 0 then 0 else 1)

-- num_blocks_needed for a size; `none` of the sums in a branch reaches 2 ^ 32. The powers are exact
-- as `double`, and 256 * 1024 / 1024 is what the last case subtracts.
unfoldable pub num_blocks_needed : ℕ → ℕ
num_blocks_needed st_size =
    if ltb st_size (12 * 1024)
    then up st_size 1024
    else if ltb st_size (12 * 1024 + 256 * 1024)
    then 13 + up (st_size - 12 * 1024) 1024
    else if ltb st_size (12 * 1024 + 256 * 1024 + 256 ^ 2 * 1024)
    then (let end_blocks_needed = up (st_size - 12 * 1024 - 256 * 1024) 1024 in
        14 + 256 + (up end_blocks_needed 256 + end_blocks_needed))
    else let end_blocks_needed =
        (st_size - 12 * 1024 - 256 * 1024 / 1024 - 256 ^ 2 * 1024) / 1024
        + (if (st_size - 12 * 1024 - 256 * 1024 - 256 ^ 2 * 1024) % 1024 == 0 then 0 else 1) in
      let ptr_blocks_needed = up end_blocks_needed 256 in
      let ptr_ptr_blocks_needed =
        ptr_blocks_needed / 256 + (if ptr_blocks_needed / 256 % 256 == 0 then 0 else 1) in
      15 + 2 * 256 + 256 ^ 2 + (ptr_blocks_needed + end_blocks_needed + ptr_ptr_blocks_needed)

unfoldable pub have_enough_blocks : Disk → ℕ → Bool
unfolding num_blocks_needed
have_enough_blocks d st_size =
    if ltb st_size (12 * 1024 + 256 * 1024 + 256 ^ 2 * 1024 + 256 ^ 3 * 1024)
    then leb (num_blocks_needed st_size) d.image.blocks.bg_free_count
    else false

-- The buffer holds the bytes that the last fread read, and `rest` is not read yet.
pub record Copy : Type 0 where
  pub disk : Disk
  pub buffer : List ℕ
  pub rest : List ℕ

abbrev pub fread : Copy → Copy
fread s = record s { buffer = take block_size s.rest; rest = drop block_size s.rest }

abbrev pub copy_data_to_block : ℕ → List ℕ → Disk → Disk
copy_data_to_block block_num buffer d = record d {
  bytes = put d.bytes block_num (write_name (length buffer) buffer (d.bytes block_num));
}

-- `new_file_entry_inode->i_block[index] = block_num`.
abbrev pub set_block : ℕ → ℕ → ℕ → Disk → Disk
set_block number index block_num d =
    let inode = d.inodes (to_index number) in
    set_inode number (record inode { i_block = put inode.i_block index block_num }) d

-- `new_file_entry_inode->i_blocks += 1`.
abbrev pub count_block : ℕ → Disk → Disk
count_block number d =
    let inode = d.inodes (to_index number) in
    set_inode number (record inode { i_blocks = (inode.i_blocks + 1) % 2 ^ 32 }) d

abbrev pub set_pointer : ℕ → ℕ → ℕ → Disk → Disk
set_pointer block offset block_num d = record d {
  pointers = put d.pointers block (put (d.pointers block) offset block_num);
}

-- A free block, marked, whose number an array of the inode gets.
abbrev pub take_in_inode : ℕ → ℕ → Disk → Disk
take_in_inode number index d =
    let block_num = find_free_block d.image in
    count_block number (set_block number index block_num (update_bits b'b' block_num 1 d))

-- A free block, marked, whose number a block of pointers gets.
abbrev pub take_in_block : ℕ → ℕ → ℕ → Disk → Disk
take_in_block number block offset d =
    let block_num = find_free_block d.image in
    set_pointer block offset block_num (count_block number (update_bits b'b' block_num 1 d))

-- One round of the loop over the direct blocks.
abbrev pub write_direct : ℕ → ℕ → Copy → Copy
write_direct number index s = fread (record s {
  disk =
      copy_data_to_block (find_free_block s.disk.image) s.buffer
        (take_in_inode number index s.disk);
})

-- The loop over the direct blocks, `n` of them from `index` on.
unfoldable pub copy_direct : ℕ → ℕ → ℕ → Copy → Copy
copy_direct zero number index s = s
copy_direct (suc n) number index s = elim s.buffer [
  | [] ↦ s
  | b ∷ bs ↦ copy_direct n number (index + 1) (write_direct number index s)
]

-- One round of a loop over the pointers in `ptr_block`.
abbrev pub write_indirect : ℕ → ℕ → ℕ → Copy → Copy
write_indirect number ptr_block offset s = fread (record s {
  disk =
      copy_data_to_block (find_free_block s.disk.image) s.buffer
        (take_in_block number ptr_block offset s.disk);
})

unfoldable pub copy_indirect : ℕ → ℕ → ℕ → ℕ → Copy → Copy
copy_indirect zero number ptr_block offset s = s
copy_indirect (suc n) number ptr_block offset s = elim s.buffer [
  | [] ↦ s
  | b ∷ bs ↦
      copy_indirect n number ptr_block (offset + 1) (write_indirect number ptr_block offset s)
]

-- The loop over the pointers in `ptr_ptr_block`; each round ends with one more fread, whatever the
-- buffer holds.
unfoldable pub copy_double : ℕ → ℕ → ℕ → ℕ → Copy → Copy
unfolding copy_indirect
copy_double zero number ptr_ptr_block offset s = s
copy_double (suc n) number ptr_ptr_block offset s = elim s.buffer [
  | [] ↦ s
  | b ∷ bs ↦ copy_double n number ptr_ptr_block (offset + 1) (
      fread (
        copy_indirect ptrs_in_block number (find_free_block s.disk.image) 0
          (record s { disk = take_in_block number ptr_ptr_block offset s.disk })))
]

unfoldable pub copy_triple : ℕ → ℕ → ℕ → ℕ → Copy → Copy
unfolding copy_double
copy_triple zero number ptr_ptr_ptr_block offset s = s
copy_triple (suc n) number ptr_ptr_ptr_block offset s = elim s.buffer [
  | [] ↦ s
  | b ∷ bs ↦ copy_triple n number ptr_ptr_ptr_block (offset + 1) (
      fread (
        copy_double ptrs_in_block number (find_free_block s.disk.image) 0
          (record s { disk = take_in_block number ptr_ptr_ptr_block offset s.disk })))
]

-- What stands under `if (bytes_read > 0)`.
abbrev pub when_read : (Copy → Copy) → Copy → Copy
when_read f s = elim s.buffer [ [] ↦ s | b ∷ bs ↦ f s ]

unfoldable pub start_triple : ℕ → Copy → Copy
unfolding copy_triple
start_triple number s =
    copy_triple ptrs_in_block number (find_free_block s.disk.image) 0
      (record s { disk = take_in_inode number 14 s.disk })

unfoldable pub start_double : ℕ → Copy → Copy
unfolding copy_double start_triple
start_double number s = when_read (start_triple number) (
    copy_double ptrs_in_block number (find_free_block s.disk.image) 0
      (record s { disk = take_in_inode number 13 s.disk }))

unfoldable pub start_indirect : ℕ → Copy → Copy
unfolding copy_indirect start_double
start_indirect number s = when_read (start_double number) (
    copy_indirect ptrs_in_block number (find_free_block s.disk.image) 0
      (record s { disk = take_in_inode number 12 s.disk }))

-- The copy, from the first fread on.
unfoldable pub copy_file : ℕ → List ℕ → Disk → Disk
unfolding copy_direct start_indirect
copy_file number content d =
    (when_read (start_indirect number) (
      copy_direct direct_block_count number 0
        (fread (record { disk = d; buffer = []; rest = content })))).disk
