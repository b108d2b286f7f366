-- ===== src/Ext2/Allocate.antt =====
-- The space in a directory's block: ext2general.c, lines 186 to 244. A pointer has 8 bytes, as has
-- an entry before its name. The entries of a block are kept by their offsets in it; the answer is
-- `none` where the walk never ends or leaves the block, and where a name is written past the end of
-- its entry, over what follows.
pub mod Slots
pub mod Split
pub mod Block
pub mod Adds
use kernel_programming_proje.Base.{
  ℕ, zero, suc, ◌+◌, ◌-◌, ◌*◌, ◌/◌, ◌%◌, ◌^◌, Bool, true, false, ◌&&◌, List, Option, none, some,
  ltb, leb, ◌==◌, if◌then◌else◌, put,
}
use kernel_programming_proje.Ext2.Disk.{block_size, DirEntry, Disk, rounds}
use kernel_programming_proje.Ext2.Names.{byte_at}

-- The arguments of allocate_space_in_block that describe the new entry.
pub record NewEntry : Type 0 where
  pub name_len : ℕ
  pub inode_num : ℕ
  pub file_name : List ℕ
  pub file_type : ℕ

-- A number of bytes in units of four bytes, rounded up.
abbrev pub per_four_bytes : ℕ → ℕ
per_four_bytes n = n / 4 + (if n % 4 == 0 then 0 else 1)

abbrev pub write_name : ℕ → List ℕ → (ℕ → ℕ) → ℕ → ℕ
write_name name_len file_name name i = if ltb i name_len then byte_at file_name i else name i

-- The assignments to an entry, with the length that it has.
abbrev pub filled_entry : NewEntry → DirEntry → DirEntry
filled_entry a e = record e {
  name_len = a.name_len;
  inode = a.inode_num;
  name = write_name a.name_len a.file_name e.name;
  file_type = a.file_type;
}

abbrev pub fill : NewEntry → ℕ → (ℕ → DirEntry) → Option (Bool × (ℕ → DirEntry))
fill a position f =
    if ltb (f position).rec_len (8 + a.name_len)
    then none
    else some (true, put f position (filled_entry a (f position)))

-- An unused entry with room for the name that it had.
abbrev pub is_reusable : DirEntry → Bool
is_reusable e = (e.inode == 0) && leb (per_four_bytes (8 + e.name_len) * 4) e.rec_len

-- The entry `prev` is cut to `kept` bytes, and the new entry behind it gets the rest.
abbrev pub split_at : NewEntry → ℕ → ℕ → (ℕ → DirEntry) → Option (Bool × (ℕ → DirEntry))
split_at a prev kept f =
    let cut = put f prev (record (f prev) { rec_len = kept }) in
    let dir = prev + kept in
    fill a dir (put cut dir (record (cut dir) { rec_len = (f prev).rec_len - kept }))

unfoldable pub split_entry : NewEntry → ℕ → (ℕ → DirEntry) → Option (Bool × (ℕ → DirEntry))
split_entry a prev f =
    if leb (per_four_bytes (16 + a.name_len + (f prev).name_len) * 4) (f prev).rec_len
    then split_at a prev (per_four_bytes (8 + (f prev).name_len) * 4) f
    else some (false, f)

-- The loop, for `n` rounds at most; current_position has 16 bits.
unfoldable pub allocate_from :
    ℕ → NewEntry → ℕ → ℕ → (ℕ → DirEntry) → Option (Bool × (ℕ → DirEntry))
unfolding split_entry
allocate_from zero a prev position f = none
allocate_from (suc n) a prev position f = elim (ltb position (2 ^ 16)) [
  | false ↦ none
  | true ↦ elim (ltb position block_size) [
    | false ↦ split_entry a prev f
    | true ↦ elim (is_reusable (f position)) [
      | true ↦ fill a position f
      | false ↦ allocate_from n a position (position + (f position).rec_len) f
    ]
  ]
]

unfoldable pub allocate_in_block : NewEntry → (ℕ → DirEntry) → Option (Bool × (ℕ → DirEntry))
unfolding allocate_from
allocate_in_block a f = elim (is_reusable (f 0)) [
  | true ↦ fill a 0 f
  | false ↦ allocate_from rounds a 0 (f 0).rec_len f
]

-- The block is a part of the disk.
unfoldable pub allocate_entry : NewEntry → ℕ → Disk → Option (Bool × Disk)
unfolding allocate_in_block
allocate_entry a block_num d = elim (allocate_in_block a (d.entries block_num)) [
  | none ↦ none
  | some (added, f) ↦ some (added, record d { entries = put d.entries block_num f })
]

-- The answer is true for 1. The length is an `unsigned char`.
unfoldable pub allocate_space_in_block : Disk → ℕ → ℕ → ℕ → List ℕ → ℕ → Option (Bool × Disk)
unfolding allocate_entry
allocate_space_in_block d name_len block_num inode_num file_name file_type =
    let a : NewEntry = record {
      name_len = name_len % 2 ^ 8;
      inode_num = inode_num;
      file_name = file_name;
      file_type = file_type;
    } in
    allocate_entry a block_num d
