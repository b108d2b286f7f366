-- ===== src/Ext2/Rm/Locate.antt =====
-- What locate_dir_entry_in_block and update_parent_inode_block of ext2_rm.c find.
use kernel_programming_proje.Base.{
  ℕ, zero, suc, ◌+◌, ◌<◌, ◌≡◌, refl, true, ◌&&◌, List, [], ◌∷◌, Option, none, some, ltb, ◌==◌,
  if◌then◌else◌, arith, inl, inr, Bool-cases, ltb→lt,
}
use kernel_programming_proje.Ext2.Disk.{
  total_block_count, rounds, rounds-many, Inode, DirEntry, Place, Disk, entry_at,
}
use kernel_programming_proje.Ext2.Lookup.Entries.{
  chain, listing, entries_of, Advances, Advances-append,
}
use kernel_programming_proje.Ext2.Rm.{
  same_name, scan_block, locate_from, locate_dir_entry_in_block, count_used,
}

-- The first of the `n` indices from `i` on at which a block's number is not 0.
abbrev pub first_used : ℕ → ℕ → (ℕ → ℕ) → Option ℕ
first_used zero i f = none
first_used (suc n) i f = let rest = first_used n (i + 1) f in if f i == 0 then rest else some i

-- The number of entries in use among the places.
abbrev pub used_among : Disk → List Place → ℕ
used_among d [] = 0
used_among d (p ∷ ps) =
    let rest = used_among d ps in if (entry_at d p).inode == 0 then rest else rest + 1

scan_block-ends :
    (n : ℕ) (d : Disk) (block : ℕ) (e : DirEntry) (position : ℕ)
    → 0 < n
    → 1024 < n + position
    → Advances d (chain n d block position)
    → scan_block n d block e position ≡ true
unfolding scan_block
scan_block-ends zero d block e position more enough a = absurd (omega arith)
scan_block-ends (suc n) d block e position more enough a = elim (Bool-cases (ltb position 1024)) [
  | inr past ↦ rw (past, scan_block) refl
  | inl inside ↦
      let (long, rest) : (0 < (d.entries block position).rec_len)
          × Advances d (chain n d block (position + (d.entries block position).rec_len)) =
        rw inside at a in
      let lt : position < 1024 = ltb→lt position 1024 inside in
      elim (Bool-cases (
        ((d.entries block position).name_len == e.name_len)
        && same_name (d.entries block position).name_len 0 (d.entries block position) e)) [
          | inl stop ↦ rw (inside, scan_block, stop) refl
          | inr on ↦
              rw (inside, scan_block, on)
                (scan_block-ends n d block e (position + (d.entries block position).rec_len)
                  (omega arith) (omega arith) rest)
        ]
]

pub count_used-among :
    (n : ℕ) (d : Disk) (block position : ℕ)
    → 0 < n
    → 1024 < n + position
    → Advances d (chain n d block position)
    → count_used n d block position ≡ some (used_among d (chain n d block position))
unfolding count_used
count_used-among zero d block position more enough a = absurd (omega arith)
count_used-among (suc n) d block position more enough a = elim (Bool-cases (ltb position 1024)) [
  | inr past ↦ rw (past, count_used) refl
  | inl inside ↦
      let (long, rest) : (0 < (d.entries block position).rec_len)
          × Advances d (chain n d block (position + (d.entries block position).rec_len)) =
        rw inside at a in
      let lt : position < 1024 = ltb→lt position 1024 inside in
      rw
        (
          count_used,
          inside,
          count_used-among n d block (position + (d.entries block position).rec_len) (omega arith)
              (omega arith) rest,
        )
        refl
]

locate_from-first :
    (n i : ℕ) (d : Disk) (inode : Inode) (e : DirEntry)
    → Advances d (listing n i d inode)
    → locate_from n i d inode e ≡ some (first_used n i inode.i_block)
unfolding locate_from
locate_from-first zero i d inode e a = refl
locate_from-first (suc n) i d inode e a = elim (Bool-cases (inode.i_block i == 0)) [
  | inl unused ↦ rw (unused, locate_from) (locate_from-first n (i + 1) d inode e (rw unused at a))
  | inr used ↦
      let (here, rest) =
        Advances-append d (chain rounds d (inode.i_block i) 0) (listing n (i + 1) d inode)
          (rw used at a) in
      let ends =
        scan_block-ends rounds d (inode.i_block i) e 0 (omega (arith, rounds-many))
          (omega (arith, rounds-many)) here in
      rw (used, locate_from, ends) refl
]

-- For a directory of which no entry has the length 0, locate_dir_entry_in_block returns the index of
-- the directory's first block, whatever the entry is, and -1 only if it has no block.
pub locate_dir_entry_in_block-first :
    (d : Disk) (inode : Inode) (e : DirEntry)
    → Advances d (entries_of d inode)
    → locate_dir_entry_in_block d inode e ≡ some (first_used total_block_count 0 inode.i_block)
unfolding locate_dir_entry_in_block
locate_dir_entry_in_block-first d inode e a = locate_from-first total_block_count 0 d inode e a
