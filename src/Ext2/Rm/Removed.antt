-- ===== src/Ext2/Rm/Removed.antt =====
-- What remove_file of ext2_rm.c does to the entries and to the inodes' bitmap.
use kernel_programming_proje.Base.{
  ℕ, zero, suc, ◌+◌, ◌-◌, ◌%◌, ◌^◌, ◌<◌, ◌≡◌, refl, ap, subst, ◌∙◌, false, ◌&&◌, List, some, ◌==◌,
  if◌then◌else◌, arith, inl, inr, Bool-cases, ◌⊎◌, ◌≢◌,
}
use kernel_programming_proje.Ext2.Bitmaps.{bit_at, update_bitmap}
use kernel_programming_proje.Ext2.Bitmaps.Laws.{update_bitmap-bit}
use kernel_programming_proje.Ext2.Disk.{
  total_block_count, rounds, rounds-many, Inode, Place, Disk, entry_at, get_inode, set_inode,
  update_bits,
}
use kernel_programming_proje.Ext2.Lookup.{find_parent_inode}
use kernel_programming_proje.Ext2.Lookup.Entries.{
  chain, listing, entries_of, Advances, Advances-append,
}
use kernel_programming_proje.Ext2.Blocks.{free_all_blocks_of_inode}
use kernel_programming_proje.Ext2.Blocks.Free.{free_all_blocks_of_inode-frees}
use kernel_programming_proje.Ext2.Rm.{
  drop_block, update_parent_inode_block, update_parent, unlink_inode, invalidate, remove_file,
}
use kernel_programming_proje.Ext2.Rm.Locate.{
  first_used, used_among, count_used-among, locate_dir_entry_in_block-first,
}

-- The block that first_used finds is one of the directory's.
first_used-Advances :
    (n i k : ℕ) (d : Disk) (inode : Inode)
    → first_used n i inode.i_block ≡ some k
    → Advances d (listing n i d inode)
    → Advances d (chain rounds d (inode.i_block k) 0)
first_used-Advances zero i k d inode first a = absurd (ground arith)
first_used-Advances (suc n) i k d inode first a = elim (Bool-cases (inode.i_block i == 0)) [
  | inl unused ↦ first_used-Advances n (i + 1) k d inode (rw unused at first) (rw unused at a)
  | inr used ↦
      let here : some i ≡ some k = rw used at first in
      let e : i ≡ k = ground arith in
      subst (λ j. Advances d (chain rounds d (inode.i_block j) 0)) e
        (Advances-append d (chain rounds d (inode.i_block i) 0) (listing n (i + 1) d inode)
          (rw used at a)).0
]

-- The disk after update_parent_inode_block.
abbrev released : Disk → ℕ → Inode → ℕ → Disk
released d parent inode index =
    if used_among d (chain rounds d (inode.i_block index) 0) == 1
    then set_inode parent (drop_block index inode) (update_bits b'b' (inode.i_block index) 0 d)
    else d

update_parent-released :
    (d : Disk) (p : Place) (path : List ℕ) (parent index : ℕ) (inode : Inode)
    → find_parent_inode d path ≡ some parent
    → get_inode d parent ≡ some inode
    → Advances d (entries_of d inode)
    → first_used total_block_count 0 inode.i_block ≡ some index
    → update_parent d p path ≡ some (parent, released d parent inode index)
unfolding update_parent_inode_block
update_parent-released d p path parent index inode found is a first =
    let located = locate_dir_entry_in_block-first d inode (entry_at d p) a ∙ ap some first in
    let counted =
      count_used-among rounds d (inode.i_block index) 0 (omega (arith, rounds-many))
        (omega (arith, rounds-many))
        (first_used-Advances total_block_count 0 index d inode first a) in
    elim (Bool-cases (used_among d (chain rounds d (inode.i_block index) 0) == 1)) [
      | inl alone ↦
          rw (update_parent, found, is, located, update_parent_inode_block, is, counted, alone) refl
      | inr others ↦
          rw (update_parent, found, is, located, update_parent_inode_block, is, counted, others)
            refl
    ]

released-inodes :
    (d : Disk) (parent index : ℕ) (inode : Inode)
    → (released d parent inode index).image.inodes ≡ d.image.inodes
unfolding update_bitmap
released-inodes d parent index inode = ground arith

released-entries :
    (d : Disk) (parent index : ℕ) (inode : Inode)
    → (released d parent inode index).entries ≡ d.entries
released-entries d parent index inode = ground arith

last_link : (links : ℕ) → links < 2 ^ 16 → ((links + 2 ^ 16 - 1) % 2 ^ 16 == 0) ≡ (links == 1)
last_link links small = ground arith

-- unlink_inode keeps the entries, and clears the inode's bit with its last link.
unlink_inode-bits :
    (now number : ℕ) (inode : Inode) (d : Disk) (i : ℕ)
    → 0 < number
    → inode.i_links_count < 2 ^ 16
    → inode.i_block 14 ≡ 0
    → (bit_at (unlink_inode now number inode d).image.inodes i ≡ (
        if (inode.i_links_count == 1) && (i + 1 == number) then false else bit_at d.image.inodes i))
      × ((unlink_inode now number inode d).entries ≡ d.entries)
unlink_inode-bits now number inode d i above small no_triple =
    let same = last_link inode.i_links_count small in
    elim (Bool-cases (inode.i_links_count == 1)) [
      | inr more ↦ rw (unlink_inode, same, more) (refl, refl)
      | inl last ↦
          let left : Inode = record inode {
            i_links_count = (inode.i_links_count + 2 ^ 16 - 1) % 2 ^ 16;
          } in
          let (bit, (inode_bits, inodes, entries, pointers, rest)) =
            free_all_blocks_of_inode-frees left d i no_triple in
          let one =
            update_bitmap-bit b'i' number 0 (free_all_blocks_of_inode left d).image i above in
          rw (unlink_inode, same, last)
            (one.0 ∙ ap (λ b. if i + 1 == number then false else bit_at b i) inode_bits, entries)
    ]

positive : (d : Disk) (number : ℕ) (inode : Inode) → get_inode d number ≡ some inode → 0 < number
positive d number inode is = ground arith

invalidate-others :
    (d : Disk) (p : Place) (block offset : ℕ)
    → (block ≢ p.block) ⊎ (offset ≢ p.offset)
    → (invalidate p d).entries block offset ≡ d.entries block offset
invalidate-others d p block offset other = ground arith

-- For a file whose inode has no triple indirect blocks, with a parent directory that is found and
-- has a block, and of which no entry has the length 0, once the inode is unlinked: remove_file ends, its entry is unused, every other entry is
-- as it was, and of the inodes' bitmap only the file's bit changes, which is cleared if the entry was
-- the inode's last link.
pub remove_file-removes :
    (now : ℕ) (d : Disk) (p : Place) (path : List ℕ) (inode parent_inode : Inode) (parent index : ℕ)
    → get_inode d (entry_at d p).inode ≡ some inode
    → inode.i_links_count < 2 ^ 16
    → inode.i_block 14 ≡ 0
    → find_parent_inode (unlink_inode now (entry_at d p).inode inode d) path ≡ some parent
    → get_inode (unlink_inode now (entry_at d p).inode inode d) parent ≡ some parent_inode
    → Advances
        (unlink_inode now (entry_at d p).inode inode d)
        (entries_of (unlink_inode now (entry_at d p).inode inode d) parent_inode)
    → first_used total_block_count 0 parent_inode.i_block ≡ some index
    → (e : Disk) × (remove_file now d p path ≡ some e)
      × ((entry_at e p).inode ≡ 0)
      × ((block offset : ℕ)
          → (block ≢ p.block) ⊎ (offset ≢ p.offset)
          → e.entries block offset ≡ d.entries block offset)
      × ((i : ℕ)
          → bit_at e.image.inodes i ≡ (
              if (inode.i_links_count == 1) && (i + 1 == (entry_at d p).inode)
              then false
              else bit_at d.image.inodes i))
unfolding remove_file
remove_file-removes now d p path inode parent_inode parent index is small no_triple found parent_is
      a first =
    let number : ℕ = (entry_at d p).inode in
    let d1 : Disk = unlink_inode now number inode d in
    let above : 0 < number = positive d number inode is in
    let kept : d1.entries ≡ d.entries =
      (unlink_inode-bits now number inode d 0 above small no_triple).1 in
    let d2 : Disk = released d1 parent parent_inode index in
    let updated =
      update_parent-released d1 p path parent index parent_inode found parent_is a first in
    let whole : d2.entries ≡ d.entries = released-entries d1 parent index parent_inode ∙ kept in
    (
      invalidate p d2,
      rw (remove_file, is, updated) refl,
      ground arith,
      λ block offset other.
          invalidate-others d2 p block offset other ∙ ap (λ f. f block offset) whole,
      λ i.
          ap (λ b. bit_at b i) (released-inodes d1 parent index parent_inode)
          ∙ (unlink_inode-bits now number inode d i above small no_triple).0,
    )
