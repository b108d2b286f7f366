-- ===== src/Ext2/Blocks/Link.antt =====
-- What a path stands for behind its symbolic links, for read_symbolic_link of ext2general.c.
use kernel_programming_proje.Base.{
  ℕ, zero, suc, ◌+◌, ◌<◌, ◌≡◌, refl, ap, ◌∙◌, true, false, List, none, some, ◌==◌, arith, lt→ltb,
}
use kernel_programming_proje.Ext2.Disk.{s_iflnk, Inode, Place, Disk, entry_at, get_inode}
use kernel_programming_proje.Ext2.Names.{string_from}
use kernel_programming_proje.Ext2.Lookup.{find_dir_entry}
use kernel_programming_proje.Ext2.Blocks.{path_max, read_symbolic_link}

-- The text that a symbolic link holds.
abbrev pub link_text : Disk → Inode → List ℕ
link_text d inode = string_from inode.i_size 0 (d.bytes (inode.i_block 0))

-- A path stands for an inode that is no link, behind the given number of links.
pub data StandsFor (d : Disk) : ℕ → List ℕ → ℕ → Type 0 where
  target :
      (path : List ℕ) (p : Place) (inode : Inode)
      → find_dir_entry d path ≡ some (some p)
      → get_inode d (entry_at d p).inode ≡ some inode
      → (inode.i_mode == s_iflnk) ≡ false
      → StandsFor d 0 path (entry_at d p).inode
  link :
      (n : ℕ) (path : List ℕ) (p : Place) (inode : Inode) (number : ℕ)
      → find_dir_entry d path ≡ some (some p)
      → get_inode d (entry_at d p).inode ≡ some inode
      → inode.i_mode ≡ s_iflnk
      → inode.i_size < path_max
      → StandsFor d n (link_text d inode) number
      → StandsFor d (n + 1) path number

-- If a path stands for an inode behind n links, whose texts are shorter than PATH_MAX,
-- read_symbolic_link with more than n calls returns that inode.
pub read_symbolic_link-StandsFor :
    (d : Disk) (n fuel : ℕ) (path : List ℕ) (number : ℕ)
    → StandsFor d n path number
    → n < fuel
    → read_symbolic_link fuel d path ≡ some (some number)
unfolding read_symbolic_link
read_symbolic_link-StandsFor d n zero path number s enough = absurd (omega arith)
read_symbolic_link-StandsFor d n (suc fuel) path number (target t p inode found is mode) enough =
    rw (read_symbolic_link, found, is, mode) refl
read_symbolic_link-StandsFor d n (suc fuel) path number
      (link m t p inode num found is mode short on) enough =
    let linked : (inode.i_mode == s_iflnk) ≡ true = ap (λ m. m == s_iflnk) mode ∙ refl in
    rw (read_symbolic_link, found, is, linked, lt→ltb inode.i_size path_max short)
      (read_symbolic_link-StandsFor d m fuel (link_text d inode) num on (omega arith))

-- On a symbolic link whose text is its own path, read_symbolic_link returns after no number of
-- calls.
pub read_symbolic_link-loops :
    (d : Disk) (fuel : ℕ) (path : List ℕ) (p : Place) (inode : Inode)
    → find_dir_entry d path ≡ some (some p)
    → get_inode d (entry_at d p).inode ≡ some inode
    → inode.i_mode ≡ s_iflnk
    → inode.i_size < path_max
    → link_text d inode ≡ path
    → read_symbolic_link fuel d path ≡ none
unfolding read_symbolic_link
read_symbolic_link-loops d zero path p inode found is mode short itself = refl
read_symbolic_link-loops d (suc fuel) path p inode found is mode short itself =
    let linked : (inode.i_mode == s_iflnk) ≡ true = ap (λ m. m == s_iflnk) mode ∙ refl in
    rw (read_symbolic_link, found, is, linked, lt→ltb inode.i_size path_max short, itself)
      (read_symbolic_link-loops d fuel path p inode found is mode short itself)
