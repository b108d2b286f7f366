-- ===== src/Ext2/Rm/Depth.antt =====
-- How deep the calls of remove_directory_or_file_or_link go in each other, ext2_rm.c.
use kernel_programming_proje.Base.{
  ℕ, zero, suc, ◌+◌, ◌≤◌, ◌<◌, ◌≡◌, refl, not, ◌&&◌, ◌||◌, List, ◌∷◌, ◌++◌, Option, none, some,
  length, length-append, ltb, ◌==◌, arith, inl, inr, Bool-cases, Option-cases, if◌then◌else◌,
}
use kernel_programming_proje.Ext2.Disk.{
  block_size, total_block_count, ft_reg_file, ft_symlink, rounds, DirEntry, Place, Disk, entry_at,
  get_inode,
}
use kernel_programming_proje.Ext2.Names.{string_from, check_if_external_entry}
use kernel_programming_proje.Ext2.Blocks.{path_max}
use kernel_programming_proje.Ext2.Rm.Tree.{
  entry_path, remove_in_block, remove_in_blocks, remove_directory_or_file_or_link,
}

-- The type of the function that is called for an entry.
abbrev Removal : Type 0
Removal = Disk → Place → List ℕ → Option Disk

-- Two functions that do the same for what stands in the directory `path`.
abbrev Agreeing : List ℕ → Removal → Removal → Type 0
Agreeing path r r' =
    (dir : DirEntry) (inner : List ℕ)
    → entry_path path dir ≡ some inner
    → (d : Disk) (p : Place) → r d p inner ≡ r' d p inner

joined-length :
    (path name inner : List ℕ)
    → (if ltb (length path + 1 + length name) path_max then some (path ++ b'/' ∷ name) else none)
      ≡ some inner
    → (length path < length inner) × (length inner < path_max)
joined-length path name inner e = ground (arith, e, length-append path (b'/' ∷ name))

entry_path-length :
    (path : List ℕ) (dir : DirEntry) (inner : List ℕ)
    → entry_path path dir ≡ some inner
    → (length path < length inner) × (length inner < path_max)
entry_path-length path dir inner e = joined-length path (string_from path_max 0 dir.name) inner e

rest-agree :
    (o : Option Disk) (f g : Disk → Option Disk)
    → ((d : Disk) → f d ≡ g d)
    → (elim o [ none ↦ none | some d ↦ f d ]) ≡ (elim o [ none ↦ none | some d ↦ g d ])
rest-agree none f g h = refl
rest-agree (some d) f g h = h d

module _ (path : List ℕ) (r r' : Removal) (same : Agreeing path r r') where
  remove_in_block-agree :
      (n : ℕ) (d : Disk) (block position : ℕ)
      → remove_in_block n r d block path position ≡ remove_in_block n r' d block path position
  unfolding remove_in_block
  remove_in_block-agree zero d block position = refl
  remove_in_block-agree (suc n) d block position =
      let dir : DirEntry = d.entries block position in
      elim (Bool-cases (ltb position block_size)) [
        | inr over ↦ rw (remove_in_block, over) refl
        | inl inside ↦ elim (Bool-cases (not (dir.inode == 0) && check_if_external_entry dir)) [
          | inr skip ↦
              rw (remove_in_block, inside, skip)
                (remove_in_block-agree n d block (position + dir.rec_len))
          | inl take ↦ elim (Option-cases (entry_path path dir)) [
            | inl long ↦ rw (remove_in_block, inside, take, long) refl
            | inr (inner, e) ↦
                rw
                  (
                    remove_in_block,
                    inside,
                    take,
                    e,
                    same dir inner e d (record { block = block; offset = position }),
                  )
                  (rest-agree (r' d (record { block = block; offset = position }) inner) _ _ λ d'.
                    remove_in_block-agree n d' block
                      (position + (d'.entries block position).rec_len))
          ]
        ]
      ]

  remove_in_blocks-agree :
      (n i : ℕ) (d : Disk) (number : ℕ)
      → remove_in_blocks n i r d number path ≡ remove_in_blocks n i r' d number path
  unfolding remove_in_blocks
  remove_in_blocks-agree zero i d number = refl
  remove_in_blocks-agree (suc n) i d number = elim (Option-cases (get_inode d number)) [
    | inl outside ↦ rw (remove_in_blocks, outside) refl
    | inr (inode, e) ↦ elim (Bool-cases (inode.i_block i == 0)) [
      | inl hole ↦ rw (remove_in_blocks, e, hole) (remove_in_blocks-agree n (i + 1) d number)
      | inr block ↦
          rw (remove_in_blocks, e, block, remove_in_block-agree rounds d (inode.i_block i) 0)
            (rest-agree (remove_in_block rounds r' d (inode.i_block i) path 0) _ _
              λ d'. remove_in_blocks-agree n (i + 1) d' number)
    ]
  ]

remove-agree :
    (m n now : ℕ) (d : Disk) (p : Place) (path : List ℕ)
    → Agreeing path
        (λ e p q. remove_directory_or_file_or_link m now e p q)
        (λ e p q. remove_directory_or_file_or_link n now e p q)
    → remove_directory_or_file_or_link (suc m) now d p path
      ≡ remove_directory_or_file_or_link (suc n) now d p path
unfolding remove_directory_or_file_or_link
remove-agree m n now d p path same =
    elim (Bool-cases
      (((entry_at d p).file_type == ft_reg_file) || ((entry_at d p).file_type == ft_symlink))) [
        | inl file ↦ rw (remove_directory_or_file_or_link, file) refl
        | inr directory ↦ elim (Option-cases (get_inode d (entry_at d p).inode)) [
          | inl outside ↦ rw (remove_directory_or_file_or_link, directory, outside) refl
          | inr (inode, e) ↦
              rw
                (
                  remove_directory_or_file_or_link,
                  directory,
                  e,
                  remove_in_blocks-agree path
                      (λ e p q. remove_directory_or_file_or_link m now e p q)
                      (λ e p q. remove_directory_or_file_or_link n now e p q) same total_block_count
                      0 _ _,
                )
                refl
        ]
      ]

-- A path that is `n` bytes shorter than PATH_MAX at most can grow `n` times.
pub remove-calls :
    (n m now : ℕ) (d : Disk) (p : Place) (path : List ℕ)
    → n ≤ m
    → path_max ≤ n + length path
    → remove_directory_or_file_or_link (suc m) now d p path
      ≡ remove_directory_or_file_or_link (suc n) now d p path
remove-calls zero m now d p path le deep =
    remove-agree m zero now d p path
      λ dir inner e d p. absurd (omega (arith, deep, entry_path-length path dir inner e))
remove-calls (suc n) zero now d p path le deep = absurd (omega (arith, le))
remove-calls (suc n) (suc m) now d p path le deep =
    remove-agree (suc m) (suc n) now d p path λ dir inner e d p.
      remove-calls n m now d p inner (omega (arith, le))
        (omega (arith, deep, entry_path-length path dir inner e))

-- The bound on the calls of remove_directory_or_file_or_link inside each other decides nothing: on
-- every image, also one whose directories make a loop, and for every entry and path, any number of
-- calls from 1025 on has the same result as 1025, be it an image or none.
pub remove-bound :
    (n now : ℕ) (d : Disk) (p : Place) (path : List ℕ)
    → rounds ≤ n
    → remove_directory_or_file_or_link n now d p path
      ≡ remove_directory_or_file_or_link rounds now d p path
unfolding rounds
remove-bound zero now d p path enough = absurd (omega (arith, enough))
remove-bound (suc n) now d p path enough =
    remove-calls path_max n now d p path (omega (arith, enough)) (omega arith)
