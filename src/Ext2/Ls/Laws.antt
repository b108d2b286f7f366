-- ===== src/Ext2/Ls/Laws.antt =====
-- What ext2_ls.c prints.
use kernel_programming_proje.Base.{
  ℕ, zero, suc, ◌+◌, ◌<◌, ◌≡◌, refl, ap, ◌∙◌, Bool, true, false, not, ◌&&◌, ◌||◌, List, [], ◌∷◌,
  ◌++◌, some, length, ltb, ◌==◌, if◌then◌else◌, arith, inl, inr, Bool-cases, ltb→lt,
}
use kernel_programming_proje.Ext2.Disk.{
  total_block_count, ft_dir, rounds, rounds-many, Inode, DirEntry, Place, Disk, entry_at, get_inode,
}
use kernel_programming_proje.Ext2.Names.{str_eq, print_name, check_if_external_entry}
use kernel_programming_proje.Ext2.Lookup.{find_dir_entry}
use kernel_programming_proje.Ext2.Lookup.Entries.{
  chain, listing, entries_of, Advances, Advances-append,
}
use kernel_programming_proje.Ext2.Tools.{success, options}
use kernel_programming_proje.Ext2.Ls.{shown, list_block, list_blocks, list_directory, ext2_ls}

-- An entry in use is listed with the flag, and without it unless its name is "." or "..".
abbrev pub listed : Bool → DirEntry → Bool
listed flag e =
    not (e.inode == 0)
    && (flag || not (str_eq (print_name e) (b'.' ∷ []) || str_eq (print_name e) (b'.' ∷ b'.' ∷ [])))

choices :
    (flag a b : Bool)
    → (if flag then true else (if a then false else (if b then false else true)))
      ≡ (flag || not (a || b))
choices true a b = refl
choices false true b = refl
choices false false true = refl
choices false false false = refl

shown-listed : (flag : Bool) (e : DirEntry) → shown flag e ≡ listed flag e
unfolding check_if_external_entry
shown-listed flag e =
    ap (λ t. not (e.inode == 0) && t)
      (choices flag (str_eq (print_name e) (b'.' ∷ [])) (str_eq (print_name e) (b'.' ∷ b'.' ∷ [])))

-- The names of the entries that are listed, in order.
abbrev pub names : Bool → Disk → List Place → List (List ℕ)
names flag d [] = []
names flag d (p ∷ ps) =
    let rest = names flag d ps in
    if listed flag (entry_at d p) then print_name (entry_at d p) ∷ rest else rest

names-append :
    (flag : Bool) (d : Disk) (xs ys : List Place)
    → names flag d (xs ++ ys) ≡ names flag d xs ++ names flag d ys
names-append flag d [] ys = refl
names-append flag d (x ∷ xs) ys = elim (Bool-cases (listed flag (entry_at d x))) [
  | inl y ↦ rw y (ap (λ t. print_name (entry_at d x) ∷ t) (names-append flag d xs ys))
  | inr y ↦ rw y (names-append flag d xs ys)
]

list_block-names :
    (n : ℕ) (flag : Bool) (d : Disk) (block position : ℕ)
    → 0 < n
    → 1024 < n + position
    → Advances d (chain n d block position)
    → list_block n flag d block position ≡ some (names flag d (chain n d block position))
unfolding list_block
list_block-names zero flag d block position more enough a = absurd (omega arith)
list_block-names (suc n) flag d block position more enough a =
    elim (Bool-cases (ltb position 1024)) [
      | inr past ↦ rw (past, list_block) refl
      | inl inside ↦
          let (long, rest) : (0 < (d.entries block position).rec_len)
              × Advances d (chain n d block (position + (d.entries block position).rec_len)) =
            rw inside at a in
          let lt : position < 1024 = ltb→lt position 1024 inside in
          rw
            (
              list_block,
              inside,
              list_block-names n flag d block (position + (d.entries block position).rec_len)
                  (omega arith) (omega arith) rest,
            )
            (ap
              (λ t. some (
                if t
                then print_name (d.entries block position)
                  ∷ names flag d (chain n d block (position + (d.entries block position).rec_len))
                else names flag d
                    (chain n d block (position + (d.entries block position).rec_len))))
              (shown-listed flag (d.entries block position)))
    ]

list_blocks-names :
    (n i : ℕ) (flag : Bool) (d : Disk) (inode : Inode)
    → Advances d (listing n i d inode)
    → list_blocks n i flag d inode ≡ some (names flag d (listing n i d inode))
unfolding list_blocks
list_blocks-names zero i flag d inode a = refl
list_blocks-names (suc n) i flag d inode a = elim (Bool-cases (inode.i_block i == 0)) [
  | inl unused ↦
      rw (unused, list_blocks) (list_blocks-names n (i + 1) flag d inode (rw unused at a))
  | inr used ↦
      let (here, rest) =
        Advances-append d (chain rounds d (inode.i_block i) 0) (listing n (i + 1) d inode)
          (rw used at a) in
      let one =
        list_block-names rounds flag d (inode.i_block i) 0 (omega (arith, rounds-many))
          (omega (arith, rounds-many)) here in
      let both =
        names-append flag d (chain rounds d (inode.i_block i) 0) (listing n (i + 1) d inode) in
      rw (used, list_blocks, one, list_blocks-names n (i + 1) flag d inode rest, both) refl
]

list_directory-names :
    (flag : Bool) (d : Disk) (inode : Inode)
    → Advances d (entries_of d inode)
    → list_directory flag d inode ≡ some (success, names flag d (entries_of d inode))
list_directory-names flag d inode a =
    rw (list_directory, list_blocks-names total_block_count 0 flag d inode a) refl

-- For a path that is not "/" and leads to a directory of which no entry has the length 0: ext2_ls
-- ends with the status 0 and prints the names of the directory's entries in use, in order, those of
-- "." and ".." only with the flag.
pub ext2_ls-names :
    (argv : List (List ℕ)) (flag : Bool) (c : ℕ) (path : List ℕ) (d : Disk) (p : Place)
    (inode : Inode)
    → options b'a' argv ≡ some (flag, b'/' ∷ c ∷ path)
    → find_dir_entry d (b'/' ∷ c ∷ path) ≡ some (some p)
    → (entry_at d p).file_type ≡ ft_dir
    → get_inode d (entry_at d p).inode ≡ some inode
    → Advances d (entries_of d inode)
    → ext2_ls argv (some d) ≡ some (success, names flag d (entries_of d inode))
unfolding ext2_ls
ext2_ls-names argv flag c path d p inode usage found is_dir is a =
    let long : (suc (suc (length path)) == 1) ≡ false = ground arith in
    let directory : ((entry_at d p).file_type == ft_dir) ≡ true =
      ap (λ t. t == ft_dir) is_dir ∙ refl in
    rw (ext2_ls, usage, long, found, directory, is) (list_directory-names flag d inode a)
