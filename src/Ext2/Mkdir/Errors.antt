-- ===== src/Ext2/Mkdir/Errors.antt =====
-- What ext2_mkdir.c leaves of the inodes' bitmap.
use kernel_programming_proje.Base.{
  ℕ, ◌+◌, ◌-◌, ◌<◌, ◌≡◌, refl, sym, subst, ◌∙◌, Bool, true, false, ◌&&◌, List, [], ◌∷◌, Option,
  none, some, length, ◌==◌, if◌then◌else◌, ltb, arith, inl, inr, Bool-cases, Option-cases,
}
use kernel_programming_proje.Ext2.Bitmaps.{bit_at, find_free_inode, find_free_block, to_index}
use kernel_programming_proje.Ext2.Bitmaps.Laws.{update_bitmap-bit, find_free_inode-least}
use kernel_programming_proje.Ext2.Disk.{block_size, Disk, set_inode, update_bits}
use kernel_programming_proje.Ext2.Names.{byte_at, find_file_name_by_path}
use kernel_programming_proje.Ext2.Lookup.{find_dir_entry, find_parent_inode}
use kernel_programming_proje.Ext2.Tools.{Exit, success, failure}
use kernel_programming_proje.Ext2.Mkdir.{new_directory, fill_directory, make_directory, ext2_mkdir}
use kernel_programming_proje.Ext2.Mkdir.Made.{Marked, MarkedIn, fill_directory-Marked}

abbrev pub is_success : Exit → Bool
is_success success = true
is_success (failure code) = false

-- The bits of the inodes after an answer: those before, and the new inode's with the status 0.
abbrev Counted : Disk → Option (Exit × Option Disk) → Type 0
Counted d none = Unit {0}
Counted d (some (exit, none)) = Unit {0}
Counted d (some (exit, some e)) =
    (i : ℕ)
    → bit_at e.image.inodes i ≡ (
        if is_success exit && (i + 1 == find_free_inode d.image)
        then true
        else bit_at d.image.inodes i)

-- The inode that find_free_inode answers is not marked.
free_inode-clear :
    (d : Disk) (i : ℕ) → i + 1 ≡ find_free_inode d.image → bit_at d.image.inodes i ≡ false
free_inode-clear d i e = elim (find_free_inode-least d.image) [
  | inl (zero_answer, all) ↦ absurd (omega arith)
  | inr (f, answer, a, lt, clear, all) ↦
      let same : f ≡ i = omega arith in subst (λ j. bit_at d.image.inodes j ≡ false) same clear
]

restored :
    (d e : Disk)
    → ((i : ℕ)
        → bit_at e.image.inodes i
          ≡ (if i + 1 == find_free_inode d.image then false else bit_at d.image.inodes i))
    → (i : ℕ) → bit_at e.image.inodes i ≡ bit_at d.image.inodes i
restored d e bits i = elim (Bool-cases (i + 1 == find_free_inode d.image)) [
  | inl here ↦ bits i ∙ rw here (sym (free_inode-clear d i (ground arith)))
  | inr away ↦ bits i ∙ rw away refl
]

Marked-Counted :
    (d : Disk) (r : Option (Exit × Option Disk))
    → Marked d (find_free_inode d.image) r
    → Counted d r
Marked-Counted d none m = tt
Marked-Counted d (some (success, none)) m = tt
Marked-Counted d (some (failure code, none)) m = tt
Marked-Counted d (some (success, some e)) m = m
Marked-Counted d (some (failure code, some e)) m = restored d e m

make_directory-Counted :
    (now : ℕ) (d : Disk) (parent : ℕ) (name : List ℕ) → Counted d (make_directory now d parent name)
unfolding make_directory
make_directory-Counted now d parent name = elim (Bool-cases (ltb (block_size - 8) (length name))) [
  | inl long ↦ rw (make_directory, long) (λ i. refl)
  | inr short ↦ elim (Bool-cases (find_free_inode d.image == 0)) [
    | inl full ↦ rw (make_directory, short, full) (λ i. refl)
    | inr found ↦
        let number : ℕ = find_free_inode d.image in
        let above : 0 < number = ground arith in
        let used : Disk = update_bits b'i' number 1 d in
        let started : Disk =
          set_inode number (new_directory now (used.inodes (to_index number))) used in
        let marked : MarkedIn d number started =
          λ i. (update_bitmap-bit b'i' number 1 d.image i above).0 in
        elim (Bool-cases (find_free_block started.image == 0)) [
          | inl no_block ↦
              rw (make_directory, short, found, no_block)
                (restored d (update_bits b'i' number 0 started) (λ i.
                  (update_bitmap-bit b'i' number 0 started.image i above).0
                  ∙ rw (marked i) (ground arith)))
          | inr block ↦
              rw (make_directory, short, found, block)
                (Marked-Counted d
                  (fill_directory started parent number (find_free_block started.image) name)
                  (fill_directory-Marked d started parent number (find_free_block started.image)
                    name above marked))
        ]
  ]
]

ext2_mkdir-Counted :
    (now : ℕ) (argv : List (List ℕ)) (d : Disk) → Counted d (ext2_mkdir now argv (some d))
unfolding ext2_mkdir
ext2_mkdir-Counted now [] d = λ i. refl
ext2_mkdir-Counted now (a ∷ []) d = λ i. refl
ext2_mkdir-Counted now (a ∷ b ∷ []) d = λ i. refl
ext2_mkdir-Counted now (a ∷ b ∷ c ∷ x ∷ argv) d = λ i. refl
ext2_mkdir-Counted now (program ∷ disk ∷ path ∷ []) d = elim (Bool-cases (byte_at path 0 == b'/')) [
  | inr relative ↦ rw (ext2_mkdir, relative) (λ i. refl)
  | inl absolute ↦ elim (Option-cases (find_dir_entry d path)) [
    | inl fault ↦ rw (ext2_mkdir, absolute, fault) tt
    | inr (some p, taken) ↦ rw (ext2_mkdir, absolute, taken) (λ i. refl)
    | inr (none, new) ↦ elim (Option-cases (find_parent_inode d path)) [
      | inl fault ↦ rw (ext2_mkdir, absolute, new, fault) tt
      | inr (parent, found) ↦ elim (Bool-cases (parent == 0)) [
        | inl missing ↦ rw (ext2_mkdir, absolute, new, found, missing) (λ i. refl)
        | inr there ↦ elim (Option-cases (find_file_name_by_path path)) [
          | inl fault ↦ rw (ext2_mkdir, absolute, new, found, there, fault) tt
          | inr (name, named) ↦
              rw (ext2_mkdir, absolute, new, found, there, named)
                (make_directory-Counted now d parent name)
        ]
      ]
    ]
  ]
]

-- When ext2_mkdir ends, the bits of the inodes are those of before if it fails, and otherwise those
-- of before with the bit of the inode that was free first.
pub ext2_mkdir-inodes :
    (now : ℕ) (argv : List (List ℕ)) (d e : Disk) (exit : Exit) (i : ℕ)
    → ext2_mkdir now argv (some d) ≡ some (exit, some e)
    → bit_at e.image.inodes i ≡ (
        if is_success exit && (i + 1 == find_free_inode d.image)
        then true
        else bit_at d.image.inodes i)
unfolding ext2_mkdir
ext2_mkdir-inodes now argv d e exit i ends =
    subst (Counted d) ends (ext2_mkdir-Counted now argv d) i
