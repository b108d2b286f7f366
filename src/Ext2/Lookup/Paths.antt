-- ===== src/Ext2/Lookup/Paths.antt =====
-- The components of a path, and what find_dir_entry of ext2general.c makes of them.
use kernel_programming_proje.Base.{
  ℕ, zero, suc, ◌+◌, ◌≤◌, ◌<◌, ◌≡◌, refl, ap, List, [], ◌∷◌, Option, none, some, length, ◌==◌,
  if◌then◌else◌, arith, ◌⊎◌, inl, inr, Bool-cases,
}
use kernel_programming_proje.Ext2.Disk.{Place, Disk, Inode, entry_at, get_inode, get_root_inode}
use kernel_programming_proje.Ext2.Names.{token, behind_token, strtok_r}
use kernel_programming_proje.Ext2.Lookup.{locate_file_by_name, walk_path, find_dir_entry}

abbrev extend : ℕ → List (List ℕ) → List (List ℕ)
extend c [] = (c ∷ []) ∷ []
extend c (w ∷ ws) = (c ∷ w) ∷ ws

-- A string cut at each slash.
abbrev pub parts : List ℕ → List (List ℕ)
parts [] = [] ∷ []
parts (c ∷ s) = let rest = parts s in if c == b'/' then [] ∷ rest else extend c rest

-- The parts that are not empty.
abbrev pub filled : List (List ℕ) → List (List ℕ)
filled [] = []
filled ([] ∷ ws) = filled ws
filled ((c ∷ w) ∷ ws) = (c ∷ w) ∷ filled ws

abbrev pub components : List ℕ → List (List ℕ)
components path = filled (parts path)

-- One lookup for each of the names, each in the directory that the one before found.
abbrev pub follow : Disk → Place → List (List ℕ) → Option (Option Place)
follow d p [] = some (some p)
follow d p (w ∷ ws) = elim (get_inode d (entry_at d p).inode) [
  | none ↦ none
  | some inode ↦ elim (locate_file_by_name d inode w) [
    | none ↦ none
    | some none ↦ some none
    | some (some q) ↦ follow d q ws
  ]
]

-- A walk from the root directory; with no name there is no entry.
abbrev pub from_root : Disk → List (List ℕ) → Option (Option Place)
from_root d [] = none
from_root d (w ∷ ws) = elim (locate_file_by_name d (get_root_inode d) w) [
  | none ↦ none
  | some none ↦ some none
  | some (some p) ↦ follow d p ws
]

split-token :
    (s : List ℕ)
    → (ws : List (List ℕ)) × (parts s ≡ token s ∷ ws)
      × (filled ws ≡ filled (parts (behind_token s)))
      × (length (behind_token s) ≤ length s)
split-token [] = ([], refl, refl, omega arith)
split-token (c ∷ s) = elim (Bool-cases (c == b'/')) [
  | inl slash ↦ (parts s, rw slash refl, rw slash refl, rw slash (omega arith))
  | inr other ↦
      let (ws, e, f, le) = split-token s in
      (ws, rw (other, e) refl, rw other f, rw other (omega arith))
]

-- A call of strtok_r takes the first component off.
strtok_r-cases :
    (s : List ℕ)
    → ((strtok_r s ≡ none) × (components s ≡ []))
      ⊎ ((w rest : List ℕ) × (strtok_r s ≡ some (w, rest))
          × (components s ≡ w ∷ components rest)
          × (length rest < length s))
strtok_r-cases [] = inl (refl, refl)
strtok_r-cases (c ∷ s) = elim (Bool-cases (c == b'/')) [
  | inl slash ↦ elim (strtok_r-cases s) [
    | inl (e, f) ↦ inl (rw (slash, strtok_r) e, rw slash f)
    | inr (w, rest, e, f, lt) ↦ inr (w, rest, rw (slash, strtok_r) e, rw slash f, omega arith)
  ]
  | inr other ↦
      let (ws, e, f, le) = split-token s in
      inr (
        token (c ∷ s),
        behind_token (c ∷ s),
        ground arith,
        rw (other, e) (ap (λ t. (c ∷ token s) ∷ t) f),
        rw other (omega arith),
      )
]

-- Two ways to go on after a lookup that agree on what it finds.
after_lookup :
    (found : Option (Option Place)) (f g : Place → Option (Option Place))
    → ((p : Place) → f p ≡ g p)
    → elim found [ none ↦ none | some none ↦ some none | some (some p) ↦ f p ]
      ≡ elim found [ none ↦ none | some none ↦ some none | some (some p) ↦ g p ]
after_lookup none f g same = refl
after_lookup (some none) f g same = refl
after_lookup (some (some p)) f g same = same p

after_inode :
    (inode : Option Inode) (f g : Inode → Option (Option Place))
    → ((i : Inode) → f i ≡ g i)
    → elim inode [ none ↦ none | some i ↦ f i ] ≡ elim inode [ none ↦ none | some i ↦ g i ]
after_inode none f g same = refl
after_inode (some i) f g same = same i

walk_path-follow :
    (n : ℕ) (d : Disk) (p : Place) (path : List ℕ)
    → length path < n
    → walk_path n d p path ≡ follow d p (components path)
unfolding walk_path
walk_path-follow zero d p path enough = absurd (omega arith)
walk_path-follow (suc n) d p path enough = elim (strtok_r-cases path) [
  | inl (e, f) ↦ rw (walk_path, e, f) refl
  | inr (w, rest, e, f, lt) ↦
      rw (walk_path, e, f)
        (after_inode (get_inode d (entry_at d p).inode)
          (λ i. elim (locate_file_by_name d i w) [
            | none ↦ none
            | some none ↦ some none
            | some (some q) ↦ walk_path n d q rest
          ])
          (λ i. elim (locate_file_by_name d i w) [
            | none ↦ none
            | some none ↦ some none
            | some (some q) ↦ follow d q (components rest)
          ])
          (λ i.
            after_lookup (locate_file_by_name d i w) (λ q. walk_path n d q rest)
              (λ q. follow d q (components rest)) (λ q. walk_path-follow n d q rest (omega arith))))
]

-- find_dir_entry of a path looks up the components of what follows its first byte, the strings
-- between slashes that are not empty: the first in the root directory and each other one in the
-- directory that was found before it.
pub find_dir_entry-from_root :
    (d : Disk) (c : ℕ) (path : List ℕ) → find_dir_entry d (c ∷ path) ≡ from_root d (components path)
unfolding find_dir_entry
find_dir_entry-from_root d c path = elim (strtok_r-cases path) [
  | inl (e, f) ↦ rw (find_dir_entry, e, f) refl
  | inr (w, rest, e, f, lt) ↦
      rw (find_dir_entry, e, f)
        (after_lookup (locate_file_by_name d (get_root_inode d) w)
          (λ p. walk_path (length rest + 1) d p rest) (λ p. follow d p (components rest))
          (λ p. walk_path-follow (length rest + 1) d p rest (omega arith)))
]
