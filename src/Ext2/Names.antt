-- ===== src/Ext2/Names.antt =====
-- Names and paths, as lists of bytes without the NUL at their end: ext2general.c, lines 133 to 149,
-- 168 to 184 and 296 to 300, and the part of the C library that walks a path.
pub mod Laws
pub use kernel_programming_proje.Base.{str_eq}
use kernel_programming_proje.Base.{
  ℕ, zero, suc, ◌+◌, ◌-◌, ◌%◌, ◌^◌, Bool, true, false, not, ◌&&◌, ◌||◌, List, [], ◌∷◌, Option, none,
  some, length, ◌==◌, if◌then◌else◌,
}
use kernel_programming_proje.Ext2.Disk.{DirEntry}

-- The bytes from `i` on, `n` of them at most, up to the first NUL.
abbrev pub string_from : ℕ → ℕ → (ℕ → ℕ) → List ℕ
string_from zero i f = []
string_from (suc n) i f = let rest = string_from n (i + 1) f in if f i == 0 then [] else f i ∷ rest

-- The copy print_name of an entry's name, as a string.
abbrev pub print_name : DirEntry → List ℕ
print_name e = string_from e.name_len 0 e.name

-- 1 for an entry that is not "." or "..".
unfoldable pub check_if_external_entry : DirEntry → Bool
check_if_external_entry e =
    if str_eq (print_name e) (b'.' ∷ [])
    then false
    else if str_eq (print_name e) (b'.' ∷ b'.' ∷ [])
    then false
    else true

-- strtok_r with the delimiter '/': the next token and what is left.
abbrev pub skip_slashes : List ℕ → List ℕ
skip_slashes [] = []
skip_slashes (c ∷ s) = if c == b'/' then skip_slashes s else c ∷ s

abbrev pub token : List ℕ → List ℕ
token [] = []
token (c ∷ s) = if c == b'/' then [] else c ∷ token s

abbrev pub behind_token : List ℕ → List ℕ
behind_token [] = []
behind_token (c ∷ s) = if c == b'/' then s else behind_token s

abbrev pub strtok_r : List ℕ → Option (List ℕ × List ℕ)
strtok_r s = elim (skip_slashes s) [
  | [] ↦ none
  | c ∷ t ↦ some (token (c ∷ t), behind_token (c ∷ t))
]

abbrev pub byte_at : List ℕ → ℕ → ℕ
byte_at [] i = 0
byte_at (c ∷ s) zero = c
byte_at (c ∷ s) (suc i) = byte_at s i

abbrev pub take : ℕ → List ℕ → List ℕ
take zero s = []
take (suc n) [] = []
take (suc n) (c ∷ s) = c ∷ take n s

abbrev pub drop : ℕ → List ℕ → List ℕ
drop zero s = s
drop (suc n) [] = []
drop (suc n) (c ∷ s) = drop n s

-- `for (i = n - 1; i >= 0; i--) if (path[i] == '/') break;`, with -1 as an `unsigned`.
unfoldable pub slash_below : ℕ → List ℕ → ℕ
slash_below zero path = 2 ^ 32 - 1
slash_below (suc i) path =
    let rest = slash_below i path in if byte_at path i == b'/' then i else rest

-- `none` for the empty path, whose last byte is outside.
unfoldable pub last_slash_in_path : List ℕ → Option ℕ
unfolding slash_below
last_slash_in_path [] = none
last_slash_in_path (c ∷ s) =
    if byte_at (c ∷ s) (length s) == b'/'
    then some (slash_below (length s) (c ∷ s))
    else some (slash_below (length s + 1) (c ∷ s))

unfoldable pub find_file_name_by_path : List ℕ → Option (List ℕ)
unfolding last_slash_in_path
find_file_name_by_path path = elim (last_slash_in_path path) [
  | none ↦ none
  | some i ↦ some (drop ((i + 1) % 2 ^ 32) path)
]
