-- ===== src/Memory/Pagetable/Print.antt =====
-- print_pagetbl and print_pagedirectory of pagetable.c, lines 212 to 273: the lines that are printed.
use kernel_programming_proje.Base.{
  ℕ, zero, suc, ◌+◌, ◌*◌, ◌≤◌, ◌≡◌, Bool, true, false, ◌&&◌, ◌||◌, List, [], ◌∷◌, Option, none,
  some, ℤ, leb, ◌==◌, if◌then◌else◌,
}
use kernel_programming_proje.Memory.State.{
  Pte, pg_valid, pg_dirty, pg_onswap, has_flag, frame_number,
}

-- A line for a run of entries that are invalid, or for one entry.
pub data Line : Type 0 where
  invalid : ℕ → ℕ → Line
  in_frame : ℕ → Bool → ℕ → Line
  onswap : ℕ → ℤ → Line

abbrev pub is_used : Pte → Bool
is_used e = has_flag pg_valid e || has_flag pg_onswap e

-- The line of entry `i`, which is used; the assertion on PG_ONSWAP holds then.
abbrev pub entry_line : ℕ → Pte → Line
entry_line i e =
    if has_flag pg_valid e
    then in_frame i (has_flag pg_dirty e) (frame_number e)
    else onswap i e.swap_off

-- The line of the run that first_invalid and last_invalid bound, if there is one: -1 is `none`.
abbrev pub flush : Option (ℕ × ℕ) → List Line → List Line
flush none lines = lines
flush (some (first, last)) lines = invalid first last ∷ lines

-- The run with entry `i` at its end.
abbrev pub extend : ℕ → Option (ℕ × ℕ) → Option (ℕ × ℕ)
extend i none = some (i, i)
extend i (some (first, last)) = some (first, i)

-- The loop over the `n` entries from `i` on.
unfoldable pub print_entries : ℕ → ℕ → (ℕ → Pte) → Option (ℕ × ℕ) → List Line
print_entries zero i pgtbl run = flush run []
print_entries (suc n) i pgtbl run = elim (is_used (pgtbl i)) [
  | false ↦ print_entries n (i + 1) pgtbl (extend i run)
  | true ↦ flush run (entry_line i (pgtbl i) ∷ print_entries n (i + 1) pgtbl none)
]

-- PTRS_PER_PGDIR and PTRS_PER_PGTBL.
unfoldable pub ptrs_per_table : ℕ
ptrs_per_table = 4096

unfoldable pub print_pagetbl : (ℕ → Pte) → List Line
unfolding print_entries
print_pagetbl pgtbl = print_entries ptrs_per_table 0 pgtbl none

-- A line for a run of invalid entries of the page directory, or an entry with the lines of its table.
pub data DirectoryLine : Type 0 where
  no_tables : ℕ → ℕ → DirectoryLine
  table : ℕ → List Line → DirectoryLine

abbrev pub flush_directory : Option (ℕ × ℕ) → List DirectoryLine → List DirectoryLine
flush_directory none lines = lines
flush_directory (some (first, last)) lines = no_tables first last ∷ lines

-- The loop of print_pagedirectory, which prints no line for the run at its end.
unfoldable pub print_directory :
    ℕ → ℕ → (ℕ → Bool) → (ℕ → Pte) → Option (ℕ × ℕ) → List DirectoryLine
unfolding print_pagetbl
print_directory zero i pgdir ptes run = []
print_directory (suc n) i pgdir ptes run = elim (pgdir i) [
  | false ↦ print_directory n (i + 1) pgdir ptes (extend i run)
  | true ↦
      flush_directory run (
        table i (print_pagetbl λ j. ptes (4096 * i + j))
        ∷ print_directory n (i + 1) pgdir ptes none)
]

unfoldable pub print_pagedirectory : (ℕ → Bool) → (ℕ → Pte) → List DirectoryLine
unfolding print_directory
print_pagedirectory pgdir ptes = print_directory ptrs_per_table 0 pgdir ptes none

-- What a reader of the lines learns of an entry: nothing, that it is invalid, or its line.
pub data Told : Type 0 where
  nothing : Told
  unused : Told
  used : Line → Told

abbrev about : Line → ℕ → Told
about (invalid first last) j = if leb first j && leb j last then unused else nothing
about (in_frame i dirty f) j = if i == j then used (in_frame i dirty f) else nothing
about (onswap i offset) j = if i == j then used (onswap i offset) else nothing

abbrev first_of : Told → Told → Told
first_of nothing t = t
first_of unused t = unused
first_of (used l) t = used l

abbrev pub told : List Line → ℕ → Told
told [] j = nothing
told (l ∷ lines) j = first_of (about l j) (told lines j)

-- What is so: a valid entry is in a frame, with the bit of PG_DIRTY, an entry that is not valid may be
-- on the swap file, and any other is invalid.
abbrev pub status : (ℕ → Pte) → ℕ → Told
status pgtbl j =
    if has_flag pg_valid (pgtbl j)
    then used (in_frame j (has_flag pg_dirty (pgtbl j)) (frame_number (pgtbl j)))
    else if has_flag pg_onswap (pgtbl j)
    then used (onswap j (pgtbl j).swap_off)
    else unused

-- A run ends right before entry `i`.
abbrev EndsAt : ℕ → Option (ℕ × ℕ) → Type 0
EndsAt i none = Unit {0}
EndsAt i (some (first, last)) = (first ≤ last) × (last + 1 ≡ i)
