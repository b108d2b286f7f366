-- ===== src/Ext2/Lookup/Named.antt =====
-- What it means that a file of a directory has a name, and that it is the first one.
use kernel_programming_proje.Base.{
  ℕ, zero, suc, ◌+◌, ◌<◌, ◌≡◌, ◌≢◌, refl, ap, ◌∙◌, sym, true, false, List, [], ◌∷◌, ◌++◌, Option,
  none, some, length, has, ◌==◌, arith, inl, inr, Bool-cases, str_eq, ne→==,
}
use kernel_programming_proje.Ext2.Disk.{Inode, DirEntry, Place, Disk, entry_at}
use kernel_programming_proje.Ext2.Names.{byte_at, string_from}
use kernel_programming_proje.Ext2.Lookup.{has_name, locate_file_by_name}
use kernel_programming_proje.Ext2.Lookup.Entries.{
  entries_of, Advances, first_named, locate_file_by_name-first,
}
use kernel_programming_proje.Ext2.Allocate.Slots.{string_from-name}

-- An entry in use, whose name has the length and the bytes of `name`.
pub record Named (name : List ℕ) (e : DirEntry) : Type 0 where
  pub live : e.inode ≢ 0
  pub size : e.name_len ≡ length name
  pub bytes : (j : ℕ) → j < length name → e.name j ≡ byte_at name j

-- None of the places has an entry with the name.
abbrev pub Absent : Disk → List ℕ → List Place → Type 0
Absent d name [] = Unit {0}
Absent d name (p ∷ ps) = (¬ Named name (entry_at d p)) × Absent d name ps

-- The first place whose entry has the name, or that there is none.
abbrev pub Finds : Disk → List ℕ → List Place → Option Place → Type 0
Finds d name ps none = Absent d name ps
Finds d name ps (some p) =
    (us vs : List Place) × (ps ≡ us ++ p ∷ vs) × Absent d name us × Named name (entry_at d p)

str_eq_refl : (s : List ℕ) → str_eq s s ≡ true
str_eq_refl [] = refl
str_eq_refl (c ∷ s) = ground (arith, str_eq_refl s)

str_eq-eq : (s t : List ℕ) → str_eq s t ≡ true → s ≡ t
str_eq-eq [] [] e = refl
str_eq-eq [] (c ∷ t) e = absurd (ground arith)
str_eq-eq (b ∷ s) [] e = absurd (ground arith)
str_eq-eq (b ∷ s) (c ∷ t) e = ground (arith, str_eq-eq s t)

string_from-cons :
    (n i : ℕ) (f : ℕ → ℕ) (c : ℕ) (s : List ℕ)
    → string_from (suc n) i f ≡ c ∷ s
    → (f i ≡ c) × (string_from n (i + 1) f ≡ s)
string_from-cons n i f c s e = ground (arith, e)

string_from-bytes :
    (n i : ℕ) (f : ℕ → ℕ) (s : List ℕ)
    → string_from n i f ≡ s
    → length s ≡ n
    → (j : ℕ) → j < n
    → f (i + j) ≡ byte_at s j
string_from-bytes zero i f s e l j lt = absurd (omega arith)
string_from-bytes (suc n) i f [] e l j lt = absurd (omega arith)
string_from-bytes (suc n) i f (c ∷ s) e l zero lt =
    ap f (omega arith) ∙ (string_from-cons n i f c s e).0
string_from-bytes (suc n) i f (c ∷ s) e l (suc j) lt =
    ap f (omega arith)
    ∙ string_from-bytes n (i + 1) f s (string_from-cons n i f c s e).1 (omega (arith, l)) j
        (omega arith)

has_name-Named :
    (name : List ℕ) (e : DirEntry)
    → has 0 name ≡ false
    → ((has_name name e ≡ true) → Named name e) × (Named name e → has_name name e ≡ true)
has_name-Named name e no_nul = (
  λ h.
      let size : e.name_len ≡ length name = ground (arith, h) in
      let same : str_eq (string_from e.name_len 0 e.name) name ≡ true = ground (arith, h) in
      record {
        live = ground (arith, h);
        size = size;
        bytes = λ j lt.
            ap e.name (omega arith)
            ∙ string_from-bytes e.name_len 0 e.name name
                (str_eq-eq (string_from e.name_len 0 e.name) name same) (sym size) j
                (omega (arith, size));
      },
  λ n.
      let whole : string_from e.name_len 0 e.name ≡ name =
        ap (λ k. string_from k 0 e.name) n.size
        ∙ string_from-name name 0 e.name no_nul (λ j lt. ap e.name (omega arith) ∙ n.bytes j lt) in
      let live : (e.inode == 0) ≡ false = ne→== e.inode 0 n.live in
      let size : (e.name_len == length name) ≡ true = ground (arith, n.size) in
      rw (size, live, whole) (str_eq_refl name),
)

Finds-cons :
    (d : Disk) (name : List ℕ) (p : Place) (ps : List Place) (r : Option Place)
    → ¬ Named name (entry_at d p)
    → Finds d name ps r
    → Finds d name (p ∷ ps) r
Finds-cons d name p ps none other f = (other, f)
Finds-cons d name p ps (some q) other (us, vs, e, out, named) =
    (p ∷ us, vs, ap (λ t. p ∷ t) e, (other, out), named)

first_named-Finds :
    (d : Disk) (name : List ℕ) (ps : List Place)
    → has 0 name ≡ false
    → Finds d name ps (first_named d name ps)
first_named-Finds d name [] no_nul = tt
first_named-Finds d name (p ∷ ps) no_nul =
    let (named, back) = has_name-Named name (entry_at d p) no_nul in
    elim (Bool-cases (has_name name (entry_at d p))) [
      | inl y ↦ rw y ([], ps, refl, tt, named y)
      | inr n ↦ rw n (
          Finds-cons d name p ps (first_named d name ps) (λ h. ground (arith, back h, n))
            (first_named-Finds d name ps no_nul))
    ]

-- If no entry of a directory has the length 0, and the name has no NUL, locate_file_by_name ends. It
-- finds the first of the directory's entries that is in use and has the name's length and bytes, or
-- nothing if there is none.
pub locate_file_by_name-Finds :
    (d : Disk) (inode : Inode) (name : List ℕ)
    → Advances d (entries_of d inode)
    → has 0 name ≡ false
    → (r : Option Place) × (locate_file_by_name d inode name ≡ some r)
      × Finds d name (entries_of d inode) r
locate_file_by_name-Finds d inode name a no_nul = (
  first_named d name (entries_of d inode),
  locate_file_by_name-first d inode name a,
  first_named-Finds d name (entries_of d inode) no_nul,
)
