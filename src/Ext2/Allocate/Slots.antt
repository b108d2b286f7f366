-- ===== src/Ext2/Allocate/Slots.antt =====
-- The entries of a directory's block as a list of slots, for allocate_space_in_block of
-- ext2general.c.
use kernel_programming_proje.Base.{
  ℕ, zero, suc, ◌+◌, ◌*◌, ◌/◌, ◌≤◌, ◌<◌, ◌≡◌, ◌≢◌, refl, ap, ◌∙◌, Bool, true, false, ◌&&◌, List, [],
  ◌∷◌, ◌++◌, Option, none, some, ltb, leb, ◌==◌, if◌then◌else◌, put, arith, ◌⊎◌, inl, inr,
  Bool-cases, subst, lt→ltb, length, has,
}
use kernel_programming_proje.Ext2.Disk.{DirEntry}
use kernel_programming_proje.Ext2.Names.{print_name, string_from, byte_at}
use kernel_programming_proje.Ext2.Allocate.{NewEntry, per_four_bytes, is_reusable}

-- What a directory says of a file: its inode, its type and its name.
abbrev pub Slot : Type 0
Slot = ℕ × ℕ × List ℕ

abbrev pub slot : DirEntry → Slot
slot e = (e.inode, e.file_type, print_name e)

-- The slots of the entries in use from `position` on, in order.
abbrev pub slots : ℕ → (ℕ → DirEntry) → ℕ → List Slot
slots zero f position = []
slots (suc n) f position =
    let rest = slots n f (position + (f position).rec_len) in
    if ltb position 1024
    then if (f position).inode == 0 then rest else slot (f position) ∷ rest
    else []

-- The entries from `position` on, `n` at most, are 8 bytes long at least and end at the block's end.
abbrev pub tiles : ℕ → (ℕ → DirEntry) → ℕ → Bool
tiles zero f position = position == 1024
tiles (suc n) f position =
    let rest = tiles n f (position + (f position).rec_len) in
    if ltb position 1024 then leb 8 (f position).rec_len && rest else position == 1024

-- The second list is the first with one more element somewhere.
abbrev pub OneMore {ℓ} : {A : Type ℓ} → A → List A → List A → Type ℓ
OneMore {A} x xs ys = (us vs : List A) × (xs ≡ us ++ vs) × (ys ≡ us ++ x ∷ vs)

-- The offsets of the entries from `position` on.
abbrev pub offsets : ℕ → (ℕ → DirEntry) → ℕ → List ℕ
offsets zero f position = []
offsets (suc n) f position =
    let rest = offsets n f (position + (f position).rec_len) in
    if ltb position 1024 then position ∷ rest else []

-- The next multiple of 4.
abbrev pub rounded : ℕ → ℕ
rounded n = (n + 3) / 4 * 4

-- The entry at `q` is unused and long enough for the name that it had, but not for the new one.
pub record TooShort (a : NewEntry) (f : ℕ → DirEntry) (q : ℕ) : Type 0 where
  pub unused : (f q).inode ≡ 0
  pub long : rounded (8 + (f q).name_len) ≤ (f q).rec_len
  pub short : (f q).rec_len < 8 + a.name_len

-- The entry at `q` is the last of the block. Both names fit into it when their lengths are added
-- and then rounded, but the new one does not fit behind the old one, rounded by itself.
pub record TooTight (a : NewEntry) (f : ℕ → DirEntry) (q : ℕ) : Type 0 where
  pub last : q + (f q).rec_len ≡ 1024
  pub together : rounded (16 + a.name_len + (f q).name_len) ≤ (f q).rec_len
  pub apart : (f q).rec_len < rounded (8 + (f q).name_len) + (8 + a.name_len)

-- The name goes over the end of the entry that it is written to.
abbrev pub Spills : NewEntry → ℕ → (ℕ → DirEntry) → ℕ → Type 0
Spills a n f position =
    (q : ℕ) × (has q (offsets n f position) ≡ true) × (TooShort a f q ⊎ TooTight a f q)

-- The entry at `q` cannot take the new name: if it is unused it is too short for the name that it
-- had, and if it is the last of the block it has no room for both names.
pub record NoRoom (a : NewEntry) (f : ℕ → DirEntry) (q : ℕ) : Type 0 where
  pub kept : (f q).inode ≡ 0 → (f q).rec_len < rounded (8 + (f q).name_len)
  pub closed : q + (f q).rec_len ≡ 1024 → (f q).rec_len < rounded (16 + a.name_len + (f q).name_len)

abbrev pub Full : NewEntry → ℕ → (ℕ → DirEntry) → ℕ → Type 0
Full a n f position = (q : ℕ) → has q (offsets n f position) ≡ true → NoRoom a f q

-- What may come of the entries from `position` on.
abbrev pub Allocated : NewEntry → ℕ → (ℕ → DirEntry) → ℕ → Option (Bool × (ℕ → DirEntry)) → Type 0
Allocated a n f position r =
    ((r ≡ none) × Spills a n f position)
    ⊎ ((r ≡ some (false, f)) × Full a n f position
        ⊎ ((g : ℕ → DirEntry) × (m : ℕ) × (r ≡ some (true, g))
            × (tiles m g position ≡ true)
            × OneMore (a.inode_num, a.file_type, a.file_name) (slots n f position)
                (slots m g position)
            × ((q : ℕ) → q < position → g q ≡ f q)))

pub put_same : (f : ℕ → DirEntry) (p : ℕ) (e : DirEntry) → put f p e p ≡ e
put_same f p e = ground arith

pub put_other : (f : ℕ → DirEntry) (p q : ℕ) (e : DirEntry) → p ≢ q → put f p e q ≡ f q
put_other f p q e ne = ground arith

pub slots-agree :
    (n : ℕ) (f g : ℕ → DirEntry) (p : ℕ)
    → ((q : ℕ) → p ≤ q → g q ≡ f q)
    → (slots n g p ≡ slots n f p) × (tiles n g p ≡ tiles n f p)
slots-agree zero f g p same = (refl, refl)
slots-agree (suc n) f g p same =
    let (a, b) = slots-agree n f g (p + (f p).rec_len) (λ q le. same q (omega arith)) in
    rw (same p (omega arith), a, b) (refl, refl)

pub string_from-name :
    (s : List ℕ) (i : ℕ) (f : ℕ → ℕ)
    → has 0 s ≡ false
    → ((j : ℕ) → j < length s → f (i + j) ≡ byte_at s j)
    → string_from (length s) i f ≡ s
string_from-name [] i f no_nul same = refl
string_from-name (c ∷ s) i f no_nul same =
    let here : f i ≡ c = ap f (omega arith) ∙ same 0 (omega arith) in
    let used : (c == 0) ≡ false = ground arith in
    let rest =
      string_from-name s (i + 1) f (ground arith)
        (λ j lt. ap f (omega arith) ∙ same (suc j) (omega arith)) in
    rw (here, used) (ap (λ t. c ∷ t) rest)

-- The first entry of a block that is tiled.
pub tiles-first :
    (n : ℕ) (f : ℕ → DirEntry) (p : ℕ)
    → tiles (suc n) f p ≡ true
    → p < 1024
    → (8 ≤ (f p).rec_len) × (tiles n f (p + (f p).rec_len) ≡ true)
tiles-first n f p tiled lt =
    let both : (leb 8 (f p).rec_len && tiles n f (p + (f p).rec_len)) ≡ true =
      rw (lt→ltb p 1024 lt) at tiled in
    ground arith

pub tiles-cons :
    (n : ℕ) (f : ℕ → DirEntry) (p : ℕ)
    → p < 1024
    → 8 ≤ (f p).rec_len
    → tiles n f (p + (f p).rec_len) ≡ true
    → tiles (suc n) f p ≡ true
tiles-cons n f p lt long rest = rw (lt→ltb p 1024 lt) (ground arith)

-- The slot of the first entry, if it is in use.
abbrev pub slot_if_used : DirEntry → List Slot
slot_if_used e = if e.inode == 0 then [] else slot e ∷ []

pub slots-cons :
    (n : ℕ) (f : ℕ → DirEntry) (p : ℕ)
    → p < 1024
    → slots (suc n) f p ≡ slot_if_used (f p) ++ slots n f (p + (f p).rec_len)
slots-cons n f p lt = rw (lt→ltb p 1024 lt) (ground arith)

pub OneMore-append :
    {A : Type 0} (x : A) (front xs ys : List A)
    → OneMore x xs ys
    → OneMore x (front ++ xs) (front ++ ys)
OneMore-append x [] xs ys m = m
OneMore-append x (z ∷ front) xs ys m =
    let (us, vs, e, h) = OneMore-append x front xs ys m in
    (z ∷ us, vs, ap (λ t. z ∷ t) e, ap (λ t. z ∷ t) h)

pub tiles-end :
    (n : ℕ) (f : ℕ → DirEntry) (p : ℕ) → 1024 ≤ p → (slots n f p ≡ []) × (tiles n f p ≡ (p == 1024))
tiles-end zero f p past = (refl, refl)
tiles-end (suc n) f p past = let out : ltb p 1024 ≡ false = ground arith in rw out (refl, refl)

pub tiles-inside : (n : ℕ) (f : ℕ → DirEntry) (p : ℕ) → tiles n f p ≡ true → p ≤ 1024
tiles-inside zero f p tiled = ground arith
tiles-inside (suc n) f p tiled = ground arith

pub tiles-suc :
    (n : ℕ) (f : ℕ → DirEntry) (p : ℕ) → tiles n f p ≡ true → p < 1024 → (m : ℕ) × (n ≡ suc m)
tiles-suc zero f p tiled inside = absurd (ground arith)
tiles-suc (suc n) f p tiled inside = (n, refl)

pub per_four_bytes-rounded : (n : ℕ) → per_four_bytes n * 4 ≡ rounded n
per_four_bytes-rounded n = ground arith

-- What the two roundings leave for the new entry.
pub split-room :
    (n q r : ℕ)
    → per_four_bytes (16 + n + q) * 4 ≤ r
    → (8 ≤ per_four_bytes (8 + q) * 4) × (per_four_bytes (8 + q) * 4 + 8 ≤ r)
split-room n q r room = (ground arith, ground arith)

offsets-end : (n : ℕ) (f : ℕ → DirEntry) (p : ℕ) → 1024 ≤ p → offsets n f p ≡ []
offsets-end zero f p past = refl
offsets-end (suc n) f p past = let out : ltb p 1024 ≡ false = ground arith in rw out refl

pub offsets-first :
    (n : ℕ) (f : ℕ → DirEntry) (p : ℕ) → p < 1024 → has p (offsets (suc n) f p) ≡ true
offsets-first n f p inside = rw (lt→ltb p 1024 inside) (ground arith)

pub Spills-cons :
    (a : NewEntry) (n : ℕ) (f : ℕ → DirEntry) (p : ℕ)
    → p < 1024
    → Spills a n f (p + (f p).rec_len)
    → Spills a (suc n) f p
Spills-cons a n f p inside (q, there, why) =
    (q, rw (lt→ltb p 1024 inside) (ground (arith, there)), why)

taken-kept :
    (f : ℕ → DirEntry) (p : ℕ)
    → is_reusable (f p) ≡ false
    → (f p).inode ≡ 0
    → (f p).rec_len < rounded (8 + (f p).name_len)
taken-kept f p taken unused =
    subst (λ t. (f p).rec_len < t) (per_four_bytes-rounded (8 + (f p).name_len))
      (ground (arith, taken, unused))

pub Full-cons :
    (a : NewEntry) (n : ℕ) (f : ℕ → DirEntry) (p : ℕ)
    → p + (f p).rec_len < 1024
    → is_reusable (f p) ≡ false
    → Full a n f (p + (f p).rec_len)
    → Full a (suc n) f p
Full-cons a n f p more taken full q there = elim (Bool-cases (q == p)) [
  | inl here ↦
      let e : p ≡ q = ground arith in
      subst (NoRoom a f) e
        (record { kept = taken-kept f p taken; closed = λ last. absurd (omega arith) })
  | inr away ↦ full q (ground (arith, there))
]

pub Full-last :
    (a : NewEntry) (n : ℕ) (f : ℕ → DirEntry) (p : ℕ)
    → 1024 ≤ p + (f p).rec_len
    → is_reusable (f p) ≡ false
    → (f p).rec_len < rounded (16 + a.name_len + (f p).name_len)
    → Full a (suc n) f p
Full-last a n f p last taken no_room q there =
    let e : p ≡ q = ground (arith, offsets-end n f (p + (f p).rec_len) last, there) in
    subst (NoRoom a f) e (record { kept = taken-kept f p taken; closed = λ at_end. no_room })
