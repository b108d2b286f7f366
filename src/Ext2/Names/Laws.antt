-- ===== src/Ext2/Names/Laws.antt =====
-- Splitting a path into its directory and its name.
use mathlib.Core.List.{append-nil}
use kernel_programming_proje.Base.{
  ℕ, zero, suc, ◌+◌, ◌-◌, ◌%◌, ◌^◌, ◌≤◌, ◌<◌, ◌≡◌, refl, ap, ◌∙◌, false, List, [], ◌∷◌, ◌++◌, some,
  length, length-append, has, ◌==◌, if◌then◌else◌, arith, inl, inr, Bool-cases,
}
use kernel_programming_proje.Ext2.Names.{
  byte_at, drop, slash_below, last_slash_in_path, find_file_name_by_path,
}

byte_at-append : (s t : List ℕ) (i : ℕ) → byte_at (s ++ t) (length s + i) ≡ byte_at t i
byte_at-append [] t i = ap (byte_at t) (omega arith)
byte_at-append (c ∷ s) t i =
    let e : length (c ∷ s) + i ≡ suc (length s + i) = omega arith in rw e (byte_at-append s t i)

byte_at-left : (s t : List ℕ) (i : ℕ) → i < length s → byte_at (s ++ t) i ≡ byte_at s i
byte_at-left [] t i lt = absurd (omega arith)
byte_at-left (c ∷ s) t zero lt = refl
byte_at-left (c ∷ s) t (suc i) lt = byte_at-left s t i (omega arith)

drop-behind : (s t : List ℕ) (c : ℕ) → drop (suc (length s)) (s ++ c ∷ t) ≡ t
drop-behind [] t c = refl
drop-behind (b ∷ s) t c = drop-behind s t c

byte-has : (s : List ℕ) (i : ℕ) → i < length s → has b'/' s ≡ false → (byte_at s i == b'/') ≡ false
byte-has [] i lt no_slash = absurd (omega arith)
byte-has (c ∷ s) zero lt no_slash = ground arith
byte-has (c ∷ s) (suc i) lt no_slash = byte-has s i (omega arith) (ground arith)

-- The search stops at the slash before the name, from anywhere in the name.
slash_below-name :
    (n : ℕ) (dir name rest : List ℕ)
    → n ≤ length name
    → has b'/' name ≡ false
    → slash_below (suc (length dir + n)) (dir ++ b'/' ∷ (name ++ rest)) ≡ length dir
unfolding slash_below
slash_below-name zero dir name rest le no_slash =
    ground (arith, byte_at-append dir (b'/' ∷ (name ++ rest)) 0)
slash_below-name (suc n) dir name rest le no_slash =
    let e : length dir + suc n ≡ suc (length dir + n) = omega arith in
    let tail : byte_at (dir ++ b'/' ∷ (name ++ rest)) (length dir + suc n) ≡ byte_at name n =
      byte_at-append dir (b'/' ∷ (name ++ rest)) (suc n) ∙ byte_at-left name rest n (omega arith) in
    rw (tail, byte-has name n (omega arith) no_slash, e)
      (slash_below-name n dir name rest (omega arith) no_slash)

last_slash-cases :
    (path : List ℕ)
    → 0 < length path
    → last_slash_in_path path
      ≡ some (
          if byte_at path (length path - 1) == b'/'
          then slash_below (length path - 1) path
          else slash_below (length path) path)
unfolding last_slash_in_path
last_slash-cases [] lt = absurd (omega arith)
last_slash-cases (c ∷ s) lt =
    let more : length s + 1 ≡ suc (length s) = omega arith in
    let less : suc (length s) - 1 ≡ length s = omega arith in
    rw (less, more)
      (elim (Bool-cases (byte_at (c ∷ s) (length s) == b'/')) [
        | inl y ↦ rw y refl
        | inr y ↦ rw y refl
      ])

length-path :
    (dir name rest : List ℕ)
    → length (dir ++ b'/' ∷ (name ++ rest)) ≡ suc (length dir + length name) + length rest
length-path dir name rest =
    omega (arith, length-append dir (b'/' ∷ (name ++ rest)), length-append name rest)

last_byte :
    (name : List ℕ)
    → 0 < length name
    → has b'/' name ≡ false
    → (byte_at (b'/' ∷ (name ++ [])) (length name) == b'/') ≡ false
last_byte [] named no_slash = absurd (omega arith)
last_byte (c ∷ cs) named no_slash =
    rw (byte_at-left (c ∷ cs) [] (length cs) (omega arith))
      (byte-has (c ∷ cs) (length cs) (omega arith) no_slash)

module _ (dir name : List ℕ) (named : 0 < length name) (no_slash : has b'/' name ≡ false) where
  slash_of_name : last_slash_in_path (dir ++ b'/' ∷ (name ++ [])) ≡ some (length dir)
  slash_of_name =
      let whole : length (dir ++ b'/' ∷ (name ++ [])) ≡ suc (length dir + length name) =
        omega (arith, length-path dir name []) in
      let less : suc (length dir + length name) - 1 ≡ length dir + length name = omega arith in
      last_slash-cases (dir ++ b'/' ∷ (name ++ [])) (omega arith)
      ∙ rw
          (
            whole,
            less,
            byte_at-append dir (b'/' ∷ (name ++ [])) (length name),
            last_byte name named no_slash,
          )
          (ap some (slash_below-name (length name) dir name [] (omega arith) no_slash))

  slash_of_directory : last_slash_in_path (dir ++ b'/' ∷ (name ++ b'/' ∷ [])) ≡ some (length dir)
  slash_of_directory =
      let whole : length (dir ++ b'/' ∷ (name ++ b'/' ∷ []))
          ≡ suc (length dir + suc (length name)) =
        omega (arith, length-path dir name (b'/' ∷ [])) in
      let less : suc (length dir + suc (length name)) - 1 ≡ length dir + suc (length name) =
        omega arith in
      let start : length dir + suc (length name) ≡ suc (length dir + length name) = omega arith in
      let final : byte_at (name ++ b'/' ∷ []) (length name) ≡ b'/' =
        ap (byte_at (name ++ b'/' ∷ [])) (omega arith) ∙ byte_at-append name (b'/' ∷ []) 0 in
      last_slash-cases (dir ++ b'/' ∷ (name ++ b'/' ∷ [])) (omega arith)
      ∙ rw (whole, less, byte_at-append dir (b'/' ∷ (name ++ b'/' ∷ [])) (suc (length name)), final)
          (ap some
            (rw start (slash_below-name (length name) dir name (b'/' ∷ []) (omega arith) no_slash)))

  name_behind :
      (rest : List ℕ)
      → length dir + 1 < 2 ^ 32
      → last_slash_in_path (dir ++ b'/' ∷ rest) ≡ some (length dir)
      → find_file_name_by_path (dir ++ b'/' ∷ rest) ≡ some rest
  unfolding find_file_name_by_path
  name_behind rest small e =
      let index : (length dir + 1) % 2 ^ 32 ≡ suc (length dir) = omega arith in
      rw (find_file_name_by_path, e, index, drop-behind dir rest b'/') refl

  -- For a path of fewer than 2^32 bytes before its name, which is not empty and has no slash:
  -- last_slash_in_path is the length of the directory's path, and find_file_name_by_path is the
  -- name; with a slash behind the name the first is the same, and the second keeps the slash.
  pub split_path :
      length dir + 1 < 2 ^ 32
      → (last_slash_in_path (dir ++ b'/' ∷ name) ≡ some (length dir))
        × (find_file_name_by_path (dir ++ b'/' ∷ name) ≡ some name)
        × (last_slash_in_path (dir ++ b'/' ∷ (name ++ b'/' ∷ [])) ≡ some (length dir))
        × (find_file_name_by_path (dir ++ b'/' ∷ (name ++ b'/' ∷ [])) ≡ some (name ++ b'/' ∷ []))
  split_path small =
      let plain : last_slash_in_path (dir ++ b'/' ∷ name) ≡ some (length dir) =
        rw (append-nil name) at slash_of_name in
      (
        plain,
        name_behind name small plain,
        slash_of_directory,
        name_behind (name ++ b'/' ∷ []) small slash_of_directory,
      )
