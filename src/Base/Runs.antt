-- ===== src/Base/Runs.antt =====
-- Total correctness of a run: a function on a state that may fail returns `none`, or a value and
-- the new state.
use mathlib.Core.Option.{Option, none, some}

-- The run returns, and what it returns satisfies P.
abbrev pub After : {A S : Type 0} → (A → S → Type 0) → Option (A × S) → Type 0
After P none = ⊥
After P (some (a, s)) = P a s

module _ {S : Type 0} where
  -- A run that returns at all returns one value and one state.
  pub After-all :
      {A B : Type 0} (P : B → A → S → Type 0) (r : Option (A × S))
      → B
      → ((b : B) → After (P b) r)
      → After (λ a s. (b : B) → P b a s) r
  After-all P none b h = h b
  After-all P (some (a, s)) b h = h

  pub After-map :
      {A : Type 0} (P Q : A → S → Type 0) (r : Option (A × S))
      → After P r
      → ((a : A) (s : S) → P a s → Q a s)
      → After Q r
  After-map P Q none h f = h
  After-map P Q (some (a, s)) h f = f a s h

  pub After-bind :
      {A B : Type 0} (P : A → S → Type 0) (Q : B → S → Type 0) (r : Option (A × S))
      (f : A → S → Option (B × S))
      → After P r
      → ((a : A) (s : S) → P a s → After Q (f a s))
      → After Q (elim r [ none ↦ none | some (a, s) ↦ f a s ])
  After-bind P Q none f h g = h
  After-bind P Q (some (a, s)) f h g = g a s h
