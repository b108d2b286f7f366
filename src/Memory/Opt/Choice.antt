-- ===== src/Memory/Opt/Choice.antt =====
-- opt_ref and opt_evict of opt.c: what they make of the list of the pages in frames.
use kernel_programming_proje.Base.{
  ℕ, ◌+◌, ◌-◌, ◌<◌, ◌≡◌, refl, sym, ap, subst, ◌∙◌, true, false, not, ◌&&◌, ◌||◌, List, [], ◌∷◌,
  Option, some, pos, has, ◌==◌, if◌then◌else◌, put, arith, inl, inr, Bool-cases,
}
use kernel_programming_proje.Memory.Opt.{Variables, head, step_position, opt_use, add_to_coremap}
use kernel_programming_proje.Memory.Opt.Chain.{frame, place, next_use}
use kernel_programming_proje.Memory.Opt.Order.{Sorted-same, remove-Sorted, length-le, uses}
use kernel_programming_proje.Memory.Opt.Links.{remove_from_coremap-Relinks}
use kernel_programming_proje.Memory.Opt.Future.{
  ahead, Listed, Ranked, Planned-Relinked, add-Ranked, step-Planned,
}
use kernel_programming_proje.Memory.Lru.Order.{remove, remove-has, remove-Distinct, remove-absent}

place-same :
    (u u' : ℕ → Option ℕ) (v : ℕ) (xs : List ℕ)
    → u' v ≡ u v
    → ((g : ℕ) → has g xs ≡ true → u' g ≡ u g)
    → place u' v xs ≡ place u v xs
place-same u u' v [] e same = refl
place-same u u' v (x ∷ xs) e same =
    ground (arith, e, same x (ground arith), place-same u u' v xs e (λ g i. same g (ground arith)))

-- What a reference of the node `v`, in the frame `f`, leads to.
pub record Referenced (n : ℕ) (o : Variables) (xs : List ℕ) (v f : ℕ) (o' : Variables)
    : Type 0 where
  pub moves : o'.position ≡ o.position + 1
  pub string_same : o'.reference_string ≡ o.reference_string
  pub frames :
      (g : ℕ)
      → (o'.vaddrs g).frame_number
        ≡ (if (v == g) && not (has g xs) then pos f else (o.vaddrs g).frame_number)
  pub ranked : Ranked n o' (place (ahead o.reference_string n (o.position + 1)) v (remove v xs))

-- The step behind the first changes, from the variables `o1` with the list `ys`.
finish :
    (n : ℕ) (o o1 : Variables) (xs ys : List ℕ) (v f : ℕ)
    → ys ≡ remove v xs
    → o1.position ≡ o.position + 1
    → o1.reference_string ≡ o.reference_string
    → ((g : ℕ)
        → (o1.vaddrs g).frame_number
          ≡ (if (v == g) && not (has g xs) then pos f else (o.vaddrs g).frame_number))
    → Listed n o1 ys (λ g. (v == g) || has g ys)
    → v < o1.mallocs
    → has v ys ≡ false
    → (o' : Variables) × (add_to_coremap v o1 ≡ some o') × Referenced n o xs v f o'
finish n o o1 xs ys v f list moves refs frames l lt out =
    let (o', runs, r, ranked) = add-Ranked n o1 ys v l lt out in
    let next : (g : ℕ)
        → g < o1.mallocs
        → next_use o1.vaddrs g ≡ ahead o.reference_string n (o.position + 1) g =
      λ g i. ap head (
        l.plan.planned g i
        ∙ ap (λ s. uses s g (n - o1.position) o1.position) refs
        ∙ ap (λ k. uses o.reference_string g (n - k) k) moves) in
    (
      o',
      runs,
      record {
        moves = r.position_same ∙ moves;
        string_same = r.references_same ∙ refs;
        frames = λ g. r.frame_same g ∙ frames g;
        ranked =
            subst (Ranked n o')
              (place-same (ahead o.reference_string n (o.position + 1)) (next_use o1.vaddrs) v ys
                  (next v lt) (λ g i. next g (l.known g i))
                ∙ ap (place (ahead o.reference_string n (o.position + 1)) v) list)
              ranked;
      },
    )

module _ (n : ℕ) (o : Variables) (xs : List ℕ) (v f : ℕ) (more : o.position < n)
    (at : o.reference_string o.position ≡ some v) (lt : v < o.mallocs) (l : Ranked n o xs) where
  abbrev entered : Variables
  entered = record (step_position v o) {
    vaddrs =
        put (step_position v o).vaddrs v
          (record ((step_position v o).vaddrs v) { frame_number = pos f });
  }

  -- A page that comes into a frame.
  entered-Listed : has v xs ≡ false → Listed n entered xs (λ g. (v == g) || has g xs)
  entered-Listed out =
      let p = step-Planned n o v (λ g. has g xs) more at l.plan in
      record {
        chain = frame o.vaddrs entered.vaddrs o.coremap_head xs (λ g i. ground arith) l.chain;
        distinct = l.distinct;
        sorted =
            Sorted-same (next_use o.vaddrs) (next_use entered.vaddrs) xs (λ g i. ground arith)
              l.sorted;
        known = l.known;
        plan = record {
          outside = λ g i. ground (arith, p.outside g i);
          alone = λ g h i j e. p.alone g h i j (ground arith);
          planned = λ g i. ground (arith, p.planned g i);
          referenced = p.referenced;
        };
      }

  use_new : has v xs ≡ false → (o' : Variables) × (opt_use f o ≡ some o') × Referenced n o xs v f o'
  unfolding opt_use
  use_new out =
      let (o', runs, r) =
        finish n o entered xs xs v f (sym (remove-absent xs v out)) refl refl (λ g. ground arith)
          (entered-Listed out) lt out in
      (o', ground (arith, at, runs, l.plan.outside v lt), r)

  -- A page that is in a frame.
  use_old : has v xs ≡ true → (o' : Variables) × (opt_use f o ≡ some o') × Referenced n o xs v f o'
  unfolding opt_use
  use_old inside =
      let p = step-Planned n o v (λ g. has g xs) more at l.plan in
      let (o2, removes, chain, r) =
        remove_from_coremap-Relinks (step_position v o) v xs
          (frame o.vaddrs (step_position v o).vaddrs o.coremap_head xs (λ g i. ground arith)
            l.chain)
          l.distinct inside (length-le o.mallocs xs l.distinct l.known)
          (λ g i e. p.alone g v (l.known g i) lt e) in
      let out : has v (remove v xs) ≡ false = ground (arith, remove-has xs v v l.distinct) in
      let listed : Listed n o2 (remove v xs) (λ g. (v == g) || has g (remove v xs)) = record {
        chain = chain;
        distinct = remove-Distinct xs v l.distinct;
        sorted =
            Sorted-same (next_use o.vaddrs) (next_use o2.vaddrs) (remove v xs)
              (λ g i. ap head (r.occurances_same g) ∙ ground (arith, remove-has xs v g l.distinct))
              (remove-Sorted (next_use o.vaddrs) v xs l.distinct l.sorted);
        known = λ g i. ground (arith, remove-has xs v g l.distinct, l.known g, r.mallocs_same);
        plan =
            Planned-Relinked n (step_position v o) o2 (λ g. has g xs)
              (λ g. (v == g) || has g (remove v xs)) r
              (λ g. ground (arith, remove-has xs v g l.distinct, inside)) p;
      } in
      let (o', runs, done) =
        finish n o o2 xs (remove v xs) v f refl r.position_same r.references_same
          (λ g. r.frame_same g ∙ ground (arith, inside)) listed (ground (arith, r.mallocs_same))
          out in
      (o', ground (arith, at, removes, runs, l.plan.outside v lt), done)

-- the reference
pub opt_use-Referenced :
    (n : ℕ) (o : Variables) (xs : List ℕ) (f : ℕ)
    → o.position < n
    → Ranked n o xs
    → (v : ℕ) × (o.reference_string o.position ≡ some v)
      × ((o' : Variables) × (opt_use f o ≡ some o') × Referenced n o xs v f o')
opt_use-Referenced n o xs f more l =
    let (v, at, lt) = l.plan.referenced o.position more in
    (
      v,
      at,
      elim (Bool-cases (has v xs)) [
        | inl inside ↦ use_old n o xs v f more at lt l inside
        | inr out ↦ use_new n o xs v f more at lt l out
      ],
    )
