-- ===== src/Memory/Opt/Evict.antt =====
-- opt_ref and opt_evict of opt.c on the simulated machine.
use kernel_programming_proje.Base.{
  ℕ, ◌-◌, ◌<◌, ◌≤◌, ◌≡◌, refl, sym, ap, ◌∙◌, true, List, ◌∷◌, Option, none, some, pos, negsuc, has,
  put, arith,
}
use kernel_programming_proje.Memory.State.{Machine, frame_number as frame_of}
use kernel_programming_proje.Memory.Opt.{Variables, head, opt_pick, opt_ref, opt_evict}
use kernel_programming_proje.Memory.Opt.Chain.{frame, farther, next_use}
use kernel_programming_proje.Memory.Opt.Order.{Sorted-same, head-uses, uses-hits}
use kernel_programming_proje.Memory.Opt.Future.{Ranked}
use kernel_programming_proje.Memory.Opt.Choice.{Referenced, opt_use-Referenced}

-- If the linked list has the pages in frames in the order of their next uses, and the reference
-- string is not at its end, opt_ref ends. The page at the position of the reference string is then in
-- the list at the place of its next use, once, and has the entry's frame if it had none; the other
-- pages keep their order and their frames, and the position moves on by one.
pub opt_ref-Referenced :
    {F : Type 0} (n : ℕ) (s : Machine F Variables) (xs : List ℕ) (p : ℕ)
    → s.alg.position < n
    → Ranked n s.alg xs
    → (v : ℕ) × (s.alg.reference_string s.alg.position ≡ some v)
      × ((o : Variables) × (opt_ref p s ≡ some (tt, record s { alg = o }))
          × Referenced n s.alg xs v (frame_of (s.ptes p)) o)
unfolding opt_ref
opt_ref-Referenced n s xs p more l =
    let (v, at, (o, runs, r)) = opt_use-Referenced n s.alg xs (frame_of (s.ptes p)) more l in
    (v, at, (o, ground (arith, runs), r))

-- Every later use of `x` comes after one of `g`.
farthest :
    (n : ℕ) (o : Variables) (x : ℕ) (xs : List ℕ) (g i : ℕ)
    → Ranked n o (x ∷ xs)
    → has g xs ≡ true
    → o.position ≤ i
    → i < n
    → o.reference_string i ≡ some x
    → (j : ℕ) × (o.position ≤ j) × (j < i) × (o.reference_string j ≡ some g)
farthest n o x xs g i l inside lo hi at =
    let (b, first, le) =
      uses-hits o.reference_string x (n - o.position) o.position i lo (omega arith) at in
    let x_next : next_use o.vaddrs x ≡ some b =
      ap head (l.plan.planned x (l.known x (ground arith))) ∙ first in
    let (j, g_next, lt) =
      sooner (next_use o.vaddrs x) (next_use o.vaddrs g) b x_next (l.sorted.0 g inside) in
    let (lo', hi', at') =
      head-uses o.reference_string g (n - o.position) o.position j
        (sym (ap head (l.plan.planned g (l.known g (ground arith)))) ∙ g_next) in
    (j, lo', omega arith, at')
  where
    sooner :
        (a c : Option ℕ) (b : ℕ)
        → a ≡ some b
        → farther a c ≡ true
        → (j : ℕ) × (c ≡ some j) × (j < b)
    sooner none c b e h = absurd (ground arith)
    sooner (some y) none b e h = absurd (ground arith)
    sooner (some y) (some z) b e h = (z, refl, ground arith)

evicted-Ranked :
    (n : ℕ) (o : Variables) (x : ℕ) (xs : List ℕ)
    → Ranked n o (x ∷ xs)
    → (o' : Variables) × (opt_pick o ≡ some ((o.vaddrs x).frame_number, o')) × Ranked n o' xs
unfolding opt_pick
evicted-Ranked n o x xs l =
    let o' : Variables = record o {
      vaddrs = put o.vaddrs x (record (o.vaddrs x) { frame_number = negsuc 0 });
      coremap_head = (o.vaddrs x).next_in_frame;
    } in
    (
      o',
      ground (arith, l.chain.0),
      record {
        chain =
            frame o.vaddrs o'.vaddrs (o.vaddrs x).next_in_frame xs (λ g i. ground arith) l.chain.1;
        distinct = l.distinct.1;
        sorted =
            Sorted-same (next_use o.vaddrs) (next_use o'.vaddrs) xs (λ g i. ground arith)
              l.sorted.1;
        known = λ g i. l.known g (ground arith);
        plan = record {
          outside = λ g i. ground (arith, l.plan.outside g i, l.distinct.0);
          alone = λ g h i j e. l.plan.alone g h i j (ground arith);
          planned = λ g i. ground (arith, l.plan.planned g i);
          referenced = l.plan.referenced;
        };
      },
    )

-- If the linked list has the pages in frames in the order of their next uses, `x` first, opt_evict
-- returns the frame of `x`, and the list has the other pages in their order. The victim is optimal:
-- wherever the rest of the reference string uses `x`, it uses each other page of the list before.
pub opt_evict-optimal :
    {F : Type 0} (n : ℕ) (s : Machine F Variables) (x f : ℕ) (xs : List ℕ)
    → Ranked n s.alg (x ∷ xs)
    → (s.alg.vaddrs x).frame_number ≡ pos f
    → ((o : Variables) × (opt_evict s ≡ some (f, record s { alg = o })) × Ranked n o xs)
      × ((g i : ℕ)
          → has g xs ≡ true
          → s.alg.position ≤ i
          → i < n
          → s.alg.reference_string i ≡ some x
          → (j : ℕ) × (s.alg.position ≤ j) × (j < i) × (s.alg.reference_string j ≡ some g))
unfolding opt_evict
opt_evict-optimal n s x f xs l held =
    let (o, runs, ranked) = evicted-Ranked n s.alg x xs l in
    (
      (o, ground (arith, runs, held), ranked),
      λ g i inside lo hi at. farthest n s.alg x xs g i l inside lo hi at,
    )
