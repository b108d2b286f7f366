-- ===== src/Memory/Lru/Keeps.antt =====
-- lru.c changes its own variables and the links of the frames, and nothing else.
use kernel_programming_proje.Base.{ℕ, ◌≡◌, refl, Bool, true, false, ◌&&◌, Option, none, some, arith}
use kernel_programming_proje.Memory.State.{Frame, Machine, frame_number}
use kernel_programming_proje.Memory.Pagetable.Coherent.{Steady, Steady-trans}
use kernel_programming_proje.Memory.Lru.{
  Ends, behind, put_at_tail, new_page, move_head, move_middle, set_next, set_previous, is_null,
  same_frame, lru_use, lru_ref, lru_evict, drop_head,
}
use kernel_programming_proje.Memory.Lru.Uses.{forget}

-- The frames of one coremap are those of the other but for their links.
abbrev SameFrames : (ℕ → Frame) → (ℕ → Frame) → Type 0
SameFrames frames frames' =
    (g : ℕ) → ((frames' g).in_use ≡ (frames g).in_use) × ((frames' g).pte ≡ (frames g).pte)

relinked-Steady :
    {F : Type 0} (s : Machine F Ends) (frames : ℕ → Frame) (ends : Ends)
    → SameFrames s.coremap frames
    → Steady s (record s { coremap = frames; alg = ends })
relinked-Steady s frames ends same = record {
  in_use_same = λ f. (same f).0;
  pte_same = λ f. (same f).1;
  pgdir_same = refl;
  physmem_same = refl;
  file_same = refl;
  swapmap_same = refl;
  hit_same = refl;
  miss_same = refl;
  ref_same = refl;
  clean_same = refl;
  dirty_same = refl;
  errors_same = refl;
  swap_off_same = λ p. refl;
  number_same = λ p. refl;
  valid_same = λ p. refl;
  dirty_flag_same = λ p. refl;
  onswap_same = λ p. refl;
}

abbrev pub Keeps : {F B : Type 0} → Machine F Ends → Option (B × Machine F Ends) → Type 0
Keeps s none = Unit {0}
Keeps s (some (b, s')) = Steady s s'

next-same :
    (frames frames' : ℕ → Frame) (f : ℕ) (v : Option ℕ)
    → SameFrames frames frames'
    → SameFrames frames (set_next f v frames')
next-same frames frames' f v same g = (ground (arith, (same g).0), ground (arith, (same g).1))

previous-same :
    (frames frames' : ℕ → Frame) (f : ℕ) (v : Option ℕ)
    → SameFrames frames frames'
    → SameFrames frames (set_previous f v frames')
previous-same frames frames' f v same g = (ground (arith, (same g).0), ground (arith, (same g).1))

same_frames : (frames : ℕ → Frame) → SameFrames frames frames
same_frames frames g = (refl, refl)

Keeps-if :
    {F B : Type 0} (s : Machine F Ends) (b : Bool) (r r' : Option (B × Machine F Ends))
    → Keeps s r
    → Keeps s r'
    → Keeps s (elim b [ true ↦ r | false ↦ r' ])
Keeps-if s true r r' k k' = k
Keeps-if s false r r' k k' = k'

Keeps-option :
    {F B : Type 0} (s : Machine F Ends) (o : Option ℕ) (r : Option (B × Machine F Ends))
    (k : ℕ → Option (B × Machine F Ends))
    → Keeps s r
    → ((f : ℕ) → Keeps s (k f))
    → Keeps s (elim o [ none ↦ r | some f ↦ k f ])
Keeps-option s none r k n y = n
Keeps-option s (some f) r k n y = y f

-- What is returned after a step, with the machine changed once more.
Keeps-then :
    {F : Type 0} (s : Machine F Ends) (r : Option (Unit {0} × Machine F Ends)) (n : ℕ)
    (k : Machine F Ends → Machine F Ends)
    → Keeps s r
    → ((s' : Machine F Ends) → Steady s' (k s'))
    → Keeps s (elim r [ none ↦ none | some (u, s') ↦ some (n, k s') ])
Keeps-then s none n k a on = tt
Keeps-then s (some (u, s')) n k a on = Steady-trans s s' (k s') a (on s')

put_at_tail-Keeps :
    {F : Type 0} (s : Machine F Ends) (frames : ℕ → Frame) (ends : Ends) (f : ℕ)
    → SameFrames s.coremap frames
    → Keeps s (put_at_tail f (record s { coremap = frames; alg = ends }))
put_at_tail-Keeps s frames ends f same =
    Keeps-option s ends.tail none
      (λ t. some (tt, behind f t (record s { coremap = frames; alg = ends }))) tt
      (λ t.
        relinked-Steady s (set_next f none (set_previous f (some t) (set_next t (some f) frames)))
          (record ends { tail = some f })
          (next-same s.coremap (set_previous f (some t) (set_next t (some f) frames)) f none (
            previous-same s.coremap (set_next t (some f) frames) f (some t)
              (next-same s.coremap frames t (some f) same))))

new_page-Keeps : {F : Type 0} (s : Machine F Ends) (f : ℕ) → Keeps s (new_page f s)
new_page-Keeps s f =
    Keeps-option s s.alg.head
      (some (tt, record s { alg = record { head = some f; tail = some f } })) (λ h. put_at_tail f s)
      (relinked-Steady s s.coremap (record { head = some f; tail = some f })
        (same_frames s.coremap))
      (λ h. put_at_tail-Keeps s s.coremap s.alg f (same_frames s.coremap))

move_head-Keeps : {F : Type 0} (s : Machine F Ends) (f : ℕ) → Keeps s (move_head f s)
move_head-Keeps s f =
    Keeps-option s (s.coremap f).next none
      (λ b. put_at_tail f (record s {
        coremap = set_previous b none s.coremap;
        alg = record s.alg { head = some b };
      }))
      tt
      (λ b.
        put_at_tail-Keeps s (set_previous b none s.coremap) (record s.alg { head = some b }) f
          (previous-same s.coremap s.coremap b none (same_frames s.coremap)))

move_middle-Keeps : {F : Type 0} (s : Machine F Ends) (f : ℕ) → Keeps s (move_middle f s)
move_middle-Keeps s f =
    Keeps-option s (s.coremap f).next none
      (λ b. elim (s.coremap f).previous [
        | none ↦ none
        | some a ↦
            put_at_tail f
              (record s { coremap = set_next a (some b) (set_previous b (some a) s.coremap) })
      ])
      tt
      (λ b.
        Keeps-option s (s.coremap f).previous none
          (λ a.
            put_at_tail f
              (record s { coremap = set_next a (some b) (set_previous b (some a) s.coremap) }))
          tt
          (λ a.
            put_at_tail-Keeps s (set_next a (some b) (set_previous b (some a) s.coremap)) s.alg f (
              next-same s.coremap (set_previous b (some a) s.coremap) a (some b)
                (previous-same s.coremap s.coremap b (some a) (same_frames s.coremap)))))

lru_use-Keeps : {F : Type 0} (s : Machine F Ends) (f : ℕ) → Keeps s (lru_use f s)
unfolding lru_use
lru_use-Keeps s f =
    let stays : Steady s s = relinked-Steady s s.coremap s.alg (same_frames s.coremap) in
    let on_tail =
      Keeps-if s (same_frame s.alg.tail (some f)) (some (tt, s)) (move_middle f s) stays
        (move_middle-Keeps s f) in
    let on_head =
      Keeps-if s (same_frame s.alg.head (some f)) (move_head f s)
        (elim (same_frame s.alg.tail (some f)) [ true ↦ some (tt, s) | false ↦ move_middle f s ])
        (move_head-Keeps s f) on_tail in
    let on_two =
      Keeps-if s (same_frame s.alg.head s.alg.tail) (some (tt, s))
        (elim (same_frame s.alg.head (some f)) [
          | true ↦ move_head f s
          | false ↦ elim (same_frame s.alg.tail (some f)) [
            | true ↦ some (tt, s)
            | false ↦ move_middle f s
          ]
        ])
        stays on_head in
    Keeps-if s (is_null (s.coremap f).next && is_null (s.coremap f).previous) (new_page f s)
      (elim (same_frame s.alg.head s.alg.tail) [
        | true ↦ some (tt, s)
        | false ↦ elim (same_frame s.alg.head (some f)) [
          | true ↦ move_head f s
          | false ↦ elim (same_frame s.alg.tail (some f)) [
            | true ↦ some (tt, s)
            | false ↦ move_middle f s
          ]
        ]
      ])
      (new_page-Keeps s f) on_two

drop_head-Keeps : {F : Type 0} (s : Machine F Ends) (h : ℕ) → Keeps s (drop_head h s)
drop_head-Keeps s h =
    Keeps-if s (same_frame s.alg.head s.alg.tail)
      (some (tt, record s { alg = record { head = none; tail = none } }))
      (elim (s.coremap h).next [
        | none ↦ none
        | some b ↦ some (
          tt,
          record s {
            coremap = set_previous b none s.coremap;
            alg = record s.alg { head = some b };
          },
        )
      ])
      (relinked-Steady s s.coremap (record { head = none; tail = none }) (same_frames s.coremap))
      (Keeps-option s (s.coremap h).next none
        (λ b. some (
          tt,
          record s {
            coremap = set_previous b none s.coremap;
            alg = record s.alg { head = some b };
          },
        ))
        tt
        (λ b.
          relinked-Steady s (set_previous b none s.coremap) (record s.alg { head = some b })
            (previous-same s.coremap s.coremap b none (same_frames s.coremap))))

forget-Steady : {F : Type 0} (s : Machine F Ends) (x : ℕ) → Steady s (forget x s)
forget-Steady s x = relinked-Steady s (set_previous x none (set_next x none s.coremap)) s.alg (
    previous-same s.coremap (set_next x none s.coremap) x none
      (next-same s.coremap s.coremap x none (same_frames s.coremap)))

pub lru_evict-Keeps : {F : Type 0} (s : Machine F Ends) → Keeps s (lru_evict s)
unfolding lru_evict
lru_evict-Keeps s =
    Keeps-option s s.alg.head none
      (λ h. elim (s.coremap h).pte [
        | none ↦ none
        | some p ↦ elim (drop_head h s) [
          | none ↦ none
          | some (u, s') ↦ some (frame_number (s.ptes p), forget (frame_number (s.ptes p)) s')
        ]
      ])
      tt
      (λ h.
        Keeps-option s (s.coremap h).pte none
          (λ p. elim (drop_head h s) [
            | none ↦ none
            | some (u, s') ↦ some (frame_number (s.ptes p), forget (frame_number (s.ptes p)) s')
          ])
          tt
          (λ p.
            Keeps-then s (drop_head h s) (frame_number (s.ptes p))
              (λ s'. forget (frame_number (s.ptes p)) s') (drop_head-Keeps s h)
              (λ s'. forget-Steady s' (frame_number (s.ptes p)))))

pub lru_ref-Keeps : {F : Type 0} (s : Machine F Ends) (p : ℕ) → Keeps s (lru_ref p s)
unfolding lru_ref
lru_ref-Keeps s p = lru_use-Keeps s (frame_number (s.ptes p))
