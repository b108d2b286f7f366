-- ===== src/Memory/Lru.antt =====
-- lru.c: the victim is the frame at the head of a linked list of the frames, to whose tail a frame
-- goes when its page is used. The algorithm's variables are the pointers head and tail; `m` is
-- memsize.
pub mod Order
pub mod Laws
pub mod Uses
pub mod Keeps
pub mod Lawful
pub mod Access
use kernel_programming_proje.Base.{
  ℕ, zero, suc, ◌+◌, Bool, true, false, ◌&&◌, Option, none, some, ◌==◌, if◌then◌else◌, put,
}
use kernel_programming_proje.Memory.State.{Frame, Machine, M, Algorithm, frame_number}

pub record Ends : Type 0 where
  pub head : Option ℕ
  pub tail : Option ℕ

abbrev pub is_null : Option ℕ → Bool
is_null none = true
is_null (some f) = false

-- Two pointers to frames are equal.
abbrev pub same_frame : Option ℕ → Option ℕ → Bool
same_frame none none = true
same_frame none (some g) = false
same_frame (some f) none = false
same_frame (some f) (some g) = f == g

abbrev pub set_next : ℕ → Option ℕ → (ℕ → Frame) → ℕ → Frame
set_next f v frames = put frames f (record (frames f) { next = v })

abbrev pub set_previous : ℕ → Option ℕ → (ℕ → Frame) → ℕ → Frame
set_previous f v frames = put frames f (record (frames f) { previous = v })

-- The loop of lru_init over the `n` frames from `i` on.
unfoldable pub clear_links : ℕ → ℕ → (ℕ → Frame) → ℕ → Frame
clear_links zero i frames = frames
clear_links (suc n) i frames = clear_links n (i + 1) (set_previous i none (set_next i none frames))

module _ {F : Type 0} where
  -- The four lines that put a frame behind the tail `t`.
  abbrev pub behind : ℕ → ℕ → Machine F Ends → Machine F Ends
  behind f t s = record s {
    coremap = set_next f none (set_previous f (some t) (set_next t (some f) s.coremap));
    alg = record s.alg { tail = some f };
  }

  abbrev pub put_at_tail : ℕ → M F Ends (Unit {0})
  put_at_tail f s = elim s.alg.tail [ none ↦ none | some t ↦ some (tt, behind f t s) ]

  abbrev pub new_page : ℕ → M F Ends (Unit {0})
  new_page f s = elim s.alg.head [
    | none ↦ some (tt, record s { alg = record { head = some f; tail = some f } })
    | some h ↦ put_at_tail f s
  ]

  -- The head is referenced.
  abbrev pub move_head : ℕ → M F Ends (Unit {0})
  move_head f s = elim (s.coremap f).next [
    | none ↦ none
    | some b ↦
        put_at_tail f (record s {
          coremap = set_previous b none s.coremap;
          alg = record s.alg { head = some b };
        })
  ]

  -- A frame between two others is referenced.
  abbrev pub move_middle : ℕ → M F Ends (Unit {0})
  move_middle f s = elim (s.coremap f).next [
    | none ↦ none
    | some b ↦ elim (s.coremap f).previous [
      | none ↦ none
      | some a ↦
          put_at_tail f
            (record s { coremap = set_next a (some b) (set_previous b (some a) s.coremap) })
    ]
  ]

  -- lru_ref for the frame `f`.
  unfoldable pub lru_use : ℕ → M F Ends (Unit {0})
  lru_use f s = elim (is_null (s.coremap f).next && is_null (s.coremap f).previous) [
    | true ↦ new_page f s
    | false ↦ elim (same_frame s.alg.head s.alg.tail) [
      | true ↦ some (tt, s)
      | false ↦ elim (same_frame s.alg.head (some f)) [
        | true ↦ move_head f s
        | false ↦ elim (same_frame s.alg.tail (some f)) [
          | true ↦ some (tt, s)
          | false ↦ move_middle f s
        ]
      ]
    ]
  ]

  unfoldable pub lru_ref : ℕ → M F Ends (Unit {0})
  unfolding lru_use
  lru_ref p s = lru_use (frame_number (s.ptes p)) s

  -- The head's frame leaves the list; a null pointer on the way is followed.
  abbrev pub drop_head : ℕ → M F Ends (Unit {0})
  drop_head h s = elim (same_frame s.alg.head s.alg.tail) [
    | true ↦ some (tt, record s { alg = record { head = none; tail = none } })
    | false ↦ elim (s.coremap h).next [
      | none ↦ none
      | some b ↦ some (
        tt,
        record s { coremap = set_previous b none s.coremap; alg = record s.alg { head = some b } },
      )
    ]
  ]

  unfoldable pub lru_evict : M F Ends ℕ
  lru_evict s = elim s.alg.head [
    | none ↦ none
    | some h ↦ elim (s.coremap h).pte [
      | none ↦ none
      | some p ↦ elim (drop_head h s) [
        | none ↦ none
        | some (u, s') ↦ some (
          frame_number (s.ptes p),
          record s' {
            coremap =
                set_previous (frame_number (s.ptes p)) none
                  (set_next (frame_number (s.ptes p)) none s'.coremap);
          },
        )
      ]
    ]
  ]

  unfoldable pub lru_init : ℕ → Machine F Ends → Machine F Ends
  unfolding clear_links
  lru_init m s = record s {
    coremap = clear_links m 0 s.coremap;
    alg = record { head = none; tail = none };
  }

  -- The entry of lru.c in the table of the algorithms.
  abbrev pub lru : Algorithm F Ends
  lru = record { init = record { head = none; tail = none }; ref = lru_ref; evict = lru_evict }
