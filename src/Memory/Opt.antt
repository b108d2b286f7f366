-- ===== src/Memory/Opt.antt =====
-- opt.c: the victim is the frame whose page is used again last, which the trace tells beforehand. A
-- `struct vaddr` is the number of its malloc, from 0 on; its queue of occurances, with the pointers
-- occurance_head and occurance_tail, is the list of their numbers. A function returns `none` where
-- the C program follows a null pointer or never ends.
pub mod Chain
pub mod Order
pub mod Links
pub mod Future
pub mod Choice
pub mod Evict
pub mod Trace
pub mod Buckets
pub mod Record
pub mod Note
pub mod Init
use kernel_programming_proje.Base.{
  ℕ, zero, suc, ◌+◌, ◌%◌, Bool, true, false, List, [], ◌∷◌, Option, none, some, ℤ, pos, negsuc, ltb,
  ◌==◌, if◌then◌else◌, put,
}
use kernel_programming_proje.Memory.State.{M, frame_number as frame_of}

pub record Vaddr : Type 0 where
  pub virtual_addr : ℕ
  pub next : Option ℕ
  pub next_in_frame : Option ℕ
  pub frame_number : ℤ
  pub occurances : List ℕ

-- The variables of opt.c; `mallocs` is the number of calls of malloc for a `struct vaddr`.
pub record Variables : Type 0 where
  pub hashmap_size : ℕ
  pub hashmap_ptr : ℕ → Option ℕ
  pub vaddrs : ℕ → Vaddr
  pub mallocs : ℕ
  pub coremap_head : Option ℕ
  pub reference_string : ℕ → Option ℕ
  pub position : ℕ

abbrev pub head : List ℕ → Option ℕ
head [] = none
head (x ∷ xs) = some x

abbrev pub tail : List ℕ → List ℕ
tail [] = []
tail (x ∷ xs) = xs

-- `virtual_address % hashmap_size`, where a remainder by 0 traps.
abbrev pub hash : Variables → ℕ → Option ℕ
hash o a = if o.hashmap_size == 0 then none else some (a % o.hashmap_size)

abbrev pub set_next_in_frame : ℕ → Option ℕ → (ℕ → Vaddr) → ℕ → Vaddr
set_next_in_frame v p vaddrs = put vaddrs v (record (vaddrs v) { next_in_frame = p })

-- A node becomes the head of the list.
abbrev pub push : ℕ → Variables → Variables
push v o = record o { vaddrs = set_next_in_frame v o.coremap_head o.vaddrs; coremap_head = some v }

-- A node goes behind another one.
abbrev pub insert_behind : ℕ → ℕ → (ℕ → Vaddr) → ℕ → Vaddr
insert_behind v c vaddrs =
    set_next_in_frame c (some v) (set_next_in_frame v (vaddrs c).next_in_frame vaddrs)

-- The node at hand, whose first occurance is the argument, stays before one with occurance y.
abbrev pub stays_ahead : Option ℕ → ℕ → Bool
stays_ahead none y = true
stays_ahead (some x) y = ltb y x

-- One with occurance y goes before the head.
abbrev pub goes_first : Option ℕ → ℕ → Bool
goes_first none y = false
goes_first (some x) y = ltb x y

-- The loop of add_to_coremap.
unfoldable pub seek : ℕ → ℕ → ℕ → (ℕ → Vaddr) → Option ℕ
seek zero y current vaddrs = none
seek (suc n) y current vaddrs = elim (vaddrs current).next_in_frame [
  | none ↦ some current
  | some b ↦ elim (stays_ahead (head (vaddrs b).occurances) y) [
    | true ↦ seek n y b vaddrs
    | false ↦ some current
  ]
]

-- The list has no more nodes than there were mallocs, so that is a bound of the rounds.
unfoldable pub add_to_coremap : ℕ → Variables → Option Variables
unfolding seek
add_to_coremap v o = elim o.coremap_head [
  | none ↦ some (push v o)
  | some h ↦ elim (head (o.vaddrs v).occurances) [
    | none ↦ some (push v o)
    | some y ↦ elim (goes_first (head (o.vaddrs h).occurances) y) [
      | true ↦ some (push v o)
      | false ↦ elim (seek o.mallocs y h o.vaddrs) [
        | none ↦ none
        | some c ↦ some (record o { vaddrs = insert_behind v c o.vaddrs })
      ]
    ]
  ]
]

-- The loop of remove_from_coremap: the node before the one with the address `a`, and that one.
unfoldable pub seek_address : ℕ → ℕ → ℕ → (ℕ → Vaddr) → Option (ℕ × ℕ)
seek_address zero a current vaddrs = none
seek_address (suc n) a current vaddrs = elim (vaddrs current).next_in_frame [
  | none ↦ none
  | some b ↦ elim ((vaddrs b).virtual_addr == a) [
    | true ↦ some (current, b)
    | false ↦ seek_address n a b vaddrs
  ]
]

-- The node `b` behind `c` leaves the list; the node `v` that is removed forgets its successor.
abbrev pub bypass : ℕ → ℕ → ℕ → (ℕ → Vaddr) → ℕ → Vaddr
bypass v c b vaddrs = set_next_in_frame v none (set_next_in_frame c (vaddrs b).next_in_frame vaddrs)

unfoldable pub remove_from_coremap : ℕ → Variables → Option Variables
unfolding seek_address
remove_from_coremap v o = elim o.coremap_head [
  | none ↦ none
  | some h ↦ elim ((o.vaddrs h).virtual_addr == (o.vaddrs v).virtual_addr) [
    | true ↦ some (record o { coremap_head = (o.vaddrs h).next_in_frame })
    | false ↦ elim (seek_address o.mallocs (o.vaddrs v).virtual_addr h o.vaddrs) [
      | none ↦ none
      | some (c, b) ↦ some (record o { vaddrs = bypass v c b o.vaddrs })
    ]
  ]
]

-- Whether a `struct vaddr` has -1 as its frame.
abbrev pub is_outside : ℤ → Bool
is_outside (pos f) = false
is_outside (negsuc n) = n == 0

-- The position moves on, and the occurance that it stood at is freed.
abbrev pub step_position : ℕ → Variables → Variables
step_position v o = record o {
  position = o.position + 1;
  vaddrs = put o.vaddrs v (record (o.vaddrs v) { occurances = tail (o.vaddrs v).occurances });
}

-- opt_ref of the page table entry of frame `f`.
unfoldable pub opt_use : ℕ → Variables → Option Variables
unfolding add_to_coremap remove_from_coremap
opt_use f o = elim (o.reference_string o.position) [
  | none ↦ none
  | some v ↦
      let o1 = step_position v o in
      elim (is_outside (o.vaddrs v).frame_number) [
        | true ↦
            add_to_coremap v (record o1 {
              vaddrs = put o1.vaddrs v (record (o1.vaddrs v) { frame_number = pos f });
            })
        | false ↦ elim (remove_from_coremap v o1) [ none ↦ none | some o2 ↦ add_to_coremap v o2 ]
      ]
]

-- The head leaves the list; its frame's number is returned.
unfoldable pub opt_pick : Variables → Option (ℤ × Variables)
opt_pick o = elim o.coremap_head [
  | none ↦ none
  | some h ↦ some (
    (o.vaddrs h).frame_number,
    record o {
      vaddrs = put o.vaddrs h (record (o.vaddrs h) { frame_number = negsuc 0 });
      coremap_head = (o.vaddrs h).next_in_frame;
    },
  )
]

module _ {F : Type 0} where
  unfoldable pub opt_ref : ℕ → M F Variables (Unit {0})
  unfolding opt_use
  opt_ref p s = elim (opt_use (frame_of (s.ptes p)) s.alg) [
    | none ↦ none
    | some o ↦ some (tt, record s { alg = o })
  ]

  -- A negative number is outside the coremap.
  unfoldable pub opt_evict : M F Variables ℕ
  unfolding opt_pick
  opt_evict s = elim (opt_pick s.alg) [
    | none ↦ none
    | some (negsuc n, o) ↦ none
    | some (pos f, o) ↦ some (f, record s { alg = o })
  ]
