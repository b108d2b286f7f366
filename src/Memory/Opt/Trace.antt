-- ===== src/Memory/Opt/Trace.antt =====
-- opt.c, lines 119 to 250: opt_init reads the trace and records the positions of each address. A line
-- is the list of the bytes that fgets reads, and `scan` is sscanf with the format "%c %lx", as in Sim.
use kernel_programming_proje.Base.{
  ℕ, zero, suc, ◌+◌, true, false, List, [], ◌∷◌, ◌++◌, Option, none, some, negsuc, length, ◌==◌,
  if◌then◌else◌, put,
}
use kernel_programming_proje.Memory.Opt.{Vaddr, Variables, hash}

abbrev pub add_occurance_sequence : ℕ → ℕ → Variables → Variables
add_occurance_sequence v position o = record o {
  vaddrs =
      put o.vaddrs v
        (record (o.vaddrs v) { occurances = (o.vaddrs v).occurances ++ position ∷ [] });
}

-- The malloc of a `struct vaddr` and the writes of its fields.
abbrev pub new_vaddr : ℕ → ℕ → Variables → Variables
new_vaddr position a o = add_occurance_sequence o.mallocs position (record o {
  mallocs = o.mallocs + 1;
  vaddrs = put o.vaddrs o.mallocs (record {
    virtual_addr = a;
    next = none;
    next_in_frame = none;
    frame_number = negsuc 0;
    occurances = [];
  });
})

-- The loop over a bucket, from its node `current` on.
unfoldable pub scan_bucket : ℕ → ℕ → ℕ → (ℕ → Vaddr) → Option ℕ
scan_bucket zero a current vaddrs = none
scan_bucket (suc n) a current vaddrs = elim (vaddrs current).next [
  | none ↦ some current
  | some b ↦ elim ((vaddrs current).virtual_addr == a) [
    | true ↦ some current
    | false ↦ scan_bucket n a b vaddrs
  ]
]

abbrev pub set_next : ℕ → Option ℕ → (ℕ → Vaddr) → ℕ → Vaddr
set_next c p vaddrs = put vaddrs c (record (vaddrs c) { next = p })

unfoldable pub vaddr_record : ℕ → ℕ → ℕ → Variables → Option (ℕ × Variables)
unfolding scan_bucket
vaddr_record position a index o = elim (o.hashmap_ptr index) [
  | none ↦ some (
    o.mallocs,
    record (new_vaddr position a o) { hashmap_ptr = put o.hashmap_ptr index (some o.mallocs) },
  )
  | some h ↦ elim (scan_bucket o.mallocs a h o.vaddrs) [
    | none ↦ none
    | some c ↦ elim ((o.vaddrs c).virtual_addr == a) [
      | true ↦ some (c, add_occurance_sequence c position o)
      | false ↦ some (
        o.mallocs,
        record (new_vaddr position a o) {
          vaddrs = set_next c (some o.mallocs) (new_vaddr position a o).vaddrs;
        },
      )
    ]
  ]
]

abbrev pub replace_newline_char : List ℕ → ℕ → List ℕ
replace_newline_char buffer zero = buffer
replace_newline_char [] (suc size) = []
replace_newline_char (b ∷ buffer) (suc size) =
    let rest = replace_newline_char buffer size in if b == 10 then 0 ∷ buffer else b ∷ rest

-- The loops that set the `n` pointers of an array, from `i` on, to null.
unfoldable pub clear : ℕ → ℕ → (ℕ → Option ℕ) → ℕ → Option ℕ
clear zero i pointers = pointers
clear (suc n) i pointers = clear n (i + 1) (put pointers i none)

-- The reference string gets a node, and the position moves on.
abbrev pub refer : ℕ → Variables → Variables
refer v o = record o {
  reference_string = put o.reference_string o.position (some v);
  position = o.position + 1;
}

module _ (scan : List ℕ → ℕ → ℕ → ℕ × ℕ) where
  -- The second loop over the file, with the values of type and virtual_addr that the line before left.
  unfoldable pub read_trace : List (List ℕ) → ℕ → ℕ → Variables → Option Variables
  unfolding vaddr_record
  read_trace [] type virtual_addr o = some o
  read_trace (l ∷ lines) type virtual_addr o =
      let (type', a) = scan (replace_newline_char l 20) type virtual_addr in
      elim (hash o a) [
        | none ↦ none
        | some index ↦ elim (vaddr_record o.position a index o) [
          | none ↦ none
          | some (v, o') ↦ read_trace lines type' a (refer v o')
        ]
      ]

  -- `m` is memsize; `o`, type and virtual_addr are what the variables hold before. A trace file that
  -- cannot be opened ends the program, for which `none` stands here.
  unfoldable pub opt_init : ℕ → Option (List (List ℕ)) → ℕ → ℕ → Variables → Option Variables
  unfolding clear read_trace
  opt_init m none type virtual_addr o = none
  opt_init m (some lines) type virtual_addr o =
      elim (read_trace lines type virtual_addr (record o {
        coremap_head = none;
        hashmap_size = m;
        position = 0;
        hashmap_ptr = clear m 0 o.hashmap_ptr;
        reference_string = clear (length lines) 0 o.reference_string;
        mallocs = 0;
      })) [ none ↦ none | some o' ↦ some (record o' { position = 0 }) ]
