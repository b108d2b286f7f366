-- ===== src/Interceptor/Module/Loading.antt =====
-- Loading and unloading the module (interceptor.c, lines 593 to 683).
use kernel_programming_proje.Base.{
  After, After-map, After-bind, put, ℕ, zero, suc, ◌+◌, ◌≤◌, ◌<◌, ◌≡◌, ◌≢◌, refl, true, false, Bool,
  ◌&&◌, [], if◌then◌else◌, arith, ◌==◌, leb, ltb, pos,
}
use kernel_programming_proje.Interceptor.Kernel.{
  Handler, null, my_syscall_fn, my_exit_group_fn, interceptor_fn, Kernel, Entry, Caller,
  lock_calltable,
}
use kernel_programming_proje.Interceptor.Sound.{Sound, watches}
use kernel_programming_proje.Interceptor.Commands.Outcome.{IsQuiet}
use kernel_programming_proje.Interceptor.Commands.{intercept}
use kernel_programming_proje.Interceptor.Module.{
  init_entry, init_entries, init_function, clear_entry, clear_entries, exit_function,
}

-- An entry of an intercepted system call before anything happened to it.
abbrev pub blank : Entry
blank = record { f = null; intercepted = 0; monitored = 0; listcount = pos 0; my_list = [] }

abbrev pub within : ℕ → ℕ → ℕ → Bool
within n i j = leb i j && ltb j (i + n)

abbrev Blanked : ℕ → ℕ → Kernel → Unit {0} → Kernel → Type 0
Blanked n i k u k' =
    (k' ≡ record k { table = k'.table })
    × ((j : ℕ) → k'.table j ≡ (if within n i j then blank else k.table j))

init_entry-lem :
    (i : ℕ) (k : Kernel)
    → IsQuiet k
    → After
        (λ _ k'.
          k' ≡ record k { table = k'.table } × ((j : ℕ) → k'.table j ≡ put k.table i blank j))
        (init_entry i k)
init_entry-lem i k q = ground arith

init_entries-Blanked :
    (n i : ℕ) (k : Kernel) → IsQuiet k → After (Blanked n i k) (init_entries n i k)
unfolding init_entries
init_entries-Blanked zero i k q = (refl, λ j. ground arith)
init_entries-Blanked (suc n) i k q =
    After-bind
      (λ _ k'. k' ≡ record k { table = k'.table } × ((j : ℕ) → k'.table j ≡ put k.table i blank j))
      _ (init_entry i k) _ (init_entry-lem i k q)
      λ _ k1 e.
        After-map (Blanked n (i + 1) k1) (Blanked (suc n) i k) (init_entries n (i + 1) k1)
          (init_entries-Blanked n (i + 1) k1 (ground (arith, e.0)))
          λ u k2 r. (ground (arith, e.0, r.0), λ j. ground (arith, e.1 j, r.1 j))

-- The entry that exit_function leaves, and what it puts into the slot.
abbrev emptied : Entry → Entry
emptied e = record e { my_list = []; listcount = pos 0; monitored = 0 }

abbrev restored : Entry → Handler → Handler
restored e h = if e.intercepted == 1 then e.f else h

abbrev Restored : ℕ → ℕ → Kernel → Unit {0} → Kernel → Type 0
Restored n i k u k' =
    IsQuiet k'
    × ((j : ℕ)
        → k'.sys_call_table j ≡ (
            if within n i j then restored (k.table j) (k.sys_call_table j) else k.sys_call_table j))
    × ((j : ℕ) → k'.table j ≡ (if within n i j then emptied (k.table j) else k.table j))

clear_entry-Restored : (i : ℕ) (k : Kernel) → IsQuiet k → After (Restored 1 i k) (clear_entry i k)
unfolding clear_entry
clear_entry-Restored i k q = ground arith

clear_entries-Restored :
    (n i : ℕ) (k : Kernel) → IsQuiet k → After (Restored n i k) (clear_entries n i k)
unfolding clear_entries
clear_entries-Restored zero i k q = (q, (λ j. ground arith), λ j. ground arith)
clear_entries-Restored (suc n) i k q =
    After-bind (Restored 1 i k) _ (clear_entry i k) _ (clear_entry-Restored i k q) λ _ k1 e.
      After-map (Restored n (i + 1) k1) (Restored (suc n) i k) (clear_entries n (i + 1) k1)
        (clear_entries-Restored n (i + 1) k1 e.0)
        λ u k2 r.
          (r.0, (λ j. ground (arith, e.1 j, r.1 j, e.2 j)), λ j. ground (arith, e.2 j, r.2 j))

-- The table with the slots 0 and `g` exchanged, which init_function and exit_function write.
abbrev swapped : ℕ → Handler → Handler → Kernel → Kernel
swapped g f h k = record k {
  calltable_lock = false;
  writable = false;
  sys_call_table = put (put k.sys_call_table 0 f) g h;
}

-- What loading changes: the two hijacked slots, both saved handlers, and the entries 1 to `nr`.
abbrev Loaded : ℕ → ℕ → Kernel → Unit {0} → Kernel → Type 0
Loaded nr g k u k' =
    IsQuiet k'
    × ((j : ℕ)
        → k'.sys_call_table j ≡ put (put k.sys_call_table 0 my_syscall_fn) g my_exit_group_fn j)
    × ((j : ℕ) → k'.table j ≡ (if within nr 1 j then blank else k.table j))
    × (k'.orig_custom_syscall ≡ k.sys_call_table 0)
    × (k'.orig_exit_group ≡ k.sys_call_table 0)

init_function-Loaded :
    (nr g : ℕ) (k : Kernel) → IsQuiet k → After (Loaded nr g k) (init_function nr g k)
unfolding init_function
init_function-Loaded nr g k q =
    After-bind
      (λ _ k'. k' ≡ record k {
        orig_exit_group = k.sys_call_table 0;
        orig_custom_syscall = k.sys_call_table 0;
        calltable_lock = true;
      })
      _
      (lock_calltable (record k {
        orig_exit_group = k.sys_call_table 0;
        orig_custom_syscall = k.sys_call_table 0;
      }))
      _ (ground arith)
      λ _ k1 e.
        After-map (Blanked nr 1 (swapped g my_syscall_fn my_exit_group_fn k1)) (Loaded nr g k)
          (init_entries nr 1 (swapped g my_syscall_fn my_exit_group_fn k1))
          (init_entries-Blanked nr 1 (swapped g my_syscall_fn my_exit_group_fn k1) (ground arith))
          λ u k2 r. (
            ground (arith, r.0),
            (λ j. ground (arith, r.0)),
            (λ j. ground (arith, r.1 j)),
            ground (arith, r.0),
            ground (arith, r.0),
          )

abbrev Unloaded : ℕ → ℕ → Kernel → Unit {0} → Kernel → Type 0
Unloaded nr g k u k' =
    IsQuiet k'
    × ((j : ℕ)
        → k'.sys_call_table j ≡ (
            let h = put (put k.sys_call_table 0 k.orig_custom_syscall) g k.orig_exit_group j in
            if within nr 1 j then restored (k.table j) h else h))
    × ((j : ℕ) → k'.table j ≡ (if within nr 1 j then emptied (k.table j) else k.table j))

exit_function-Unloaded :
    (nr g : ℕ) (k : Kernel) → IsQuiet k → After (Unloaded nr g k) (exit_function nr g k)
unfolding exit_function
exit_function-Unloaded nr g k q =
    After-bind (λ _ k'. k' ≡ record k { calltable_lock = true }) _ (lock_calltable k) _
      (ground arith)
      λ _ k1 e.
        After-map (Restored nr 1 (swapped g k1.orig_custom_syscall k1.orig_exit_group k1))
          (Unloaded nr g k)
          (clear_entries nr 1 (swapped g k1.orig_custom_syscall k1.orig_exit_group k1))
          (clear_entries-Restored nr 1 (swapped g k1.orig_custom_syscall k1.orig_exit_group k1)
            (ground arith))
          λ u k2 r. (r.0, (λ j. ground (arith, r.1 j)), λ j. ground (arith, r.2 j))

-- With the locks free and the table read-only: once the module is loaded, my_syscall and
-- my_exit_group sit in their slots, every other slot is as it was, and the entries of the system
-- calls 1 to NR_syscalls are sound and watch nothing, provided that no slot held the module's
-- interceptor before.
pub init_function-Sound :
    (nr g : ℕ) (k : Kernel)
    → IsQuiet k
    → ((j : ℕ) → k.sys_call_table j ≢ interceptor_fn)
    → After
        (λ u k'.
          (k'.sys_call_table g ≡ my_exit_group_fn)
          × (g ≢ 0 → k'.sys_call_table 0 ≡ my_syscall_fn)
          × ((j : ℕ) → j ≢ 0 → j ≢ g → k'.sys_call_table j ≡ k.sys_call_table j)
          × ((j : ℕ) → 0 < j → j ≤ nr → Sound k' j × ((q : ℕ) → watches (k'.table j) q ≡ false)))
        (init_function nr g k)
init_function-Sound nr g k q clean =
    After-map (Loaded nr g k) _ (init_function nr g k) (init_function-Loaded nr g k q) λ u k' r. (
      ground (arith, r.1 g),
      (λ ne. ground (arith, r.1 0)),
      (λ j a b. ground (arith, r.1 j)),
      λ j lo hi. (ground (arith, r.1 j, r.2 j, clean j), λ p. ground (arith, r.2 j)),
    )

-- With the locks free and the table read-only, loading the module and unloading it at once puts
-- every slot of the system call table back but that of exit_group, which is left with the handler
-- of system call 0: init_function saves the wrong slot in orig_exit_group.
pub unload_load :
    (nr g : ℕ) (k : Kernel)
    → IsQuiet k
    → After
        (λ u k1.
          After
            (λ u' k2. (j : ℕ) → k2.sys_call_table j ≡ put k.sys_call_table g (k.sys_call_table 0) j)
            (exit_function nr g k1))
        (init_function nr g k)
unload_load nr g k q =
    After-map (Loaded nr g k) _ (init_function nr g k) (init_function-Loaded nr g k q) λ u k1 r.
      After-map (Unloaded nr g k1)
        (λ u' k2. (j : ℕ) → k2.sys_call_table j ≡ put k.sys_call_table g (k.sys_call_table 0) j)
        (exit_function nr g k1) (exit_function-Unloaded nr g k1 r.0)
        λ u' k2 t j. ground (arith, r.1 j, r.2 j, t.1 j)

-- With the locks free and the table read-only, unloading gives each intercepted system call from 1
-- to NR_syscalls its saved handler back, leaves the slot of every other one but exit_group alone,
-- and empties every list of pids.
pub exit_function-slots :
    (nr g : ℕ) (k : Kernel)
    → IsQuiet k
    → After
        (λ u k'.
          (j : ℕ)
          → 0 < j
          → j ≤ nr
          → ((k.table j).intercepted ≡ 1 → k'.sys_call_table j ≡ (k.table j).f)
            × ((k.table j).intercepted ≢ 1 → j ≢ g → k'.sys_call_table j ≡ k.sys_call_table j)
            × ((k'.table j).my_list ≡ []))
        (exit_function nr g k)
exit_function-slots nr g k q =
    After-map (Unloaded nr g k) _ (exit_function nr g k) (exit_function-Unloaded nr g k q)
      λ u k' r j lo hi.
        ((λ on. ground (arith, r.1 j)), (λ off ne. ground (arith, r.1 j)), ground (arith, r.2 j))

-- With the locks free and the table read-only: if root intercepts exit_group, whose number is from
-- 1 to NR_syscalls, after the module hijacked it, unloading the module leaves its own my_exit_group
-- in the slot.
pub exit_group_dangles :
    (nr g : ℕ) (c : Caller) (k : Kernel)
    → IsQuiet k
    → (k.sys_call_table g ≡ my_exit_group_fn)
    → (k.table g).intercepted ≡ 0
    → c.uid ≡ 0
    → 0 < g
    → g ≤ nr
    → After
        (λ r k1. After (λ u k2. k2.sys_call_table g ≡ my_exit_group_fn) (exit_function nr g k1))
        (intercept c g k)
unfolding intercept
exit_group_dangles nr g c k q hijacked off root lo hi =
    After-map
      (λ r k1. IsQuiet k1 × ((k1.table g).intercepted ≡ 1) × ((k1.table g).f ≡ my_exit_group_fn)) _
      (intercept c g k) (ground arith)
      λ r k1 on.
        After-map (Unloaded nr g k1) _ (exit_function nr g k1) (exit_function-Unloaded nr g k1 on.0)
          λ u k2 t. ground (arith, t.1 g)
