-- ===== src/Interceptor/Commands/Safety.antt =====
-- The commands keep every entry of the table sound (interceptor.c, lines 343 to 591).
use kernel_programming_proje.Base.{
  After, After-all, ℕ, ◌≡◌, inl, inr, false, some, ℤ, pos, negsuc, arith, ◌==◌, ◌||◌, ltb,
  Bool-cases, Option-cases,
}
use kernel_programming_proje.Interceptor.Kernel.{Kernel, Caller}
use kernel_programming_proje.Interceptor.PidList.Unlink.{unlink-Distinct, length-unlink}
use kernel_programming_proje.Interceptor.Sound.{Sound}
use kernel_programming_proje.Interceptor.Commands.Outcome.{IsQuiet}
use kernel_programming_proje.Interceptor.Commands.{
  intercept, release, start_all, start_one, start_for, stop_all, stop_one, stop_for,
  start_monitoring, stop_monitoring, my_syscall, dispatch, Command, command, intercepts, releases,
  starts, stops, unknown,
}

module _ (c : Caller) (s j : ℕ) (k : Kernel) (q : IsQuiet k) (here : Sound k s)
    (there : Sound k j) where
  intercept-Sound : After (λ r k'. Sound k' j) (intercept c s k)
  unfolding intercept
  intercept-Sound = ground arith

  release-Sound : After (λ r k'. Sound k' j) (release c s k)
  unfolding release
  release-Sound = ground arith

  start_all-Sound : (k.table s).intercepted ≡ 1 → After (λ r k'. Sound k' j) (start_all c s k)
  unfolding start_all
  start_all-Sound on = ground arith

  stop_all-Sound : After (λ r k'. Sound k' j) (stop_all c s k)
  unfolding stop_all
  stop_all-Sound = ground arith

  module _ {u v : ℕ} (p : ℕ) (hv : c.owner c.pid ≡ some v) (hu : c.owner p ≡ some u) where
    start_one-Sound : (k.table s).intercepted ≡ 1 → After (λ r k'. Sound k' j) (start_one c s p k)
    unfolding start_one
    start_one-Sound on =
        ground (arith, unlink-Distinct p (k.table s).my_list, length-unlink p (k.table s).my_list)

    stop_one-Sound : After (λ r k'. Sound k' j) (stop_one c s p k)
    unfolding stop_one
    stop_one-Sound =
        ground (arith, unlink-Distinct p (k.table s).my_list, length-unlink p (k.table s).my_list)

module _ (c : Caller) (s j : ℕ) {v : ℕ} (hv : c.owner c.pid ≡ some v) where
  start_for-Sound :
      (pid : ℤ) (k : Kernel)
      → IsQuiet k
      → Sound k s
      → Sound k j
      → (k.table s).intercepted ≡ 1
      → After (λ r k'. Sound k' j) (start_for c s pid k)
  unfolding start_for
  start_for-Sound (negsuc n) k q here there on = there
  start_for-Sound (pos p) k q here there on = elim (Bool-cases (p == 0)) [
    | inl e ↦ rw e (start_all-Sound c s j k q here there on)
    | inr e ↦ elim (Option-cases (c.owner p)) [
      | inl z ↦ rw (e, z) there
      | inr (u, z) ↦ rw (e, z) (start_one-Sound c s j k q here there p hv z on)
    ]
  ]

  stop_for-Sound :
      (pid : ℤ) (k : Kernel)
      → IsQuiet k
      → Sound k s
      → Sound k j
      → After (λ r k'. Sound k' j) (stop_for c s pid k)
  unfolding stop_for
  stop_for-Sound (negsuc n) k q here there = there
  stop_for-Sound (pos p) k q here there = elim (Bool-cases (p == 0)) [
    | inl e ↦ rw e (stop_all-Sound c s j k q here there)
    | inr e ↦ elim (Option-cases (c.owner p)) [
      | inl z ↦ rw (e, z) there
      | inr (u, z) ↦ rw (e, z) (stop_one-Sound c s j k q here there p hv z)
    ]
  ]

  module _ (k : Kernel) (q : IsQuiet k) (here : Sound k s) (there : Sound k j) where
    start_monitoring-Sound : (pid : ℤ) → After (λ r k'. Sound k' j) (start_monitoring c s pid k)
    unfolding start_monitoring
    start_monitoring-Sound pid =
        ground (arith, start_for-Sound pid (record k { pidlist_lock = false }))

    stop_monitoring-Sound : (pid : ℤ) → After (λ r k'. Sound k' j) (stop_monitoring c s pid k)
    unfolding stop_monitoring
    stop_monitoring-Sound pid =
        ground (arith, stop_for-Sound pid (record k { pidlist_lock = false }))

    dispatch-Sound : (m : Command) (pid : ℤ) → After (λ r k'. Sound k' j) (dispatch c m s pid k)
    dispatch-Sound intercepts pid = intercept-Sound c s j k q here there
    dispatch-Sound releases pid = release-Sound c s j k q here there
    dispatch-Sound starts pid = start_monitoring-Sound pid
    dispatch-Sound stops pid = stop_monitoring-Sound pid
    dispatch-Sound unknown pid = there

-- If every entry is sound before a call of my_syscall, by a process that exists and with the locks
-- free and the system call table read-only, it returns and every entry is sound after it: a system
-- call goes through the interceptor exactly while its entry says so, the saved handler is never the
-- interceptor itself, no pid is listed twice, and an entry that monitors nothing has no pids.
pub my_syscall-Sound :
    (nr : ℕ) (c : Caller) (cmd syscall pid : ℤ) {v : ℕ} (k : Kernel)
    → IsQuiet k
    → c.owner c.pid ≡ some v
    → ((j : ℕ) → Sound k j)
    → After (λ r k'. (j : ℕ) → Sound k' j) (my_syscall nr c cmd syscall pid k)
unfolding my_syscall
my_syscall-Sound nr c cmd (negsuc n) pid k q hv all = all
my_syscall-Sound nr c cmd (pos s) pid k q hv all = elim (Bool-cases (ltb nr s || (s == 0))) [
  | inl e ↦ rw e all
  | inr e ↦
      rw e (After-all _ _ 0 (λ j. dispatch-Sound c s j hv k q (all s) (all j) (command cmd) pid))
]
