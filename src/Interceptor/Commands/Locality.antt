-- ===== src/Interceptor/Commands/Locality.antt =====
-- What a command leaves alone (interceptor.c, lines 343 to 591).
use kernel_programming_proje.Base.{
  After, ℕ, ◌≡◌, ◌≢◌, inl, inr, false, ◌||◌, some, ℤ, pos, negsuc, arith, ltb, ◌==◌, Bool-cases,
  Option-cases,
}
use kernel_programming_proje.Interceptor.Kernel.{Kernel, Caller}
use kernel_programming_proje.Interceptor.Commands.Outcome.{IsQuiet}
use kernel_programming_proje.Interceptor.Commands.{
  intercept, release, start_all, start_one, start_for, stop_all, stop_one, stop_for,
  start_monitoring, stop_monitoring, my_syscall, dispatch, Command, command, intercepts, releases,
  starts, stops, unknown,
}

-- The entry and the slot of the system call `j`, the log and the module's saved handlers.
pub record Same (j : ℕ) (k k' : Kernel) : Type 0 where
  pub entry : k'.table j ≡ k.table j
  pub slot : k'.sys_call_table j ≡ k.sys_call_table j
  pub log : k'.log ≡ k.log
  pub orig_exit_group : k'.orig_exit_group ≡ k.orig_exit_group
  pub orig_custom_syscall : k'.orig_custom_syscall ≡ k.orig_custom_syscall

module _ (c : Caller) (s j : ℕ) {v : ℕ} (hv : c.owner c.pid ≡ some v) (apart : j ≢ s) where
  module _ (k : Kernel) (q : IsQuiet k) where
    intercept-Same : After (λ r k'. Same j k k') (intercept c s k)
    unfolding intercept
    intercept-Same = ground arith

    release-Same : After (λ r k'. Same j k k') (release c s k)
    unfolding release
    release-Same = ground arith

    start_all-Same : After (λ r k'. Same j k k') (start_all c s k)
    unfolding start_all
    start_all-Same = ground arith

    stop_all-Same : After (λ r k'. Same j k k') (stop_all c s k)
    unfolding stop_all
    stop_all-Same = ground arith

    start_one-Same :
        {u : ℕ} (p : ℕ) → c.owner p ≡ some u → After (λ r k'. Same j k k') (start_one c s p k)
    unfolding start_one
    start_one-Same p hu = ground arith

    stop_one-Same :
        {u : ℕ} (p : ℕ) → c.owner p ≡ some u → After (λ r k'. Same j k k') (stop_one c s p k)
    unfolding stop_one
    stop_one-Same p hu = ground arith

  start_for-Same :
      (pid : ℤ) (k : Kernel) → IsQuiet k → After (λ r k'. Same j k k') (start_for c s pid k)
  unfolding start_for
  start_for-Same (negsuc n) k q = ground arith
  start_for-Same (pos p) k q = elim (Option-cases (c.owner p)) [
    | inl z ↦ ground (arith, start_all-Same k q)
    | inr (u, z) ↦ ground (arith, start_all-Same k q, start_one-Same k q p z)
  ]

  stop_for-Same :
      (pid : ℤ) (k : Kernel) → IsQuiet k → After (λ r k'. Same j k k') (stop_for c s pid k)
  unfolding stop_for
  stop_for-Same (negsuc n) k q = ground arith
  stop_for-Same (pos p) k q = elim (Option-cases (c.owner p)) [
    | inl z ↦ ground (arith, stop_all-Same k q)
    | inr (u, z) ↦ ground (arith, stop_all-Same k q, stop_one-Same k q p z)
  ]

  dispatch-Same :
      (m : Command) (pid : ℤ) (k : Kernel)
      → IsQuiet k
      → After (λ r k'. Same j k k') (dispatch c m s pid k)
  unfolding start_monitoring stop_monitoring
  dispatch-Same intercepts pid k q = intercept-Same k q
  dispatch-Same releases pid k q = release-Same k q
  dispatch-Same starts pid k q =
      ground (arith, start_for-Same pid (record k { pidlist_lock = false }))
  dispatch-Same stops pid k q =
      ground (arith, stop_for-Same pid (record k { pidlist_lock = false }))
  dispatch-Same unknown pid k q = ground arith

-- Called by a process that exists, with the locks free and the table read-only: a command about one
-- system call leaves the entry and the slot of every other one alone; it prints nothing and leaves
-- the handlers that unloading restores as they were.
pub my_syscall-Same :
    (nr : ℕ) (c : Caller) (cmd pid : ℤ) (s j : ℕ) {v : ℕ} (k : Kernel)
    → IsQuiet k
    → c.owner c.pid ≡ some v
    → j ≢ s
    → After (λ r k'. Same j k k') (my_syscall nr c cmd (pos s) pid k)
unfolding my_syscall
my_syscall-Same nr c cmd pid s j k q hv apart = elim (Bool-cases (ltb nr s || (s == 0))) [
  | inl e ↦ rw e (ground arith)
  | inr e ↦ rw e (dispatch-Same c s j hv apart (command cmd) pid k q)
]
