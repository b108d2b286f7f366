-- ===== src/Interceptor/Commands/Permission.antt =====
-- Who may do what (interceptor.c, lines 312 to 319 and the checks of current_uid).
use kernel_programming_proje.Base.{
  After, After-map, ◌<◌, ◌≤◌, Bool, true, not, ◌&&◌, Option, ℕ, ◌≡◌, refl, inl, inr, false, ◌||◌,
  some, ℤ, pos, negsuc, arith, ltb, ◌==◌, Bool-cases, Option-cases,
}
use kernel_programming_proje.Interceptor.Kernel.{Kernel, Caller, ok}
use kernel_programming_proje.Interceptor.Commands.Outcome.{IsQuiet, unlocked-IsQuiet}
use kernel_programming_proje.Interceptor.Commands.{
  intercept, release, start_all, start_one, start_for, stop_all, stop_one, stop_for,
  start_monitoring, stop_monitoring, my_syscall, dispatch, Command, command, intercepts, releases,
  starts, stops, unknown,
}

abbrev pub same_owner : Option ℕ → Option ℕ → Bool
same_owner (some u) (some v) = u == v
same_owner _ _ = false

-- The pid is that of an existing process with the caller's owner.
abbrev pub owns : Caller → ℤ → Bool
owns c (negsuc n) = false
owns c (pos p) = not (p == 0) && same_owner (c.owner p) (c.owner c.pid)

-- Root may do everything; a user may start and stop the monitoring of a process of its own.
abbrev pub allowed : Caller → Command → ℤ → Bool
allowed c starts pid = (c.uid == 0) || owns c pid
allowed c stops pid = (c.uid == 0) || owns c pid
allowed c _ pid = c.uid == 0

module _ (c : Caller) (s : ℕ) {v : ℕ} (hv : c.owner c.pid ≡ some v) where
  start_for-allowed :
      (pid : ℤ) (k : Kernel)
      → IsQuiet k
      → After (λ r k'. r ≡ ok → allowed c starts pid ≡ true) (start_for c s pid k)
  unfolding start_for start_all start_one
  start_for-allowed (negsuc n) k q = ground arith
  start_for-allowed (pos p) k q = elim (Option-cases (c.owner p)) [
    | inl z ↦ ground arith
    | inr (u, z) ↦ ground arith
  ]

  stop_for-allowed :
      (pid : ℤ) (k : Kernel)
      → IsQuiet k
      → After (λ r k'. r ≡ ok → allowed c stops pid ≡ true) (stop_for c s pid k)
  unfolding stop_for stop_all stop_one
  stop_for-allowed (negsuc n) k q = ground arith
  stop_for-allowed (pos p) k q = elim (Option-cases (c.owner p)) [
    | inl z ↦ ground arith
    | inr (u, z) ↦ ground arith
  ]

  dispatch-allowed :
      (m : Command) (pid : ℤ) (k : Kernel)
      → IsQuiet k
      → After (λ r k'. r ≡ ok → allowed c m pid ≡ true) (dispatch c m s pid k)
  unfolding start_monitoring stop_monitoring intercept release
  dispatch-allowed intercepts pid k q = ground arith
  dispatch-allowed releases pid k q = ground arith
  dispatch-allowed starts pid k q = ground (arith, start_for-allowed pid _ (unlocked-IsQuiet q))
  dispatch-allowed stops pid k q = ground (arith, stop_for-allowed pid _ (unlocked-IsQuiet q))
  dispatch-allowed unknown pid k q = ground arith

-- A number from 1 to NR_syscalls.
abbrev pub Numbered : ℕ → ℤ → Type 0
Numbered nr syscall = (s : ℕ) × (syscall ≡ pos s) × (0 < s) × (s ≤ nr)

-- Called by a process that exists, with the locks free and the table read-only, my_syscall answers
-- 0 only to root, or to a user that starts or stops the monitoring of one existing process with the
-- same owner; and only for a system call number from 1 to NR_syscalls, not for a negative one.
pub my_syscall-allowed :
    (nr : ℕ) (c : Caller) (cmd pid syscall : ℤ) {v : ℕ} (k : Kernel)
    → IsQuiet k
    → c.owner c.pid ≡ some v
    → After
        (λ r k'. r ≡ ok → (allowed c (command cmd) pid ≡ true) × Numbered nr syscall)
        (my_syscall nr c cmd syscall pid k)
unfolding my_syscall
my_syscall-allowed nr c cmd pid (negsuc n) k q hv = λ h. cc
my_syscall-allowed nr c cmd pid (pos s) k q hv = elim (Bool-cases (ltb nr s || (s == 0))) [
  | inl e ↦ rw e (λ h. cc)
  | inr e ↦ rw e (
      After-map (λ r k'. r ≡ ok → allowed c (command cmd) pid ≡ true)
        (λ r k'. r ≡ ok → (allowed c (command cmd) pid ≡ true) × Numbered nr (pos s))
        (dispatch c (command cmd) s pid k) (dispatch-allowed c s hv (command cmd) pid k q)
        λ r k' f h. (f h, (s, refl, ground arith, ground arith)))
]
