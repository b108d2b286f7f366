-- ===== src/Interceptor/Commands/Outcome.antt =====
-- What my_syscall leaves behind, whatever it is asked (interceptor.c, lines 343 to 591).
use kernel_programming_proje.Base.{
  After, ℕ, ◌≡◌, refl, inl, inr, false, some, ℤ, pos, negsuc, arith, ◌==◌, ◌||◌, ltb, Bool-cases,
  Option-cases,
}
use kernel_programming_proje.Interceptor.Kernel.{Kernel, Caller, Status, ok, err}
use kernel_programming_proje.Interceptor.Commands.{
  intercept, release, start_all, start_one, start_for, stop_all, stop_one, stop_for,
  start_monitoring, stop_monitoring, my_syscall, dispatch, Command, command, intercepts, releases,
  starts, stops, unknown,
}

-- No lock is held and the system call table is read-only.
pub record IsQuiet (k : Kernel) : Type 0 where
  pub pidlist : k.pidlist_lock ≡ false
  pub calltable : k.calltable_lock ≡ false
  pub readonly : k.writable ≡ false

pub unlocked-IsQuiet : {k : Kernel} → IsQuiet k → IsQuiet (record k { pidlist_lock = false })
unlocked-IsQuiet q = record { pidlist = refl; calltable = q.calltable; readonly = q.readonly }

-- An error leaves the state as it was.
abbrev pub Atomic : Kernel → Status → Kernel → Type 0
Atomic k ok k' = IsQuiet k'
Atomic k (err e) k' = k' ≡ k

intercept-Atomic :
    (c : Caller) (s : ℕ) (k : Kernel) → IsQuiet k → After (Atomic k) (intercept c s k)
unfolding intercept
intercept-Atomic c s k q = ground arith

release-Atomic : (c : Caller) (s : ℕ) (k : Kernel) → IsQuiet k → After (Atomic k) (release c s k)
unfolding release
release-Atomic c s k q = ground arith

start_all-Atomic :
    (c : Caller) (s : ℕ) (k : Kernel) → IsQuiet k → After (Atomic k) (start_all c s k)
unfolding start_all
start_all-Atomic c s k q = ground arith

stop_all-Atomic : (c : Caller) (s : ℕ) (k : Kernel) → IsQuiet k → After (Atomic k) (stop_all c s k)
unfolding stop_all
stop_all-Atomic c s k q = ground arith

start_monitoring-Atomic :
    (c : Caller) (s : ℕ) (pid : ℤ) (v : ℕ) (k : Kernel)
    → IsQuiet k
    → c.owner c.pid ≡ some v
    → After (Atomic k) (start_monitoring c s pid k)
unfolding start_monitoring start_for start_all start_one
start_monitoring-Atomic c s (negsuc n) v k q hv = ground arith
start_monitoring-Atomic c s (pos p) v k q hv = elim (Option-cases (c.owner p)) [
  | inl e ↦ ground arith
  | inr (u, e) ↦ ground arith
]

stop_monitoring-Atomic :
    (c : Caller) (s : ℕ) (pid : ℤ) (v : ℕ) (k : Kernel)
    → IsQuiet k
    → c.owner c.pid ≡ some v
    → After (Atomic k) (stop_monitoring c s pid k)
unfolding stop_monitoring stop_for stop_all stop_one
stop_monitoring-Atomic c s (negsuc n) v k q hv = ground arith
stop_monitoring-Atomic c s (pos p) v k q hv = elim (Option-cases (c.owner p)) [
  | inl e ↦ ground arith
  | inr (u, e) ↦ ground arith
]

dispatch-Atomic :
    (c : Caller) (m : Command) (s : ℕ) (pid : ℤ) (v : ℕ) (k : Kernel)
    → IsQuiet k
    → c.owner c.pid ≡ some v
    → After (Atomic k) (dispatch c m s pid k)
dispatch-Atomic c intercepts s pid v k q hv = intercept-Atomic c s k q
dispatch-Atomic c releases s pid v k q hv = release-Atomic c s k q
dispatch-Atomic c starts s pid v k q hv = start_monitoring-Atomic c s pid v k q hv
dispatch-Atomic c stops s pid v k q hv = stop_monitoring-Atomic c s pid v k q hv
dispatch-Atomic c unknown s pid v k q hv = refl

-- Whatever the arguments, a call of my_syscall by a process that exists, with both spin locks free
-- and the system call table read-only, returns with the locks free again and the table read-only,
-- and a call that reports an error leaves the whole state as it was.
pub my_syscall-Atomic :
    (nr : ℕ) (c : Caller) (cmd syscall pid : ℤ) {v : ℕ} (k : Kernel)
    → IsQuiet k
    → c.owner c.pid ≡ some v
    → After (Atomic k) (my_syscall nr c cmd syscall pid k)
unfolding my_syscall
my_syscall-Atomic nr c cmd (negsuc n) pid k q hv = refl
my_syscall-Atomic nr c cmd (pos s) pid {v} k q hv = elim (Bool-cases (ltb nr s || (s == 0))) [
  | inl e ↦ rw e refl
  | inr e ↦ rw e (dispatch-Atomic c (command cmd) s pid v k q hv)
]
