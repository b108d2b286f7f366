-- ===== src/Interceptor/Commands/Monitoring.antt =====
-- Which processes a system call is logged for after REQUEST_START_MONITORING and
-- REQUEST_STOP_MONITORING (interceptor.c, lines 404 to 585), and what the commands answer.
use kernel_programming_proje.Base.{
  After, ℕ, ◌≡◌, ◌≢◌, not, ◌&&◌, ◌||◌, some, pos, arith, ◌==◌, if◌then◌else◌,
}
use kernel_programming_proje.Interceptor.Kernel.{
  Kernel, Entry, Caller, Status, ok, err, einval, eperm, ebusy, enomem,
}
use kernel_programming_proje.Interceptor.PidList.Unlink.{has-unlink, length-unlink}
use kernel_programming_proje.Interceptor.Sound.{Sound, watches}
use kernel_programming_proje.Interceptor.Commands.Outcome.{IsQuiet, unlocked-IsQuiet}
use kernel_programming_proje.Interceptor.Commands.{
  start_all, start_one, start_for, stop_all, stop_one, stop_for, start_monitoring, stop_monitoring,
  is_ok,
}

-- What REQUEST_START_MONITORING promises for a process of user `u`, asked by one of user `v`.
abbrev pub start_answer : Caller → (u v : ℕ) → Entry → ℕ → Status
start_answer c u v e p =
    if not (c.uid == 0) && not (u == v)
    then err eperm
    else if watches e p
    then err ebusy
    else if (e.monitored == 2) || c.memory
    then ok
    else err enomem

abbrev pub stop_answer : Caller → (u v : ℕ) → Entry → ℕ → Status
stop_answer c u v e p =
    if not (c.uid == 0) && not (u == v)
    then err eperm
    else if not (watches e p)
    then err einval
    else if (e.monitored == 1) || c.memory
    then ok
    else err enomem

module _ (c : Caller) (s p : ℕ) {u v : ℕ} (hv : c.owner c.pid ≡ some v)
    (hu : c.owner p ≡ some u) where
  start_one-watches :
      (k : Kernel)
      → IsQuiet k
      → Sound k s
      → (k.table s).intercepted ≡ 1
      → (q : ℕ)
      → After
          (λ r k'.
            (r ≡ start_answer c u v (k.table s) p)
            × (watches (k'.table s) q ≡ (watches (k.table s) q || is_ok r && (p == q))))
          (start_one c s p k)
  unfolding start_one
  start_one-watches k z here on q = ground (arith, has-unlink p q (k.table s).my_list)

  stop_one-watches :
      (k : Kernel)
      → IsQuiet k
      → Sound k s
      → (q : ℕ)
      → After
          (λ r k'.
            (r ≡ stop_answer c u v (k.table s) p)
            × (watches (k'.table s) q ≡ (watches (k.table s) q && not (is_ok r && (p == q)))))
          (stop_one c s p k)
  unfolding stop_one
  stop_one-watches k z here q =
      ground (arith, has-unlink p q (k.table s).my_list, length-unlink p (k.table s).my_list)

-- REQUEST_START_MONITORING by and for an existing process other than 0, on an intercepted system
-- call whose entry is sound, with the locks free and the table read-only: the answer is the
-- documented one, in the documented order (no permission, already monitored, no memory), and
-- afterwards the system call is logged for that process too if the answer is 0, and for the same
-- processes as before if not.
pub start_monitoring-watches :
    (c : Caller) (s p : ℕ) {u v : ℕ} (k : Kernel)
    → c.owner c.pid ≡ some v
    → c.owner p ≡ some u
    → p ≢ 0
    → IsQuiet k
    → Sound k s
    → (k.table s).intercepted ≡ 1
    → (q : ℕ)
    → After
        (λ r k'.
          (r ≡ start_answer c u v (k.table s) p)
          × (watches (k'.table s) q ≡ (watches (k.table s) q || is_ok r && (p == q))))
        (start_monitoring c s (pos p) k)
unfolding start_monitoring start_for
start_monitoring-watches c s p k hv hu ne z here on q =
    ground (arith, start_one-watches c s p hv hu _ (unlocked-IsQuiet z) here on q)

-- REQUEST_STOP_MONITORING by and for an existing process other than 0, on an intercepted system
-- call whose entry is sound, with the locks free and the table read-only: the answer is the
-- documented one (no permission, not monitored, no memory), and afterwards the system call is no
-- longer logged for that process if the answer is 0, and is for every other process as before.
pub stop_monitoring-watches :
    (c : Caller) (s p : ℕ) {u v : ℕ} (k : Kernel)
    → c.owner c.pid ≡ some v
    → c.owner p ≡ some u
    → p ≢ 0
    → IsQuiet k
    → Sound k s
    → (k.table s).intercepted ≡ 1
    → (q : ℕ)
    → After
        (λ r k'.
          (r ≡ stop_answer c u v (k.table s) p)
          × (watches (k'.table s) q ≡ (watches (k.table s) q && not (is_ok r && (p == q)))))
        (stop_monitoring c s (pos p) k)
unfolding stop_monitoring stop_for
stop_monitoring-watches c s p k hv hu ne z here on q =
    ground (arith, stop_one-watches c s p hv hu _ (unlocked-IsQuiet z) here q)

-- With pid 0, on an intercepted system call, with the locks free and the table read-only, the
-- monitoring commands are root's alone. Starting is refused with EBUSY in the mode for all
-- processes, and otherwise logs the system call for every process; stopping is refused with EINVAL
-- where nothing is monitored, and otherwise logs it for none.
pub all_processes :
    (c : Caller) (s : ℕ) (k : Kernel)
    → IsQuiet k
    → (k.table s).intercepted ≡ 1
    → (q : ℕ)
    → After
        (λ r k'.
          (r ≡ (
            if not (c.uid == 0)
            then err eperm
            else if (k.table s).monitored == 2
            then err ebusy
            else ok))
          × (watches (k'.table s) q ≡ (is_ok r || watches (k.table s) q)))
        (start_monitoring c s (pos 0) k)
      × After
          (λ r k'.
            (r ≡ (
              if not (c.uid == 0)
              then err eperm
              else if (k.table s).monitored == 0
              then err einval
              else ok))
            × (watches (k'.table s) q ≡ (not (is_ok r) && watches (k.table s) q)))
          (stop_monitoring c s (pos 0) k)
unfolding start_monitoring stop_monitoring start_for stop_for start_all stop_all
all_processes c s k z on q = (ground arith, ground arith)
