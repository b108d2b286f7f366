-- ===== src/Interceptor/Module/Logging.antt =====
-- The generic interceptor (interceptor.c, lines 263 to 292), and a system call that is intercepted
-- and then released.
use kernel_programming_proje.Base.{After, ℕ, ◌≡◌, [], ◌∷◌, if◌then◌else◌, arith}
use kernel_programming_proje.Interceptor.Kernel.{Message, Kernel, Caller, ok}
use kernel_programming_proje.Interceptor.Sound.{watches, Sound}
use kernel_programming_proje.Interceptor.Commands.Outcome.{IsQuiet}
use kernel_programming_proje.Interceptor.Commands.{intercept, release}
use kernel_programming_proje.Interceptor.Module.{Registers, interceptor}

-- The message that log_message prints: the pid, the system call's number in ax, and the arguments in
-- bx, cx, dx, si, di and bp.
abbrev pub logged : ℕ → Registers → Message
logged pid r = record {
  pid = pid;
  syscall = r.ax;
  args = r.bx ∷ r.cx ∷ r.dx ∷ r.si ∷ r.di ∷ r.bp ∷ [];
}

-- With the locks free and the table read-only, an intercepted system call logs one message with the
-- caller's pid, the number in ax and the registers bx, cx, dx, si, di and bp in order if the entry watches the caller, and nothing if not; either way it
-- goes on to the saved system call, with the locks free again and nothing else changed.
pub interceptor-log :
    (c : Caller) (r : Registers) (k : Kernel)
    → IsQuiet k
    → After
        (λ h k'.
          (h ≡ (k.table r.ax).f)
          × (k' ≡ record k {
            log = if watches (k.table r.ax) c.pid then logged c.pid r ∷ k.log else k.log;
          }))
        (interceptor c r k)
unfolding interceptor
interceptor-log c r k q = ground arith

-- With the locks free, the table read-only and a sound entry that is not intercepted, intercepting
-- a system call and releasing it again answers 0 both times for root, puts every slot of the system
-- call table back, and leaves the system call with no process watched.
pub release-intercept :
    (c : Caller) (s : ℕ) (k : Kernel)
    → IsQuiet k
    → Sound k s
    → c.uid ≡ 0
    → (k.table s).intercepted ≡ 0
    → (j : ℕ)
    → After
        (λ r k'.
          (r ≡ ok)
          × After
              (λ r' k''.
                (r' ≡ ok)
                × (k''.sys_call_table j ≡ k.sys_call_table j)
                × ((k''.table s).intercepted ≡ 0)
                × ((k''.table s).monitored ≡ 0))
              (release c s k'))
        (intercept c s k)
unfolding intercept release
release-intercept c s k q here root off j = ground arith
