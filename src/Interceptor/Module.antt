-- ===== src/Interceptor/Module.antt =====
-- interceptor.c, lines 240 to 292 and 593 to 686: the generic interceptor, the hijacked exit_group,
-- loading and unloading. Where the C code calls a function through a pointer, the model returns the
-- handler that is called: its own code is the kernel's.
pub mod Logging
pub mod ExitGroup
pub mod Loading
use kernel_programming_proje.Base.{ℕ, zero, suc, ◌+◌, not, ◌&&◌, ◌||◌, some, [], ◌∷◌, ◌==◌, pos}
use kernel_programming_proje.Interceptor.Kernel.{
  Handler, null, my_syscall_fn, my_exit_group_fn, Caller, Message, M, ◌>>=◌, ◌>>◌, pure,
  when◌then◌else◌, get_entry, set_entry, lock_pidlist, unlock_pidlist, lock_calltable,
  unlock_calltable, set_addr_rw, set_addr_ro, get_sys_call, set_sys_call, print,
}
use kernel_programming_proje.Interceptor.PidList.{del_pid, destroy_list, check_pid_monitored}

-- The part of `struct pt_regs` that the module reads.
pub record Registers : Type 0 where
  pub ax : ℕ
  pub bx : ℕ
  pub cx : ℕ
  pub dx : ℕ
  pub si : ℕ
  pub di : ℕ
  pub bp : ℕ

abbrev pub message : ℕ → Registers → Message
message p r = record {
  pid = p;
  syscall = r.ax;
  args = r.bx ∷ r.cx ∷ r.dx ∷ r.si ∷ r.di ∷ r.bp ∷ [];
}

-- `monitored` is 2 for all processes but the listed ones, and 1 for the listed ones.
unfoldable pub interceptor : Caller → Registers → M Handler
unfolding check_pid_monitored
interceptor c r = do
  lock_calltable
  lock_pidlist
  e ← get_entry r.ax
  m ← check_pid_monitored r.ax c.pid
  when (e.monitored == 2) && not m || (e.monitored == 1) && m
      then print (message c.pid r)
      else pure tt
  unlock_pidlist
  unlock_calltable
  t ← get_entry r.ax
  pure t.f

unfoldable pub my_exit_group : ℕ → Caller → M Handler
my_exit_group nr c = do
  lock_pidlist
  _ ← del_pid nr c.pid
  unlock_pidlist
  (λ k. some (k.orig_exit_group, k))

-- The body of init_function's loop.
abbrev pub init_entry : ℕ → M (Unit {0})
init_entry i = do
  lock_calltable
  e ← get_entry i
  set_entry i (record e { f = null; monitored = 0 })
  unlock_calltable
  lock_pidlist
  t ← get_entry i
  set_entry i (record t { intercepted = 0; listcount = pos 0; my_list = [] })
  unlock_pidlist

-- The loop over the `n` entries from `i` on.
unfoldable pub init_entries : ℕ → ℕ → M (Unit {0})
init_entries zero i = pure tt
init_entries (suc n) i = init_entry i >> init_entries n (i + 1)

-- `nr` and `exit_group` are the kernel's NR_syscalls and __NR_exit_group.
unfoldable pub init_function : ℕ → ℕ → M (Unit {0})
unfolding init_entries
init_function nr exit_group = do
  custom ← get_sys_call 0
  (λ k. some (tt, record k { orig_custom_syscall = custom }))
  group ← get_sys_call 0
  (λ k. some (tt, record k { orig_exit_group = group }))
  lock_calltable
  set_addr_rw
  set_sys_call 0 my_syscall_fn
  set_sys_call exit_group my_exit_group_fn
  set_addr_ro
  unlock_calltable
  init_entries nr 1

-- The body of exit_function's loop.
unfoldable pub clear_entry : ℕ → M (Unit {0})
unfolding destroy_list
clear_entry i = do
  lock_pidlist
  e ← get_entry i
  when e.intercepted == 1 then (do set_addr_rw; set_sys_call i e.f; set_addr_ro) else pure tt
  destroy_list i
  unlock_pidlist

unfoldable pub clear_entries : ℕ → ℕ → M (Unit {0})
unfolding clear_entry
clear_entries zero i = pure tt
clear_entries (suc n) i = clear_entry i >> clear_entries n (i + 1)

unfoldable pub exit_function : ℕ → ℕ → M (Unit {0})
unfolding clear_entries
exit_function nr exit_group = do
  lock_calltable
  set_addr_rw
  (λ k. set_sys_call 0 k.orig_custom_syscall k)
  (λ k. set_sys_call exit_group k.orig_exit_group k)
  set_addr_ro
  unlock_calltable
  clear_entries nr 1
