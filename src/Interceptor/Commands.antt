-- ===== src/Interceptor/Commands.antt =====
-- interceptor.c, lines 294 to 591: my_syscall, one function for each of its four commands. An
-- `int` argument is a signed number; the number of system calls is the parameter `nr`, the value
-- of the kernel's NR_syscalls. The caller's side is `Caller`.
pub mod Outcome
pub mod Safety
pub mod Monitoring
pub mod Permission
pub mod Locality
use kernel_programming_proje.Base.{
  ℕ, Bool, true, false, ◌||◌, Option, none, some, ltb, ◌==◌, if◌then◌else◌, ℤ, pos, negsuc, ◌+ℤ◌,
}
use kernel_programming_proje.Interceptor.Kernel.{
  interceptor_fn, Caller, einval, eperm, ebusy, enomem, Status, ok, err, M, ◌>>=◌, ◌>>◌, pure,
  when◌then◌else◌, get_entry, set_entry, lock_pidlist, unlock_pidlist, lock_calltable,
  unlock_calltable, set_addr_rw, set_addr_ro, get_sys_call, set_sys_call,
}
use kernel_programming_proje.Interceptor.PidList.{
  add_pid_sysc, del_pid_sysc, destroy_list, check_pid_from_list, check_pid_monitored,
}

-- `table[s].listcount += d`.
abbrev pub add_listcount : ℕ → ℤ → M (Unit {0})
add_listcount s d = do e ← get_entry s; set_entry s (record e { listcount = e.listcount +ℤ d })

abbrev pub set_intercepted : ℕ → ℕ → M (Unit {0})
set_intercepted s v = do e ← get_entry s; set_entry s (record e { intercepted = v })

abbrev pub set_monitored : ℕ → ℕ → M (Unit {0})
set_monitored s v = do e ← get_entry s; set_entry s (record e { monitored = v })

-- Leave the pid lists' critical region with a result.
abbrev pub leave : Status → M Status
leave r = do unlock_pidlist; pure r

abbrev pub is_ok : Status → Bool
is_ok ok = true
is_ok (err e) = false

abbrev pub is_some : {A : Type 0} → Option A → Bool
is_some none = false
is_some (some a) = true

-- REQUEST_SYSCALL_INTERCEPT.
unfoldable pub intercept : Caller → ℕ → M Status
intercept c s =
    when c.uid == 0
    then (do
      lock_pidlist
      e ← get_entry s
      when e.intercepted == 1 then leave (err ebusy) else do
        unlock_pidlist
        lock_calltable
        g ← get_sys_call s
        t ← get_entry s
        set_entry s (record t { f = g })
        set_addr_rw
        set_sys_call s interceptor_fn
        set_addr_ro
        unlock_calltable
        lock_pidlist
        set_intercepted s 1
        leave ok)
    else pure (err eperm)

-- REQUEST_SYSCALL_RELEASE.
unfoldable pub release : Caller → ℕ → M Status
unfolding destroy_list
release c s =
    when c.uid == 0
    then (do
      lock_pidlist
      e ← get_entry s
      when e.intercepted == 0 then leave (err einval) else do
        unlock_pidlist
        lock_calltable
        set_addr_rw
        t ← get_entry s
        set_sys_call s t.f
        set_addr_ro
        set_monitored s 0
        unlock_calltable
        lock_pidlist
        destroy_list s
        set_intercepted s 0
        leave ok)
    else pure (err eperm)

-- The caller is root, or owns the process `p`.
abbrev pub with_permission : Caller → ℕ → M Status → M Status
with_permission c p body =
    when c.uid == 0
    then body
    else do r ← check_pid_from_list c p c.pid; when is_ok r then body else pure (err eperm)

-- REQUEST_START_MONITORING with pid 0.
unfoldable pub start_all : Caller → ℕ → M Status
unfolding destroy_list
start_all c s =
    when c.uid == 0
    then (do
      lock_calltable
      e ← get_entry s
      when e.monitored == 2 then (do unlock_calltable; pure (err ebusy)) else do
        unlock_calltable
        lock_pidlist
        destroy_list s
        unlock_pidlist
        lock_calltable
        set_monitored s 2
        unlock_calltable
        pure ok)
    else pure (err eperm)

-- Put the pid on the list; the caller holds the pid lists' lock.
abbrev pub enlist : Caller → ℕ → ℕ → M Status → M Status
enlist c p s next = do
  r ← add_pid_sysc c p s
  when is_ok r then add_listcount s (pos 1) >> next else leave (err enomem)

-- Take the pid off the list; the caller holds the pid lists' lock.
abbrev pub delist : ℕ → ℕ → M Status
delist p s = do _ ← del_pid_sysc p s; add_listcount s (negsuc 0); leave ok

-- REQUEST_START_MONITORING for one process, after the checks of the arguments.
unfoldable pub start_one : Caller → ℕ → ℕ → M Status
unfolding add_pid_sysc del_pid_sysc check_pid_from_list check_pid_monitored
start_one c s p = with_permission c p (do
  lock_calltable
  e ← get_entry s
  unlock_calltable
  lock_pidlist
  when e.monitored == 2
      then (do m ← check_pid_monitored s p; when m then delist p s else leave (err ebusy))
      else when e.monitored == 1
      then (do
        m ← check_pid_monitored s p
        when m then leave (err ebusy) else enlist c p s (leave ok))
      else enlist c p s
          (do unlock_pidlist; lock_calltable; set_monitored s 1; unlock_calltable; pure ok))

unfoldable pub start_for : Caller → ℕ → ℤ → M Status
start_for c s (negsuc n) = pure (err einval)
start_for c s (pos p) =
    when p == 0
    then start_all c s
    else when is_some (c.owner p)
    then start_one c s p
    else pure (err einval)

-- REQUEST_START_MONITORING.
unfoldable pub start_monitoring : Caller → ℕ → ℤ → M Status
start_monitoring c s pid = do
  lock_pidlist
  e ← get_entry s
  unlock_pidlist
  when e.intercepted == 0 then pure (err einval) else start_for c s pid

-- REQUEST_STOP_MONITORING with pid 0.
unfoldable pub stop_all : Caller → ℕ → M Status
unfolding destroy_list
stop_all c s =
    when c.uid == 0
    then (do
      lock_calltable
      e ← get_entry s
      unlock_calltable
      when e.monitored == 0 then pure (err einval) else do lock_pidlist; destroy_list s; leave ok)
    else pure (err eperm)

-- REQUEST_STOP_MONITORING for one process, after the checks of the arguments.
unfoldable pub stop_one : Caller → ℕ → ℕ → M Status
unfolding add_pid_sysc del_pid_sysc check_pid_from_list check_pid_monitored
stop_one c s p = with_permission c p (do
  lock_calltable
  e ← get_entry s
  unlock_calltable
  when e.monitored == 0 then pure (err einval) else do
    lock_pidlist
    m ← check_pid_monitored s p
    when e.monitored == 1
        then (when m then delist p s else leave (err einval))
        else (when m then leave (err einval) else enlist c p s (leave ok)))

unfoldable pub stop_for : Caller → ℕ → ℤ → M Status
stop_for c s (negsuc n) = pure (err einval)
stop_for c s (pos p) =
    when p == 0
    then stop_all c s
    else when is_some (c.owner p)
    then stop_one c s p
    else pure (err einval)

-- REQUEST_STOP_MONITORING.
unfoldable pub stop_monitoring : Caller → ℕ → ℤ → M Status
stop_monitoring c s pid = do
  lock_pidlist
  e ← get_entry s
  unlock_pidlist
  when e.intercepted == 0 then pure (err einval) else stop_for c s pid

-- REQUEST_SYSCALL_INTERCEPT to REQUEST_STOP_MONITORING of interceptor.h, and what else arrives.
pub data Command : Type 0 where
  intercepts releases starts stops unknown : Command

abbrev pub command : ℤ → Command
command (negsuc n) = unknown
command (pos n) =
    if n == 1
    then intercepts
    else if n == 2
    then releases
    else if n == 3
    then starts
    else if n == 4
    then stops
    else unknown

abbrev pub dispatch : Caller → Command → ℕ → ℤ → M Status
dispatch c intercepts s pid = intercept c s
dispatch c releases s pid = release c s
dispatch c starts s pid = start_monitoring c s pid
dispatch c stops s pid = stop_monitoring c s pid
dispatch c unknown s pid = pure (err einval)

unfoldable pub my_syscall : ℕ → Caller → ℤ → ℤ → ℤ → M Status
my_syscall nr c cmd (negsuc n) pid = pure (err einval)
my_syscall nr c cmd (pos s) pid =
    when ltb nr s || (s == 0) then pure (err einval) else dispatch c (command cmd) s pid
