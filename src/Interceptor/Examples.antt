-- ===== src/Interceptor/Examples.antt =====
-- The interceptor's theorems at two kernels: one before anything happened, and one in which mkdir
-- (39) is intercepted and monitored for process 7.
use kernel_programming_proje.Base.{
  After, ℕ, ◌≡◌, refl, ◌≢◌, ◌<◌, ◌≤◌, true, false, some, [], ◌∷◌, put, pos, arith, ◌==◌,
  if◌then◌else◌, has, ◌||◌, ◌&&◌, not,
}
use kernel_programming_proje.Interceptor.Kernel.{
  null, original, my_exit_group_fn, my_syscall_fn, interceptor_fn, Entry, Kernel, Caller, ok, err,
  ebusy,
}
use kernel_programming_proje.Interceptor.Sound.{Sound, watches}
use kernel_programming_proje.Interceptor.Commands.{
  intercept, release, start_one, start_for, start_monitoring, stop_monitoring, my_syscall, command,
  is_ok,
}
use kernel_programming_proje.Interceptor.Commands.Outcome.{Atomic, IsQuiet, my_syscall-Atomic}
use kernel_programming_proje.Interceptor.Commands.Safety.{my_syscall-Sound}
use kernel_programming_proje.Interceptor.Commands.Locality.{Same, my_syscall-Same}
use kernel_programming_proje.Interceptor.Commands.Permission.{allowed, Numbered, my_syscall-allowed}
use kernel_programming_proje.Interceptor.Commands.Monitoring.{
  start_answer, stop_answer, start_monitoring-watches, stop_monitoring-watches,
}
use kernel_programming_proje.Interceptor.Module.{
  Registers, interceptor, my_exit_group, init_function, exit_function,
}
use kernel_programming_proje.Interceptor.Module.Logging.{logged, interceptor-log, release-intercept}
use kernel_programming_proje.Interceptor.Module.ExitGroup.{my_exit_group-lists}
use kernel_programming_proje.Interceptor.Module.Loading.{
  blank, init_function-Sound, unload_load, exit_function-slots,
}

abbrev fresh : Kernel
fresh = record {
  table = λ j. blank;
  sys_call_table = λ j. original j;
  writable = false;
  pidlist_lock = false;
  calltable_lock = false;
  orig_exit_group = null;
  orig_custom_syscall = null;
  log = [];
}

abbrev mkdir_entry : Entry
mkdir_entry = record {
  f = original 39;
  intercepted = 1;
  monitored = 1;
  listcount = pos 2;
  my_list = 7 ∷ [];
}

abbrev watching : Kernel
watching = record fresh {
  table = put fresh.table 39 mkdir_entry;
  sys_call_table = put fresh.sys_call_table 39 interceptor_fn;
}

abbrev hijacked : Kernel
hijacked = record fresh { sys_call_table = put fresh.sys_call_table 94 my_exit_group_fn }

abbrev root : Caller
root = record { uid = 0; pid = 1; owner = λ p. some (if p == 1 then 0 else 500); memory = true }

-- A user's shell, process 7.
abbrev user : Caller
user = record root { uid = 500; pid = 7 }

fresh-IsQuiet : IsQuiet fresh
fresh-IsQuiet = record { pidlist = refl; calltable = refl; readonly = refl }

hijacked-IsQuiet : IsQuiet hijacked
hijacked-IsQuiet = record { pidlist = refl; calltable = refl; readonly = refl }

watching-IsQuiet : IsQuiet watching
watching-IsQuiet = record { pidlist = refl; calltable = refl; readonly = refl }

fresh-Sound : (j : ℕ) → Sound fresh j
fresh-Sound j = ground arith

watching-Sound : (j : ℕ) → Sound watching j
watching-Sound j = ground arith

abbrev registers : Registers
registers = record { ax = 39; bx = 1; cx = 2; dx = 3; si = 4; di = 5; bp = 6 }

-- REQUEST_START_MONITORING (3) of mkdir for process 7, by its owner: EBUSY.
my_syscall_busy : my_syscall 440 user (pos 3) (pos 39) (pos 7) watching ≡ some (err ebusy, watching)
unfolding my_syscall start_monitoring start_for start_one
my_syscall_busy = refl

my_syscall-Atomic_example :
    After (Atomic watching) (my_syscall 440 user (pos 3) (pos 39) (pos 7) watching)
my_syscall-Atomic_example =
    my_syscall-Atomic 440 user (pos 3) (pos 39) (pos 7) watching watching-IsQuiet refl

my_syscall-Sound_example :
    After (λ r k'. (j : ℕ) → Sound k' j) (my_syscall 440 root (pos 2) (pos 39) (pos 0) watching)
my_syscall-Sound_example =
    my_syscall-Sound 440 root (pos 2) (pos 39) (pos 0) watching watching-IsQuiet refl watching-Sound

start_monitoring-watches_example :
    After
      (λ r k'.
        (r ≡ start_answer root 500 0 (watching.table 39) 8)
        × (watches (k'.table 39) 8 ≡ (watches (watching.table 39) 8 || is_ok r && (8 == 8))))
      (start_monitoring root 39 (pos 8) watching)
start_monitoring-watches_example =
    start_monitoring-watches root 39 8 watching refl refl (omega arith) watching-IsQuiet
      (watching-Sound 39) refl 8

stop_monitoring-watches_example :
    After
      (λ r k'.
        (r ≡ stop_answer user 500 500 (watching.table 39) 7)
        × (watches (k'.table 39) 7 ≡ (watches (watching.table 39) 7 && not (is_ok r && (7 == 7)))))
      (stop_monitoring user 39 (pos 7) watching)
stop_monitoring-watches_example =
    stop_monitoring-watches user 39 7 watching refl refl (omega arith) watching-IsQuiet
      (watching-Sound 39) refl 7

my_syscall-Same_example :
    After (λ r k'. Same 39 watching k') (my_syscall 440 root (pos 1) (pos 57) (pos 0) watching)
my_syscall-Same_example =
    my_syscall-Same 440 root (pos 1) (pos 0) 57 39 watching watching-IsQuiet refl (omega arith)

my_syscall-allowed_example :
    After
      (λ r k'. r ≡ ok → (allowed user (command (pos 4)) (pos 7) ≡ true) × Numbered 440 (pos 39))
      (my_syscall 440 user (pos 4) (pos 39) (pos 7) watching)
my_syscall-allowed_example =
    my_syscall-allowed 440 user (pos 4) (pos 7) (pos 39) watching watching-IsQuiet refl

interceptor-log_example :
    After
      (λ h k'. (h ≡ original 39) × (k' ≡ record watching { log = logged 7 registers ∷ [] }))
      (interceptor user registers watching)
interceptor-log_example = interceptor-log user registers watching watching-IsQuiet

release-intercept_example :
    After
      (λ r k'.
        (r ≡ ok)
        × After
            (λ r' k''.
              (r' ≡ ok)
              × (k''.sys_call_table 57 ≡ original 57)
              × ((k''.table 57).intercepted ≡ 0)
              × ((k''.table 57).monitored ≡ 0))
            (release root 57 k'))
      (intercept root 57 watching)
release-intercept_example =
    release-intercept root 57 watching watching-IsQuiet (watching-Sound 57) refl refl 57

my_exit_group-lists_example :
    After
      (λ h k'.
        (h ≡ null)
        × IsQuiet k'
        × ((j : ℕ) → 0 < j → j < 440 → has 7 (k'.table j).my_list ≡ false)
        × ((j q : ℕ) → q ≢ 7 → watches (k'.table j) q ≡ watches (watching.table j) q)
        × ((j : ℕ) → Sound k' j))
      (my_exit_group 440 user watching)
my_exit_group-lists_example = my_exit_group-lists 440 user watching watching-IsQuiet watching-Sound

init_function-Sound_example :
    After
      (λ u k'.
        (k'.sys_call_table 94 ≡ my_exit_group_fn)
        × (◌≢◌ {A = ℕ} 94 0 → k'.sys_call_table 0 ≡ my_syscall_fn)
        × ((j : ℕ) → j ≢ 0 → j ≢ 94 → k'.sys_call_table j ≡ original j)
        × ((j : ℕ) → 0 < j → j ≤ 440 → Sound k' j × ((q : ℕ) → watches (k'.table j) q ≡ false)))
      (init_function 440 94 fresh)
init_function-Sound_example = init_function-Sound 440 94 fresh fresh-IsQuiet (λ j. ground arith)

unload_load_example :
    After
      (λ u k1.
        After
          (λ u' k2. (j : ℕ) → k2.sys_call_table j ≡ put fresh.sys_call_table 94 (original 0) j)
          (exit_function 440 94 k1))
      (init_function 440 94 fresh)
unload_load_example = unload_load 440 94 fresh fresh-IsQuiet

exit_function-slots_example :
    After
      (λ u k'.
        (j : ℕ)
        → 0 < j
        → j ≤ 440
        → ((watching.table j).intercepted ≡ 1 → k'.sys_call_table j ≡ (watching.table j).f)
          × ((watching.table j).intercepted ≢ 1
              → j ≢ 94
              → k'.sys_call_table j ≡ watching.sys_call_table j)
          × ((k'.table j).my_list ≡ []))
      (exit_function 440 94 watching)
exit_function-slots_example = exit_function-slots 440 94 watching watching-IsQuiet
