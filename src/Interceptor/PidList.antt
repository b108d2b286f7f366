-- ===== src/Interceptor/PidList.antt =====
-- interceptor.c, lines 93 to 230: the operations on the lists of monitored pids.
pub mod Unlink
use kernel_programming_proje.Base.{
  ℕ, zero, suc, ◌+◌, ◌-◌, Bool, true, false, ◌&&◌, none, some, List, [], ◌∷◌, ◌==◌, if◌then◌else◌,
  has, pos, ◌+ℤ◌, ◌-ℤ◌, is_zero,
}
use kernel_programming_proje.Interceptor.Kernel.{
  Entry, Caller, einval, eperm, enomem, Status, ok, err, M, ◌>>=◌, ◌>>◌, pure, when◌then◌else◌,
  get_entry, set_entry,
}

-- add_pid_sysc: the new pid goes to the front of the list.
abbrev pub with_pid : ℕ → Entry → Entry
with_pid pid e = record e { my_list = pid ∷ e.my_list; listcount = e.listcount +ℤ pos 1 }

unfoldable pub add_pid_sysc : Caller → ℕ → ℕ → M Status
add_pid_sysc c pid s =
    when c.memory
    then (do e ← get_entry s; set_entry s (with_pid pid e); pure ok)
    else pure (err enomem)

-- The list without the first node that holds the pid.
unfoldable pub unlink : ℕ → List ℕ → List ℕ
unlink pid [] = []
unlink pid (p ∷ ps) = if p == pid then ps else p ∷ unlink pid ps

-- One node is gone: count it, and stop the monitoring if none is left and it is for some pids.
abbrev pub discount : Entry → Entry
discount e =
    let n = e.listcount -ℤ pos 1 in
    record e {
      listcount = n;
      monitored = if is_zero n && (e.monitored == 1) then 0 else e.monitored;
    }

unfoldable pub del_pid_sysc : ℕ → ℕ → M Status
unfolding unlink
del_pid_sysc pid s = do
  e ← get_entry s
  when has pid e.my_list
      then (do set_entry s (discount (record e { my_list = unlink pid e.my_list })); pure ok)
      else pure (err einval)

-- The loop of del_pid over one list: it visits every node, and the flag says whether it met one.
unfoldable pub sweep : ℕ → List ℕ → Entry → Bool → Entry × Bool
sweep pid [] e found = (e, found)
sweep pid (p ∷ ps) e found =
    let (e', hit) =
      if p == pid
      then (discount (record e { my_list = unlink p e.my_list }), true)
      else (e, found) in
    sweep pid ps e' hit

-- The outer loop of del_pid, over the `n` system calls from `s` on.
unfoldable pub del_pid_from : ℕ → ℕ → ℕ → Bool → M Bool
unfolding sweep
del_pid_from zero s pid found = pure found
del_pid_from (suc n) s pid found = do
  e ← get_entry s
  let (e', hit) = sweep pid e.my_list e found
  set_entry s e'
  del_pid_from n (s + 1) pid hit

-- `for (s = 1; s < NR_syscalls; s++)`.
unfoldable pub del_pid : ℕ → ℕ → M Bool
unfolding del_pid_from
del_pid nr_syscalls pid = del_pid_from (nr_syscalls - 1) 1 pid false

unfoldable pub destroy_list : ℕ → M (Unit {0})
destroy_list s = do
  e ← get_entry s
  set_entry s (record e { my_list = []; listcount = pos 0; monitored = 0 })

-- check_pid_from_list follows both task pointers, and faults on a process that is not there.
unfoldable pub check_pid_from_list : Caller → ℕ → ℕ → M Status
check_pid_from_list c p q k = elim (c.owner p) [
  | none ↦ none
  | some u ↦ elim (c.owner q) [
    | none ↦ none
    | some v ↦ some ((if u == v then ok else err eperm), k)
  ]
]

unfoldable pub check_pid_monitored : ℕ → ℕ → M Bool
check_pid_monitored s pid = do e ← get_entry s; pure (has pid e.my_list)
