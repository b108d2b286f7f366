-- ===== src/Interceptor/Sound.antt =====
-- What the entries of `table` and the slots of sys_call_table always satisfy (interceptor.c, lines
-- 61 to 78), and the meaning of an entry: which processes its system call is logged for.
use kernel_programming_proje.Base.{
  ℕ, ◌*◌, ◌≤◌, ◌≡◌, ◌≢◌, Bool, not, ◌&&◌, ◌||◌, [], ◌==◌, has, Distinct, length, pos, ◌≤ℤ◌,
}
use kernel_programming_proje.Interceptor.Kernel.{Handler, interceptor_fn, Entry, Kernel}

-- Every listed pid is counted twice, by add_pid_sysc and by its caller; del_pid counts one down.
pub record IsSound (e : Entry) (h : Handler) : Type 0 where
  pub switch : e.intercepted ≤ 1
  pub mode : e.monitored ≤ 2
  pub idle : e.monitored ≡ 0 → e.my_list ≡ []
  pub off : e.intercepted ≡ 0 → e.monitored ≡ 0
  pub distinct : Distinct e.my_list
  pub counted : pos (2 * length e.my_list) ≤ℤ e.listcount
  pub hooked : e.intercepted ≡ 1 → h ≡ interceptor_fn
  pub unhooked : e.intercepted ≡ 0 → h ≢ interceptor_fn
  pub saved : e.intercepted ≡ 1 → e.f ≢ interceptor_fn

abbrev pub Sound : Kernel → ℕ → Type 0
Sound k j = IsSound (k.table j) (k.sys_call_table j)

-- Whether a call by the process `q` is logged.
abbrev pub watches : Entry → ℕ → Bool
watches e q = (e.monitored == 2) && not (has q e.my_list) || (e.monitored == 1) && has q e.my_list
