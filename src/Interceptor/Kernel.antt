-- ===== src/Interceptor/Kernel.antt =====
-- interceptor.c: the globals (lines 54 to 83, 244, 596), and what the handlers call of the kernel.
-- A handler is a function from the kernel's state that returns a value and the new state, or
-- `none` where the C code never returns properly: a spin lock taken twice by one caller, or a null
-- pointer followed.
use kernel_programming_proje.Base.{ℕ, Bool, true, false, List, ◌∷◌, Option, none, some, ℤ, put}

-- What a slot of sys_call_table points at: the kernel's own function number n, one of the module's
-- three functions, or NULL.
pub data Handler : Type 0 where
  null : Handler
  original : ℕ → Handler
  my_syscall_fn my_exit_group_fn interceptor_fn : Handler

-- `mytable`. The list holds pids, the newest first.
pub record Entry : Type 0 where
  pub f : Handler
  pub intercepted : ℕ
  pub monitored : ℕ
  pub listcount : ℤ
  pub my_list : List ℕ

-- What `log_message` prints: the pid, the system call number and the six arguments.
pub record Message : Type 0 where
  pub pid : ℕ
  pub syscall : ℕ
  pub args : List ℕ

pub record Kernel : Type 0 where
  pub table : ℕ → Entry
  pub sys_call_table : ℕ → Handler
  pub writable : Bool
  pub pidlist_lock : Bool
  pub calltable_lock : Bool
  pub orig_exit_group : Handler
  pub orig_custom_syscall : Handler
  pub log : List Message

-- The caller of a handler: current_uid(), current->pid, the owner of each live process (`none`
-- where pid_task(find_vpid(pid)) is NULL), and whether kmalloc has memory to give.
pub record Caller : Type 0 where
  pub uid : ℕ
  pub pid : ℕ
  pub owner : ℕ → Option ℕ
  pub memory : Bool

pub data Errno : Type 0 where
  einval eperm ebusy enomem : Errno

-- The result of a handler: 0, or a negated error number.
pub data Status : Type 0 where
  ok : Status
  err : Errno → Status

abbrev pub M : Type 0 → Type 0
M A = Kernel → Option (A × Kernel)

infixl 5 ◌>>=◌ ◌>>◌
abbrev pub ◌>>=◌ : {A B : Type 0} → M A → (A → M B) → M B
◌>>=◌ m f k = elim (m k) [ none ↦ none | some (a, k') ↦ f a k' ]

abbrev pub ◌>>◌ : {B : Type 0} → M (Unit {0}) → M B → M B
m >> n = m >>= λ _. n

abbrev pub pure : {A : Type 0} → A → M A
pure a k = some (a, k)

-- The C statement `if`: the branch that is not taken does not run.
infix 1 when◌then◌else◌
abbrev pub when◌then◌else◌ : {A : Type 0} → Bool → M A → M A → M A
when◌then◌else◌ b m n k = elim b [ true ↦ m k | false ↦ n k ]

-- spin_lock and spin_unlock. Taking a lock that the caller holds already never returns.
abbrev pub lock_pidlist : M (Unit {0})
lock_pidlist k = elim k.pidlist_lock [
  | true ↦ none
  | false ↦ some (tt, record k { pidlist_lock = true })
]

abbrev pub unlock_pidlist : M (Unit {0})
unlock_pidlist k = some (tt, record k { pidlist_lock = false })

abbrev pub lock_calltable : M (Unit {0})
lock_calltable k = elim k.calltable_lock [
  | true ↦ none
  | false ↦ some (tt, record k { calltable_lock = true })
]

abbrev pub unlock_calltable : M (Unit {0})
unlock_calltable k = some (tt, record k { calltable_lock = false })

-- set_addr_rw and set_addr_ro, on the page of sys_call_table.
abbrev pub set_addr_rw : M (Unit {0})
set_addr_rw k = some (tt, record k { writable = true })

abbrev pub set_addr_ro : M (Unit {0})
set_addr_ro k = some (tt, record k { writable = false })

-- A write to sys_call_table faults while its page is read-only.
abbrev pub set_sys_call : ℕ → Handler → M (Unit {0})
set_sys_call s h k = elim k.writable [
  | true ↦ some (tt, record k { sys_call_table = put k.sys_call_table s h })
  | false ↦ none
]

abbrev pub get_sys_call : ℕ → M Handler
get_sys_call s k = some (k.sys_call_table s, k)

abbrev pub get_entry : ℕ → M Entry
get_entry s k = some (k.table s, k)

abbrev pub set_entry : ℕ → Entry → M (Unit {0})
set_entry s e k = some (tt, record k { table = put k.table s e })

abbrev pub print : Message → M (Unit {0})
print m k = some (tt, record k { log = m ∷ k.log })
