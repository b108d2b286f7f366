-- ===== src/Interceptor/Module/ExitGroup.antt =====
-- A process that exits (interceptor.c, lines 144 to 177 and 253 to 258).
use kernel_programming_proje.Base.{
  After, After-map, After-bind, put, ℕ, zero, suc, ◌+◌, ◌-◌, ◌<◌, ◌≡◌, ◌≢◌, refl, true, false, Bool,
  ◌&&◌, List, [], ◌∷◌, if◌then◌else◌, arith, leb, ltb, has, Distinct,
}
use kernel_programming_proje.Interceptor.Kernel.{Handler, Kernel, Entry, Caller, lock_pidlist}
use kernel_programming_proje.Interceptor.PidList.{unlink, discount, sweep, del_pid_from, del_pid}
use kernel_programming_proje.Interceptor.PidList.Unlink.{has-unlink, unlink-Distinct, length-unlink}
use kernel_programming_proje.Interceptor.Sound.{watches, Sound, IsSound}
use kernel_programming_proje.Interceptor.Commands.Outcome.{IsQuiet}
use kernel_programming_proje.Interceptor.Module.{my_exit_group}

-- The entry without the pid.
abbrev pub dropped : ℕ → Entry → Entry
dropped p e = discount (record e { my_list = unlink p e.my_list })

abbrev pub cleared : ℕ → Entry → Entry
cleared p e = if has p e.my_list then dropped p e else e

sweep_none :
    (p : ℕ) (ps : List ℕ) (e : Entry) (b : Bool) → has p ps ≡ false → sweep p ps e b ≡ (e, b)
unfolding sweep
sweep_none p [] e b h = refl
sweep_none p (x ∷ ps) e b h = ground (arith, sweep_none p ps e b)

sweep_some :
    (p : ℕ) (ps : List ℕ) (e : Entry) (b : Bool)
    → Distinct ps
    → has p ps ≡ true
    → sweep p ps e b ≡ (dropped p e, true)
unfolding sweep
sweep_some p [] e b d h = ground arith
sweep_some p (x ∷ ps) e b d h =
    ground (arith, sweep_some p ps e b, sweep_none p ps (dropped p e) true)

sweep-cleared :
    (p : ℕ) (e : Entry) (b : Bool) → Distinct e.my_list → (sweep p e.my_list e b).0 ≡ cleared p e
sweep-cleared p e b d = ground (arith, sweep_none p e.my_list e b, sweep_some p e.my_list e b)

cleared-Distinct : (p : ℕ) (e : Entry) → Distinct e.my_list → Distinct (cleared p e).my_list
cleared-Distinct p e d = ground (arith, unlink-Distinct p e.my_list)

-- The table after the entries from `s` up to `s + n` are cleared.
abbrev pub cleared_at : ℕ → ℕ → ℕ → (ℕ → Entry) → ℕ → Entry
cleared_at n s p t j = if leb s j && ltb j (s + n) then cleared p (t j) else t j

abbrev Cleared : ℕ → ℕ → ℕ → Kernel → Bool → Kernel → Type 0
Cleared n s p k b k' =
    (k' ≡ record k { table = k'.table }) × ((j : ℕ) → k'.table j ≡ cleared_at n s p k.table j)

del_pid_from-Cleared :
    (n s p : ℕ) (b : Bool) (k : Kernel)
    → ((j : ℕ) → Distinct (k.table j).my_list)
    → After (Cleared n s p k) (del_pid_from n s p b k)
unfolding del_pid_from
del_pid_from-Cleared zero s p b k d = (refl, λ j. ground arith)
del_pid_from-Cleared (suc n) s p b k d =
    let e = (sweep p (k.table s).my_list (k.table s) b).0 in
    let e-is : e ≡ cleared p (k.table s) = sweep-cleared p (k.table s) b (d s) in
    let next : Kernel = record k { table = put k.table s e } in
    After-map (Cleared n (s + 1) p next) (Cleared (suc n) s p k)
      (del_pid_from n (s + 1) p (sweep p (k.table s).my_list (k.table s) b).1 next)
      (del_pid_from-Cleared n (s + 1) p (sweep p (k.table s).my_list (k.table s) b).1 next
        λ j. ground (arith, d j, d s, cleared-Distinct p (k.table s)))
      λ b' k' r. (r.0, λ j. ground (arith, r.1 j))

module _ (p : ℕ) (e : Entry) {h : Handler} (ok : IsSound e h) where
  has-cleared : has p (cleared p e).my_list ≡ false
  has-cleared = ground (arith, has-unlink p p e.my_list)

  watches-cleared : (q : ℕ) → q ≢ p → watches (cleared p e) q ≡ watches e q
  watches-cleared q ne = ground (arith, has-unlink p q e.my_list, length-unlink p e.my_list)

  cleared-IsSound : IsSound (cleared p e) h
  cleared-IsSound = ground (arith, unlink-Distinct p e.my_list, length-unlink p e.my_list)

-- With sound entries, the locks free and the table read-only: when a process exits, its pid is on
-- no list of a system call from 1 to NR_syscalls - 1 any more, every other process is logged for
-- the same system calls as before, every entry stays sound, and the module goes on to the
-- exit_group that it saved, with the locks free again.
pub my_exit_group-lists :
    (nr : ℕ) (c : Caller) (k : Kernel)
    → IsQuiet k
    → ((j : ℕ) → Sound k j)
    → After
        (λ h k'.
          (h ≡ k.orig_exit_group)
          × IsQuiet k'
          × ((j : ℕ) → 0 < j → j < nr → has c.pid (k'.table j).my_list ≡ false)
          × ((j q : ℕ) → q ≢ c.pid → watches (k'.table j) q ≡ watches (k.table j) q)
          × ((j : ℕ) → Sound k' j))
        (my_exit_group nr c k)
unfolding my_exit_group del_pid
my_exit_group-lists nr c k z all =
    After-bind (λ _ k'. k' ≡ record k { pidlist_lock = true }) _ (lock_pidlist k) _ (ground arith)
      λ _ k1 e.
        After-bind (Cleared (nr - 1) 1 c.pid k1) _ (del_pid_from (nr - 1) 1 c.pid false k1) _
          (del_pid_from-Cleared (nr - 1) 1 c.pid false k1 λ j. ground (arith, all j))
          λ b k2 r. (
            ground (arith, r.0),
            ground (arith, r.0),
            λ j lo hi. ground (arith, r.1 j, has-cleared c.pid (k.table j) (all j)),
            λ j q ne. ground (arith, r.1 j, watches-cleared c.pid (k.table j) (all j) q ne),
            λ j. ground (arith, r.0, r.1 j, all j, cleared-IsSound c.pid (k.table j) (all j)),
          )

-- With sound entries, the locks free, the table read-only and NR_syscalls above 0, del_pid stops
-- one system call short: whatever process exits, the list of system call number NR_syscalls, which
-- my_syscall accepts, still holds the pid of the process if it did before.
pub my_exit_group-last :
    (nr : ℕ) (c : Caller) (k : Kernel)
    → IsQuiet k
    → ((j : ℕ) → Sound k j)
    → 0 < nr
    → After (λ h k'. k'.table nr ≡ k.table nr) (my_exit_group nr c k)
unfolding my_exit_group del_pid
my_exit_group-last nr c k z all more =
    After-bind (λ _ k'. k' ≡ record k { pidlist_lock = true }) _ (lock_pidlist k) _ (ground arith)
      λ _ k1 e.
        After-bind (Cleared (nr - 1) 1 c.pid k1) _ (del_pid_from (nr - 1) 1 c.pid false k1) _
          (del_pid_from-Cleared (nr - 1) 1 c.pid false k1 λ j. ground (arith, all j))
          λ b k2 r. ground (arith, r.1 nr)
