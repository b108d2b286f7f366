-- ===== src/Interceptor/PidList/Unlink.antt =====
-- The list of pids after one node is unlinked (interceptor.c, lines 117 to 142).
use kernel_programming_proje.Base.{
  ℕ, ◌+◌, ◌≡◌, refl, false, not, ◌&&◌, List, [], ◌∷◌, ◌==◌, if◌then◌else◌, has, Distinct, length,
  arith,
}
use kernel_programming_proje.Interceptor.PidList.{unlink}

-- With no pid twice in the list, only the unlinked pid is gone.
pub has-unlink :
    (p q : ℕ) (ps : List ℕ) → Distinct ps → has q (unlink p ps) ≡ (not (p == q) && has q ps)
unfolding unlink
has-unlink p q [] d = ground arith
has-unlink p q (x ∷ ps) d = ground (arith, has-unlink p q ps)

pub has-unlink_other : (p q : ℕ) (ps : List ℕ) → has q ps ≡ false → has q (unlink p ps) ≡ false
unfolding unlink
has-unlink_other p q [] h = refl
has-unlink_other p q (x ∷ ps) h = ground (arith, has-unlink_other p q ps)

pub unlink-Distinct : (p : ℕ) (ps : List ℕ) → Distinct ps → Distinct (unlink p ps)
unfolding unlink
unlink-Distinct p [] d = tt
unlink-Distinct p (x ∷ ps) d = ground (arith, unlink-Distinct p ps, has-unlink_other p x ps)

pub length-unlink :
    (p : ℕ) (ps : List ℕ) → length (unlink p ps) + (if has p ps then 1 else 0) ≡ length ps
unfolding unlink
length-unlink p [] = omega arith
length-unlink p (x ∷ ps) = ground (arith, length-unlink p ps)
