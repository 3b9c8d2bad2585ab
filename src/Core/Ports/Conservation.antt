-- ===== src/Core/Ports/Conservation.antt =====
-- No port is lost, made up or held twice.
use mathlib.Core.List.{
  Perm, Nodup, perm_middle, append_assoc, append-nil, Mem, mem-cons, Nodup-cons, Nodup-nil,
  not-mem-nil,
}
use mathlib.Core.List.Perm
use mathlib.Core.Logic.Or
use native.Mathlib.Bridge.{le_prop}
use yard.Prelude.{ℕ, zero, suc, ◌+◌, ◌-◌, ◌≤◌, ◌≡◌, sym, subst, some, List, [], ◌∷◌, ◌++◌, arith}
use yard.Core.Ports.{
  PortPool, range, new, pop_front, claim, drop_lease, World, Step, claims, drops, Reach, here, next,
}

-- Every port of the world, free or held.
abbrev pub ports : World → List ℕ
ports w = w.pool.free ++ w.leases

pop_front-eq :
    (free : List ℕ) {port : ℕ} {pool : PortPool}
    → pop_front free ≡ some (port, pool)
    → free ≡ port ∷ pool.free
unfolding pop_front
pop_front-eq [] h = cc
pop_front-eq (p ∷ ps) h = ground arith

Step-perm : {u v : World} → Step u v → Perm (ports u) (ports v)
unfolding claim drop_lease
Step-perm (claims w port pool h) =
    subst (λ free. Perm (free ++ w.leases) (pool.free ++ (port ∷ w.leases)))
      (sym (pop_front-eq w.pool.free h)) (Perm.symm (perm_middle pool.free w.leases))
Step-perm (drops w before after port e) =
    subst (λ ls. Perm (w.pool.free ++ ls) ((w.pool.free ++ port ∷ []) ++ (before ++ after))) (sym e)
      (subst (λ l. Perm (w.pool.free ++ (before ++ (port ∷ after))) l)
        (sym (append_assoc w.pool.free (port ∷ []) (before ++ after)))
        (Perm.append (Perm.refl w.pool.free) (perm_middle before after)))

Reach-perm : {u v : World} → Reach u v → Perm (ports u) (ports v)
Reach-perm here = Perm.refl _
Reach-perm (next r st) = Perm.trans (Reach-perm r) (Step-perm st)

range-mem : (first count p : ℕ) → Mem p (range first count) → first ≤ p
unfolding range
range-mem first zero p m = absurd (not-mem-nil m)
range-mem first (suc n) p m =
    Or.elim le_prop (mem-cons.0 m) (λ e. omega arith)
      (λ t. let h = range-mem (first + 1) n p t in omega arith)

range-Nodup : (first count : ℕ) → Nodup (range first count)
unfolding range
range-Nodup first zero = Nodup-nil
range-Nodup first (suc n) =
    Nodup-cons.1
      ((λ m. let h = range-mem (first + 1) n first m in omega arith), range-Nodup (first + 1) n)

abbrev pub start : ℕ → ℕ → World
start first last = record { pool = new first last; leases = [] }

-- However leases are claimed and dropped, the free and the held ports together are the configured
-- range, each port once: no port is lost, and none is held twice or free while it is held.
pub Reach-ports :
    (first last : ℕ) {w : World}
    → Reach (start first last) w
    → Perm (ports w) (range first (last + 1 - first)) × Nodup (ports w)
unfolding new
Reach-ports first last {w} r =
    let p : Perm (range first (last + 1 - first)) (ports w) =
      subst (λ l. Perm l (ports w)) (append-nil (range first (last + 1 - first))) (Reach-perm r) in
    (Perm.symm p, Perm.nodup p (range-Nodup first (last + 1 - first)))
