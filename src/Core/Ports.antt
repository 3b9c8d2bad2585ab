-- ===== src/Core/Ports.antt =====
-- packages/provider/crates/provider-core/src/ports.rs: the pool of remote-debugging ports. A lease
-- is the port that its holder keeps; dropping it is a call. The lock makes each call one step.
pub mod Conservation
pub mod Order
use yard.Prelude.{ℕ, zero, suc, ◌+◌, ◌-◌, ◌≡◌, Option, none, some, List, [], ◌∷◌, ◌++◌, length}

pub record PortPool : Type 0 where
  pub free : List ℕ

-- `range.collect()` of `count` ports from `first`.
unfoldable pub range : ℕ → ℕ → List ℕ
range first zero = []
range first (suc count) = first ∷ range (first + 1) count

-- The pool of `first..=last`, which is empty where `last` is below `first`.
unfoldable pub new : ℕ → ℕ → PortPool
unfolding range
new first last = record { free = range first (last + 1 - first) }

-- `pop_front`: the claimed port with the pool that is left.
unfoldable pub pop_front : List ℕ → Option (ℕ × PortPool)
pop_front [] = none
pop_front (p ∷ ps) = some (p, record { free = ps })

unfoldable pub claim : PortPool → Option (ℕ × PortPool)
unfolding pop_front
claim pool = pop_front pool.free

unfoldable pub available : PortPool → ℕ
available pool = length pool.free

-- `PortLease::drop`: to the back of the queue.
unfoldable pub drop_lease : ℕ → PortPool → PortPool
drop_lease port pool = record { free = pool.free ++ port ∷ [] }

-- The pool with the leases that are held. Any holder may drop its lease at any time, in any order.
pub record World : Type 0 where
  pub pool : PortPool
  pub leases : List ℕ

pub data Step : World → World → Type 0 where
  claims :
      (w : World) (port : ℕ) (pool : PortPool)
      → claim w.pool ≡ some (port, pool)
      → Step w (record { pool = pool; leases = port ∷ w.leases })
  drops :
      (w : World) (before after : List ℕ) (port : ℕ)
      → w.leases ≡ before ++ (port ∷ after)
      → Step w (record { pool = drop_lease port w.pool; leases = before ++ after })

pub data Reach (w : World) : World → Type 0 where
  here : Reach w w
  next : {u v : World} → Reach w u → Step u v → Reach w v
