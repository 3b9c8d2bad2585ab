-- ===== src/Core/Ports/Order.antt =====
-- In which order ports come back.
use yard.Prelude.{ℕ, zero, suc, ◌≡◌, refl, Option, none, some, List, [], ◌∷◌, ◌++◌, length}
use yard.Core.Ports.{PortPool, claim, available, drop_lease}

-- The ports of so many claims in a row, and the pool behind them; `none` if one of them fails.
pub claims_of : ℕ → PortPool → Option (List ℕ × PortPool)
claims_of zero pool = some ([], pool)
claims_of (suc n) pool = elim (claim pool) [
  | none ↦ none
  | some (p, rest) ↦ elim (claims_of n rest) [ none ↦ none | some (ps, end) ↦ some (p ∷ ps, end) ]
]

claims_of-append :
    (ps qs : List ℕ)
    → claims_of (length ps) (record { free = ps ++ qs }) ≡ some (ps, record { free = qs })
unfolding claims_of claim
claims_of-append [] qs = refl
claims_of-append (p ∷ ps) qs = rw (claims_of-append ps qs, claims_of)

-- A dropped port is the last to be handed out again: as many claims as ports were free all succeed,
-- return those in their order, and leave the dropped one, which the next claim returns.
claims_of-drop_lease :
    (pool : PortPool) (port : ℕ)
    → (claims_of (available pool) (drop_lease port pool)
        ≡ some (pool.free, record { free = port ∷ [] }))
      × (claim (record { free = port ∷ [] }) ≡ some (port, record { free = [] }))
      × (claim (record { free = [] }) ≡ none)
unfolding available drop_lease claim
claims_of-drop_lease pool port = (claims_of-append pool.free (port ∷ []), refl, refl)
