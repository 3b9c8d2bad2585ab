-- ===== src/Tests/Core/Pool.antt =====
-- A pool of two ports.
use mathlib.Core.List.{Perm, Nodup}
use yard.Prelude.{refl, [], ◌∷◌}
use yard.Core.Ports.{range, new, claim, drop_lease, World, Reach, here, next, claims, drops}
use yard.Core.Ports.Conservation.{Reach-ports, start, ports}

abbrev second : World
second = record { pool = record { free = 7201 ∷ [] }; leases = 7200 ∷ [] }

abbrev third : World
third = record { pool = record { free = 7201 ∷ 7200 ∷ [] }; leases = [] }

claimed_and_dropped : Reach (start 7200 7201) third
unfolding new claim drop_lease
claimed_and_dropped =
    next (next here (claims (start 7200 7201) 7200 (record { free = 7201 ∷ [] }) refl))
      (drops second [] [] 7200 refl)

Reach-ports_example : Perm (ports third) (range 7200 2) × Nodup (ports third)
Reach-ports_example = Reach-ports 7200 7201 claimed_and_dropped
