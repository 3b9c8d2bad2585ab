-- ===== src/Core/AdbAuth/Throttle.antt =====
-- How often activity is reported.
use yard.Prelude.{ℕ, ◌+◌, ◌≤◌, ◌≡◌, refl, Option, none, some, List, [], ◌∷◌, arith, if◌then◌else◌}
use yard.Core.AdbAuth.{throttle_claim, activity_interval}

-- The times at which a row of calls is granted.
pub granted : Option ℕ → List ℕ → List ℕ
granted last [] = []
granted last (t ∷ ts) =
    let (fresh, next) = throttle_claim t last in
    let rest = granted next ts in if fresh then t ∷ rest else rest

-- The calls' times do not go back, as those of a monotonic clock.
abbrev pub Ascending : ℕ → List ℕ → Type 0
Ascending lo [] = Unit {0}
Ascending lo (t ∷ ts) = (lo ≤ t) × Ascending t ts

-- From `lo` on, each time is at least an interval behind the one before it.
abbrev pub Spaced : ℕ → List ℕ → Type 0
Spaced lo [] = Unit {0}
Spaced lo (t ∷ ts) = (lo ≤ t) × Spaced (t + activity_interval) ts

granted_after :
    (last lo : ℕ) (ts : List ℕ)
    → last ≤ lo
    → Ascending lo ts
    → Spaced (last + activity_interval) (granted (some last) ts)
unfolding granted throttle_claim
granted_after last lo [] h a = tt
granted_after last lo (t ∷ ts) h a = ground (arith, granted_after last t ts, granted_after t t ts)

-- Of any row of calls the first is granted, and each later one that is granted is at least the
-- interval behind the one granted before it.
granted-Spaced :
    (t : ℕ) (ts : List ℕ)
    → Ascending t ts
    → (rest : List ℕ) × (granted none (t ∷ ts) ≡ t ∷ rest) × Spaced (t + activity_interval) rest
unfolding granted throttle_claim
granted-Spaced t ts a = (granted (some t) ts, refl, granted_after t t ts (omega arith) a)
