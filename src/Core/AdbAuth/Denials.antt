-- ===== src/Core/AdbAuth/Denials.antt =====
-- A denial lasts as long as the authority.
use yard.Prelude.{
  ◌≢◌, ◌++◌, ◌≡◌, Bool, true, false, not, ◌||◌, ◌&&◌, Option, none, some, List, [], ◌∷◌, Text,
  text_eq, text_key,
}
use yard.Prelude.Dict.{lookup}
use yard.Core.AdbAuth.{Authority, AdbAuthDecision, Parked, Event, resumes, step, adb_auth_request}

-- Whether this event denies the key: a waiter of the key resumes on an explicit refusal.
abbrev refuses : Text → Option (Parked × Option AdbAuthDecision) → Bool
refuses f none = false
refuses f (some (p, none)) = false
refuses f (some (p, some d)) = not d.allow && text_eq p.fingerprint f

abbrev pub denies : Authority → Event → Text → Bool
denies a (resumes r) f = refuses f (lookup r a.answers)
denies a _ f = false

abbrev pub denied_in : Authority → List Event → Text → Bool
denied_in a [] f = false
denied_in a (e ∷ es) f = denies a e f || denied_in (step a e) es f

-- The question went out last, and the attempt waits under its request; nothing else changed.
abbrev pub Asks : (request f key : Text) → Option Text → Authority → Bool × Authority → Type 0
Asks request f key comment before (waits, after) =
    (waits ≡ true)
    × (after.sent ≡ before.sent ++ adb_auth_request before.device_id request f key comment ∷ [])
    × (lookup request after.pending ≡ some (record { fingerprint = f }))
    × ((other : Text) → other ≢ request → lookup other after.pending ≡ lookup other before.pending)
    × (after.answers ≡ before.answers)
    × (after.denied ≡ before.denied)

-- By whether the key is refused.
abbrev pub Treats :
    (refused : Bool) (request f key : Text) → Option Text → Authority → Bool × Authority → Type 0
Treats true request f key comment before result = result ≡ (false, before)
Treats false request f key comment before result = Asks request f key comment before result
