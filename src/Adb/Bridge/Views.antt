-- ===== src/Adb/Bridge/Views.antt =====
-- What the client saw of a stream, and said of it.
use yard.Prelude.{
  ℕ, ◌+◌, ◌≡◌, ◌⊎◌, Bool, true, false, ◌&&◌, ◌||◌, Option, none, some, List, [], ◌∷◌, ◌==◌,
  if◌then◌else◌, nat_key,
}
use yard.Adb.Message.{Message, Command, okay, wrte}
use yard.Adb.Bridge.{Stream, Event, okays}

abbrev pub is_wrte : Command → Bool
is_wrte wrte = true
is_wrte _ = false

-- How many writes went to the client on a stream.
unfoldable pub wrtes : ℕ → List Message → ℕ
wrtes l [] = 0
wrtes l (m ∷ ms) = (if is_wrte m.command && (m.arg0 == l) then 1 else 0) + wrtes l ms

abbrev pub is_okay : Command → Bool
is_okay okay = true
is_okay _ = false

-- Whether the client was told of a stream.
unfoldable pub told : ℕ → List Message → Bool
told l [] = false
told l (m ∷ ms) = (is_okay m.command && (m.arg0 == l)) || told l ms

-- Each message is an `OKAY`, or of no stream, or of one that the client was told of before.
unfoldable pub Announced : List Message → Type 0
Announced [] = Unit {0}
Announced (m ∷ ms) =
    ((is_okay m.command ≡ true) ⊎ ((m.arg0 ≡ 0) ⊎ (told m.arg0 ms ≡ true))) × Announced ms

abbrev pub is_okay_of : ℕ → Event → Bool
is_okay_of l (okays k) = k == l
is_okay_of l _ = false

-- How many acknowledgements came from the client for a stream.
unfoldable pub okays_for : ℕ → List Event → ℕ
okays_for l [] = 0
okays_for l (e ∷ es) = (if is_okay_of l e then 1 else 0) + okays_for l es

abbrev pub permits_of : Option Stream → ℕ
permits_of none = 0
permits_of (some t) = t.permits
