-- ===== src/Tests/Servers.antt =====
-- A viewer of one phone, and the tokens that let somebody in.
use yard.Prelude.{
  map, length, ℕ, ◌+◌, ◌≡◌, refl, true, false, Option, none, some, List, [], ◌∷◌, ◌++◌, ◌≤◌, Text,
  Bytes, codes, ok, err, text_eq, text_key, if◌then◌else◌,
}
use yard.Prelude.Dict.{lookup}
use yard.Core.Session as Session
use yard.Core.Session.{Registry, current, check, Revocation}
use yard.Core.Tokens.{
  SessionClaims, Jwt, invalid_signature, new, set_issuer, is_usable, read_keys, refresh, try_keys,
  try_verify, verify, check_provider,
}
use yard.Core.Tokens.Verified.{
  Event, fetches, adopts, run, step, Accepted, issuer_of, served, answered,
}
use yard.Core.Supervisor.Commands.{Host, can_preload}
use yard.Core.Supervisor.Device.{new_device, ready}
use yard.Server.Access.{authorize, authorize_preload, admit, admit_preload}
use yard.Server.Access.Granted.{Holds, Grants, authorize-Holds, authorize_preload-Grants}
use yard.Server.Frames.{pending, to_byte, from_byte, frame_au}
use yard.Server.Client.{Controls}
use yard.Server.Messages.{Message}
use yard.Server.Viewer as Viewer
use yard.Server.Viewer.{
  Moment, frame, frames_lag, ping_due, receives, handshake, enter, react, turn,
}
use yard.Server.Viewer.Feed.{session, mark, feed_turns, is_well_fed, feed_turns-session}
use yard.Server.Viewer.Withdrawn.{sending_turns, sending_turns-session}
use yard.Server.Stills.{parts, digits, decimal}
use yard.Tests.Core.Hosts.{phone, complete_store}

abbrev pub claims_for : (scope platform : Option Text) → SessionClaims
claims_for scope platform = record {
  iss = codes "o";
  sub = codes "s";
  exp = 60;
  iat = 0;
  device_id = codes "d";
  user_id = codes "u";
  reservation_id = codes "r";
  provider_id = codes "p";
  scope = scope;
  platform = platform;
}

-- A key is its bytes, and a token is signed by the key that it equals.
abbrev pub library : SessionClaims → Jwt Bytes
library claims = record {
  decode_kid = λ token. none;
  decode_x = λ x. some x;
  from_ed_der = λ raw. raw;
  decode = λ now token key val. if text_eq token key then ok claims else err invalid_signature;
}

abbrev pub history : List Event
history =
    fetches 1 (
      some (
        record { kty = codes "OKP"; crv = codes "Ed25519"; x = codes "k"; kid = none; alg = none }
        ∷ []))
    ∷ adopts (codes "o")
    ∷ []

abbrev pub host : Registry → Host ℕ (List Text)
host sessions = record {
  devices = (codes "d", record (new_device (codes "d") phone [] []) { status = ready }) ∷ [];
  sessions = sessions;
  preloads = complete_store;
  connected = true;
  blank_idle_screens = false;
  sent = [];
  cleanups = [];
  polls = [];
}

abbrev pub held : Registry
held = record {
  authorized =
      (codes "d", record { reservation_id = codes "r"; user_id = codes "u"; adb_keys = [] }) ∷ [];
  revocations = [];
}

let_in :
    (authorize (library (claims_for none none)) 9 none (codes "d") (codes "k") (record {
      host = host held;
      verifier = run (library (claims_for none none)) history (new (codes "p") []);
    })).0
    ≡ ok (claims_for none none)
unfolding authorize admit check lookup verify run step refresh read_keys is_usable try_verify
    try_keys check_provider new set_issuer text_eq
let_in = refl

authorize-Holds_example :
    Holds (host held) (codes "d") (claims_for none none)
    × Accepted
        (library (claims_for none none))
        (codes "p")
        (issuer_of [] history)
        (answered none ++ served history)
        9
        (codes "k")
        (claims_for none none)
authorize-Holds_example =
    authorize-Holds (library (claims_for none none)) (codes "p") [] history (host held) 9 none
      (codes "d") (codes "k") (claims_for none none) let_in

abbrev grant : SessionClaims
grant = claims_for (some (codes "preload")) (some (codes "ios"))

let_preload :
    (authorize_preload (library grant) 9 none (codes "d") (codes "k") (record {
      host = host Session.new;
      verifier = run (library grant) history (new (codes "p") []);
    })).0
    ≡ ok grant
unfolding authorize_preload admit_preload can_preload current lookup verify run step refresh
    read_keys is_usable try_verify try_keys check_provider new set_issuer text_eq new_device
    Session.new
let_preload = refl

authorize_preload-Grants_example :
    Grants (host Session.new) (codes "d") grant
    × Accepted
        (library grant)
        (codes "p")
        (issuer_of [] history)
        (answered none ++ served history)
        9
        (codes "k")
        grant
authorize_preload-Grants_example =
    authorize_preload-Grants (library grant) (codes "p") [] history (host Session.new) 9 none
      (codes "d") (codes "k") grant let_preload

-- The device counts what was done with it.
abbrev counter : Controls ℕ ℕ
counter = record {
  input = λ e n. (1 + n, ok tt);
  clipboard_get = λ n. (n, ok none);
  clipboard_set = λ t n. (n, ok tt);
  rotate = λ d n. (n, ok tt);
}

abbrev moment : Registry → Moment ℕ ℕ
moment sessions = record {
  sessions = sessions;
  status = pending;
  current_codec = some (record { codec = codes "avc1"; description = 1 ∷ [] });
  geometry = none;
  info_display = none;
  takes = true;
}

abbrev fresh : Viewer.Viewer ℕ
fresh = enter (codes "d") (codes "r") false false 0

-- It falls behind, misses a picture, and is fed again from the next keyframe on.
abbrev sheds : List (Moment ℕ ℕ × Viewer.Event ℕ)
sheds =
    (moment held, frame (record { data_ = 7 ∷ []; is_key = false }))
    ∷ (moment held, frames_lag)
    ∷ (moment held, frame (record { data_ = 8 ∷ []; is_key = false }))
    ∷ (moment held, frame (record { data_ = 9 ∷ []; is_key = true }))
    ∷ []

shed_turns :
    session counter sheds (some fresh)
    ≡ record { lagged = false; sent = Message.binary (1 ∷ 7 ∷ []) ∷ [] }
      ∷ record { lagged = true; sent = [] }
      ∷ record { lagged = false; sent = [] }
      ∷ record { lagged = false; sent = Message.binary (2 ∷ 9 ∷ []) ∷ [] }
      ∷ []
unfolding session turn react enter frame_au to_byte check lookup text_eq
shed_turns = refl

feed_turns-session_example :
    is_well_fed (feed_turns (session counter sheds (some fresh)) (some fresh.awaiting_keyframe))
    ≡ true
feed_turns-session_example = feed_turns-session counter sheds fresh

-- The first picture behind the handshake may be a delta, which the new decoder is not waiting for.
abbrev opened : List (Message ℕ ℕ) × Option (Viewer.Viewer ℕ)
opened = handshake (codes "d") (codes "r") false (moment held).current_codec (moment held) 0

first_is_delta :
    feed_turns
      (record { lagged = false; sent = opened.0 } ∷ session counter sheds opened.1)
      (some false)
    ≡ none
unfolding handshake session turn react enter frame_au to_byte from_byte check lookup text_eq mark
first_is_delta = refl

abbrev withdrawn : List (Moment ℕ ℕ × Viewer.Event ℕ)
withdrawn = (moment Session.new, frames_lag) ∷ (moment Session.new, ping_due) ∷ []

nobody_holds : Viewer.is_ok (check (codes "d") (codes "r") Session.new) ≡ false
unfolding check lookup Session.new
nobody_holds = refl

sending_turns-session_example : sending_turns (session counter withdrawn (some fresh)) ≤ 1
unfolding enter
sending_turns-session_example =
    sending_turns-session counter withdrawn fresh (nobody_holds, (nobody_holds, tt))

-- The second tick finds the reservation gone, and the third is not looked at.
still_parts :
    map length (
      parts
        (codes "d")
        (codes "r")
        ((held, ok (1 ∷ 2 ∷ [])) ∷ (Session.new, ok (3 ∷ [])) ∷ (held, ok (4 ∷ [])) ∷ []))
    ≡ 63 ∷ []
unfolding parts digits check lookup text_eq Session.new
still_parts = refl

in_digits : decimal 1207 ≡ codes "1207"
unfolding digits
in_digits = refl
