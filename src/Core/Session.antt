-- ===== src/Core/Session.antt =====
-- packages/provider/crates/provider-core/src/session.rs: which reservation may use each device.
-- The locks make each operation one step. The broadcast channel is the log of what was sent on it,
-- oldest first.
pub mod Refinement
pub mod Revocations
use yard.Prelude.{
  Bool, true, false, not, Option, none, some, List, [], ◌∷◌, ◌++◌, Text, codes, text_eq, text_key,
  if◌then◌else◌, Result, ok, err, map,
}
use yard.Prelude.Dict.{lookup, insert, remove}

pub record AdbKey : Type 0 where
  pub user_id : Text
  pub fingerprint : Text
  pub public_key : Text
  pub comment : Option Text

pub record Authorization : Type 0 where
  pub reservation_id : Text
  pub user_id : Text
  pub adb_keys : List AdbKey

pub record Revocation : Type 0 where
  pub device_id : Text
  pub reason : Text

pub data SessionError : Type 0 where
  not_authorized : Text → SessionError
  stale_reservation : SessionError

pub record Registry : Type 0 where
  pub authorized : List (Text × Authorization)
  pub revocations : List Revocation

unfoldable pub new : Registry
new = record { authorized = []; revocations = [] }

abbrev pub send : Text → Text → Registry → Registry
send device reason s = record s {
  revocations = s.revocations ++ record { device_id = device; reason = reason } ∷ [];
}

abbrev replaced : Text
replaced = codes "replaced by a new reservation"

-- Whether `insert` returned an authorization of another reservation.
abbrev pub displaces : Option Authorization → Authorization → Bool
displaces none auth = false
displaces (some previous) auth = not (text_eq previous.reservation_id auth.reservation_id)

unfoldable pub authorize : Text → Authorization → Registry → Registry
authorize device auth s =
    let stored = record s { authorized = insert device auth s.authorized } in
    if displaces (lookup device s.authorized) auth then send device replaced stored else stored

abbrev with_keys : Text → List AdbKey → Option Authorization → Registry → Registry
with_keys device keys none s = s
with_keys device keys (some auth) s = record s {
  authorized = insert device (record auth { adb_keys = keys }) s.authorized;
}

unfoldable pub set_adb_keys : Text → List AdbKey → Registry → Registry
set_adb_keys device keys s = with_keys device keys (lookup device s.authorized) s

unfoldable pub revoke : Text → Text → Registry → Registry
revoke device reason s = send device reason (record s { authorized = remove device s.authorized })

abbrev pub keys : List (Text × Authorization) → List Text
keys = map λ p. p.0

unfoldable pub revoke_each : List Text → Text → Registry → Registry
revoke_each [] reason s = s
revoke_each (d ∷ ds) reason s = revoke_each ds reason (revoke d reason s)

unfoldable pub revoke_all : Text → Registry → Registry
revoke_all reason s = revoke_each (keys s.authorized) reason s

unfoldable pub current : Text → Registry → Option Authorization
current device s = lookup device s.authorized

abbrev pub verdict : Text → Text → Option Authorization → Result SessionError (Unit {0})
verdict device reservation none = err (not_authorized device)
verdict device reservation (some auth) =
    if not (text_eq auth.reservation_id reservation) then err stale_reservation else ok tt

unfoldable pub check : Text → Text → Registry → Result SessionError (Unit {0})
check device reservation s = verdict device reservation (lookup device s.authorized)

-- The calls that change the registry.
pub data Call : Type 0 where
  authorizes : Text → Authorization → Call
  sets_keys : Text → List AdbKey → Call
  revokes : Text → Text → Call
  revokes_all : Text → Call

unfoldable pub step : Registry → Call → Registry
step s (authorizes d a) = authorize d a s
step s (sets_keys d ks) = set_adb_keys d ks s
step s (revokes d r) = revoke d r s
step s (revokes_all r) = revoke_all r s

unfoldable pub run : Registry → List Call → Registry
run s [] = s
run s (c ∷ cs) = run (step s c) cs
