-- ===== src/Server/Access.antt =====
-- packages/provider/crates/provider-core/src/server.rs: who is let in, by a session token or by a
-- deployment grant. A rejection is its status with a name for its text.
pub mod Granted
use yard.Prelude.{
  ℕ, Bool, true, false, not, ◌||◌, Option, none, some, is_some, List, Text, text_eq, text_key,
  codes, Result, ok, err, if◌then◌else◌,
}
use yard.Prelude.Dict.{lookup}
use yard.Core.Session.{SessionError, check}
use yard.Core.Tokens.{SessionClaims, Jwk, Jwt, TokenError, TokenVerifier, verify}
use yard.Core.Supervisor.Commands.{Host, can_preload}

pub data Rejection : Type 0 where
  invalid_token : TokenError → Rejection
  wrong_device deployment_only : Rejection
  refused : SessionError → Rejection
  invalid_grant unknown_device not_idle : Rejection

abbrev pub status_code : Rejection → ℕ
status_code (invalid_token e) = 401
status_code wrong_device = 403
status_code deployment_only = 403
status_code (refused e) = 403
status_code invalid_grant = 403
status_code unknown_device = 404
status_code not_idle = 409

pub record ServerState (I W K : Type 0) : Type 0 where
  pub host : Host I W
  pub verifier : TokenVerifier K

abbrev pub is_preload : Option Text → Bool
is_preload none = false
is_preload (some scope) = text_eq scope (codes "preload")

abbrev pub checked : SessionClaims → Result SessionError (Unit {0}) → Result Rejection SessionClaims
checked claims (ok u) = ok claims
checked claims (err e) = err (refused e)

module _ {I W : Type 0} where
  -- Behind the token.
  unfoldable pub admit : Host I W → Text → SessionClaims → Result Rejection SessionClaims
  admit h device claims =
      if not (text_eq claims.device_id device)
      then err wrong_device
      else if is_some claims.scope
      then err deployment_only
      else checked claims (check device claims.reservation_id h.sessions)

  unfoldable pub admit_preload : Host I W → Text → SessionClaims → Result Rejection SessionClaims
  admit_preload h device claims =
      if not (text_eq claims.device_id device)
      then err wrong_device
      else if not (is_preload claims.scope) || not (is_some claims.platform)
      then err invalid_grant
      else if not (is_some (lookup device h.devices))
      then err unknown_device
      else if not (can_preload h device)
      then err not_idle
      else ok claims

module _ {I W K : Type 0} where
  abbrev pub verified :
      (SessionClaims → Result Rejection SessionClaims)
      → ServerState I W K
      → Result TokenError SessionClaims × TokenVerifier K
      → Result Rejection SessionClaims × ServerState I W K
  verified f s (ok claims, v) = (f claims, record s { verifier = v })
  verified f s (err e, v) = (err (invalid_token e), record s { verifier = v })

  -- `now` and `answer` are what the verification reads.
  unfoldable pub authorize :
      Jwt K
      → ℕ
      → Option (List Jwk)
      → Text
      → Text
      → ServerState I W K
      → Result Rejection SessionClaims × ServerState I W K
  authorize lib now answer device token s =
      verified (admit s.host device) s (verify lib now answer token s.verifier)

  unfoldable pub authorize_preload :
      Jwt K
      → ℕ
      → Option (List Jwk)
      → Text
      → Text
      → ServerState I W K
      → Result Rejection SessionClaims × ServerState I W K
  authorize_preload lib now answer device token s =
      verified (admit_preload s.host device) s (verify lib now answer token s.verifier)
