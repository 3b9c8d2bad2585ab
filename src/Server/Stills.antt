-- ===== src/Server/Stills.antt =====
-- packages/provider/crates/provider-core/src/server.rs: `screenshot` and `mjpeg`, the still pictures of
-- a device. The backend's capture is a call on the device.
use yard.Prelude.{
  ℕ, zero, suc, ◌+◌, ◌/◌, ◌%◌, ltb, Option, none, some, List, [], ◌∷◌, ◌++◌, if◌then◌else◌, Text,
  Bytes, codes, text_key, length, Result, ok, err,
}
use yard.Prelude.Dict.{lookup}
use yard.Core.Cleanup.{Reply, describe}
use yard.Core.Session.{Registry, check}
use yard.Core.Tokens.{SessionClaims, Jwk, Jwt}
use yard.Core.Supervisor.Device.{Device}
use yard.Core.Supervisor.Commands.{put}
use yard.Server.Access.{Rejection, ServerState, authorize}
use yard.Server.Viewer.{is_ok}

-- What a request for pictures is answered with; a stream is bound to the device and the reservation.
pub data StillResponse : Type 0 where
  rejected : Rejection → StillResponse
  unknown_device : StillResponse
  picture : Bytes → StillResponse
  bad_gateway : Text → StillResponse
  stream : (device reservation : Text) → StillResponse

module _ {I W K : Type 0} where
  abbrev pub captured :
      Text → Device I W → ServerState I W K → W × Reply Bytes → StillResponse × ServerState I W K
  captured id d s (w, ok png) =
      (picture png, record s { host = put id (record d { world = w }) s.host })
  captured id d s (w, err e) =
      (bad_gateway (describe e), record s { host = put id (record d { world = w }) s.host })

  abbrev pub shot :
      (W → W × Reply Bytes)
      → Text
      → ServerState I W K
      → Option (Device I W)
      → StillResponse × ServerState I W K
  shot capture id s none = (unknown_device, s)
  shot capture id s (some d) = captured id d s (capture d.world)

  abbrev pub behind_token :
      (SessionClaims → ServerState I W K → StillResponse × ServerState I W K)
      → Result Rejection SessionClaims × ServerState I W K
      → StillResponse × ServerState I W K
  behind_token f (err r, s) = (rejected r, s)
  behind_token f (ok claims, s) = f claims s

  unfoldable pub screenshot :
      (W → W × Reply Bytes)
      → Jwt K
      → ℕ
      → Option (List Jwk)
      → (id token : Text) → ServerState I W K
      → StillResponse × ServerState I W K
  screenshot capture lib now answer id token s =
      behind_token (λ claims s'. shot capture id s' (lookup id s'.host.devices))
        (authorize lib now answer id token s)

  abbrev pub opened :
      Text
      → SessionClaims
      → ServerState I W K
      → Option (Device I W)
      → StillResponse × ServerState I W K
  opened id claims s none = (unknown_device, s)
  opened id claims s (some d) = (stream id claims.reservation_id, s)

  unfoldable pub mjpeg :
      Jwt K
      → ℕ
      → Option (List Jwk)
      → (id token : Text) → ServerState I W K
      → StillResponse × ServerState I W K
  mjpeg lib now answer id token s =
      behind_token (λ claims s'. opened id claims s' (lookup id s'.host.devices))
        (authorize lib now answer id token s)

abbrev crlf : Text
crlf = 13 ∷ 10 ∷ []

-- The decimal digits, by steps that are enough for a number of that many digits.
unfoldable pub digits : ℕ → ℕ → Text → Text
digits zero n behind = behind
digits (suc steps) n behind =
    let rest = digits steps (n / 10) ((48 + n % 10) ∷ behind) in
    if ltb n 10 then (48 + n) ∷ behind else rest

-- A length has at most twenty digits.
abbrev pub decimal : ℕ → Text
decimal n = digits 20 n []

abbrev pub part_of : Bytes → Bytes
part_of png =
    codes "--farmframe"
    ++ (crlf
        ++ (codes "Content-Type: image/png"
            ++ (crlf
                ++ (codes "Content-Length: "
                    ++ (decimal (length png) ++ (crlf ++ (crlf ++ (png ++ crlf))))))))

-- A capture that fails is passed over.
abbrev pub with_part : Reply Bytes → List Bytes → List Bytes
with_part (ok png) rest = part_of png ∷ rest
with_part (err e) rest = rest

-- The stream's parts, over the registry and the capture that each tick of the clock finds.
unfoldable pub parts : Text → Text → List (Registry × Reply Bytes) → List Bytes
parts device reservation [] = []
parts device reservation ((sessions, capture) ∷ ticks) =
    let rest = parts device reservation ticks in
    if is_ok (check device reservation sessions) then with_part capture rest else []
