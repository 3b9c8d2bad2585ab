-- ===== src/Server/Access/Granted.antt =====
-- What a token that was let in stands for.
use yard.Prelude.{
  ℕ, ◌≡◌, refl, subst, sym, ap, Bool, true, false, not, ◌||◌, Bool-cases, Option, none, some,
  is_some, Option-cases, inl, inr, List, ◌++◌, Text, text_eq, text_eq_iff, text_key, codes, Result,
  ok, err, arith, if◌then◌else◌,
}
use yard.Prelude.Dict.{lookup}
use yard.Core.Session.{Authorization, current, check, verdict}
use yard.Core.Tokens.{SessionClaims, Jwk, Jwt, TokenError, TokenVerifier, new, verify}
use yard.Core.Tokens.Verified.{Event, run, issuer_of, served, answered, Accepted, verify-Accepted}
use yard.Core.Supervisor.Device.{Device}
use yard.Core.Supervisor.Commands.{Host, can_preload, is_pooled}
use yard.Server.Access.{
  Rejection, wrong_device, deployment_only, invalid_grant, unknown_device, not_idle, ServerState,
  is_preload, checked, admit, admit_preload, verified, authorize, authorize_preload,
}

-- A session's claims: for the device, no deployment grant, and of the reservation that holds it.
abbrev pub Holds : {I W : Type 0} → Host I W → Text → SessionClaims → Type 0
Holds h device claims =
    (claims.device_id ≡ device)
    × (claims.scope ≡ none)
    × ((auth : Authorization) × (current device h.sessions ≡ some auth)
        × (auth.reservation_id ≡ claims.reservation_id))

-- A grant's claims: for the device, which the host owns, which no session holds and which is idle.
abbrev pub Grants : {I W : Type 0} → Host I W → Text → SessionClaims → Type 0
Grants {I} {W} h device claims =
    (claims.device_id ≡ device)
    × (claims.scope ≡ some (codes "preload"))
    × (is_some claims.platform ≡ true)
    × ((d : Device I W) × (lookup device h.devices ≡ some d)
        × (current device h.sessions ≡ none)
        × (is_pooled d.status ≡ true))

abbrev pub Passes : (SessionClaims → Type 0) → Result Rejection SessionClaims → Type 0
Passes P (ok claims) = P claims
Passes P (err e) = Unit {0}

checked-Passes :
    (P : SessionClaims → Type 0) (claims : SessionClaims) (device : Text) (o : Option Authorization)
    → ((auth : Authorization)
        → o ≡ some auth
        → auth.reservation_id ≡ claims.reservation_id
        → P claims)
    → Passes P (checked claims (verdict device claims.reservation_id o))
checked-Passes P claims device none k = tt
checked-Passes P claims device (some auth) k =
    elim (Bool-cases (text_eq auth.reservation_id claims.reservation_id)) [
      | inl same ↦
          rw same (k auth refl ((text_eq_iff auth.reservation_id claims.reservation_id).0 same))
      | inr other ↦ rw other tt
    ]

if-Passes :
    (P : SessionClaims → Type 0) (c : Bool) (e : Rejection) (x : Result Rejection SessionClaims)
    → (c ≡ false → Passes P x)
    → Passes P (if c then err e else x)
if-Passes P true e x k = tt
if-Passes P false e x k = k refl

is_none : {A : Type 0} (o : Option A) → is_some o ≡ false → o ≡ none
is_none none h = refl
is_none (some a) h = ground arith

is_preload_lem : (o : Option Text) → is_preload o ≡ true → o ≡ some (codes "preload")
is_preload_lem none h = ground arith
is_preload_lem (some scope) h = ap some ((text_eq_iff scope (codes "preload")).0 h)

module _ {I W : Type 0} where
  admit-Passes :
      (h : Host I W) (device : Text) (claims : SessionClaims)
      → Passes (λ c. Holds h device c × (c ≡ claims)) (admit h device claims)
  unfolding admit check current
  admit-Passes h device claims =
      let P = λ (c : SessionClaims). Holds h device c × (c ≡ claims) in
      let last = checked claims (check device claims.reservation_id h.sessions) in
      if-Passes P (not (text_eq claims.device_id device)) wrong_device
        (if is_some claims.scope then err deployment_only else last)
        (λ a. if-Passes P (is_some claims.scope) deployment_only last (λ b.
          checked-Passes P claims device (current device h.sessions) (λ auth e r. (
            (
              (text_eq_iff claims.device_id device).0 (ground arith),
              is_none claims.scope b,
              (auth, e, r),
            ),
            refl,
          ))))

  can_preload_lem :
      (h : Host I W) (device : Text)
      → can_preload h device ≡ true
      → (d : Device I W) × (lookup device h.devices ≡ some d)
        × (current device h.sessions ≡ none)
        × (is_pooled d.status ≡ true)
  unfolding can_preload
  can_preload_lem h device p = elim (Option-cases (lookup device h.devices)) [
    | inl q ↦ let r = rw (q, can_preload) at p in ground arith
    | inr (d, q) ↦
        let r = rw (q, can_preload) at p in
        (d, q, is_none (current device h.sessions) (ground arith), ground arith)
  ]

  admit_preload-Passes :
      (h : Host I W) (device : Text) (claims : SessionClaims)
      → Passes (λ c. Grants h device c × (c ≡ claims)) (admit_preload h device claims)
  unfolding admit_preload
  admit_preload-Passes h device claims =
      let P = λ (c : SessionClaims). Grants h device c × (c ≡ claims) in
      let idle = if not (can_preload h device) then err not_idle else ok claims in
      let owned = if not (is_some (lookup device h.devices)) then err unknown_device else idle in
      let bad = not (is_preload claims.scope) || not (is_some claims.platform) in
      if-Passes P (not (text_eq claims.device_id device)) wrong_device
        (if bad then err invalid_grant else owned)
        (λ a. if-Passes P bad invalid_grant owned (λ b.
          if-Passes P (not (is_some (lookup device h.devices))) unknown_device idle (λ c.
            if-Passes P (not (can_preload h device)) not_idle (ok claims) (λ e. (
              (
                (text_eq_iff claims.device_id device).0 (ground arith),
                is_preload_lem claims.scope (ground arith),
                ground arith,
                can_preload_lem h device (ground arith),
              ),
              refl,
            )))))

module _ {I W K : Type 0} (lib : Jwt K) where
  verified-Passes :
      (P Q : SessionClaims → Type 0) (f : SessionClaims → Result Rejection SessionClaims)
      (s : ServerState I W K) (r : Result TokenError SessionClaims) (v : TokenVerifier K)
      → ((claims : SessionClaims) → Passes (λ c. P c × (c ≡ claims)) (f claims))
      → ((claims : SessionClaims) → r ≡ ok claims → Q claims)
      → Passes (λ c. P c × Q c) (verified f s (r, v)).0
  verified-Passes P Q f s (err e) v p q = tt
  verified-Passes P Q f s (ok claims) v p q = both (f claims) (p claims) (q claims refl)
    where
      both :
          (x : Result Rejection SessionClaims)
          → Passes (λ c. P c × (c ≡ claims)) x
          → Q claims
          → Passes (λ c. P c × Q c) x
      both (ok c) h k = (h.0, subst Q (sym h.1) k)
      both (err e) h k = tt

  -- After any history of the verifier: a token that opens a session is one that the verifier
  -- accepts, is minted for that device, is no deployment grant, and names the reservation that
  -- holds the device at that moment.
  pub authorize-Holds :
      (own first : Text) (es : List Event) (h : Host I W) (now : ℕ) (a : Option (List Jwk))
      (device token : Text) (claims : SessionClaims)
      → (authorize lib now a device token
          (record { host = h; verifier = run lib es (new own first) })).0
        ≡ ok claims
      → Holds h device claims
        × Accepted lib own (issuer_of first es) (answered a ++ served es) now token claims
  unfolding authorize
  authorize-Holds own first es h now a device token claims q =
      let v = run lib es (new own first) in
      subst
        (Passes (λ c.
          Holds h device c
          × Accepted lib own (issuer_of first es) (answered a ++ served es) now token c))
        q
        (verified-Passes (Holds h device)
          (Accepted lib own (issuer_of first es) (answered a ++ served es) now token)
          (admit h device) (record { host = h; verifier = v }) (verify lib now a token v).0
          (verify lib now a token v).1 (admit-Passes h device)
          (verify-Accepted lib own first es now a token))

  -- After any history of the verifier: a token that opens a preload is one that the verifier
  -- accepts, is minted for that device as a deployment grant with a platform, and the host owns the
  -- device, which no session holds and whose status is ready or present.
  pub authorize_preload-Grants :
      (own first : Text) (es : List Event) (h : Host I W) (now : ℕ) (a : Option (List Jwk))
      (device token : Text) (claims : SessionClaims)
      → (authorize_preload lib now a device token
          (record { host = h; verifier = run lib es (new own first) })).0
        ≡ ok claims
      → Grants h device claims
        × Accepted lib own (issuer_of first es) (answered a ++ served es) now token claims
  unfolding authorize_preload
  authorize_preload-Grants own first es h now a device token claims q =
      let v = run lib es (new own first) in
      subst
        (Passes (λ c.
          Grants h device c
          × Accepted lib own (issuer_of first es) (answered a ++ served es) now token c))
        q
        (verified-Passes (Grants h device)
          (Accepted lib own (issuer_of first es) (answered a ++ served es) now token)
          (admit_preload h device) (record { host = h; verifier = v }) (verify lib now a token v).0
          (verify lib now a token v).1 (admit_preload-Passes h device)
          (verify-Accepted lib own first es now a token))
