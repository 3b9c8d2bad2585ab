-- ===== src/Core/Tokens.antt =====
-- packages/provider/crates/provider-core/src/auth.rs: the verifier of session tokens. The JWT library,
-- base64 and the endpoint are the environment's: `Jwt` is what the code calls, and what the endpoint
-- answers is an argument. One clock in seconds stands for both that the source reads.
pub mod Verified
use yard.Prelude.{
  ℕ, ◌+◌, ◌-◌, Bool, true, false, not, ◌&&◌, Option, none, some, List, [], ◌∷◌, leb, length,
  if◌then◌else◌, Text, Bytes, text_eq, codes, Result, ok, err, ◌>>=◌,
}

pub record SessionClaims : Type 0 where
  pub iss : Text
  pub sub : Text
  pub exp : ℕ
  pub iat : ℕ
  pub device_id : Text
  pub user_id : Text
  pub reservation_id : Text
  pub provider_id : Text
  pub scope : Option Text
  pub platform : Option Text

pub record Jwk : Type 0 where
  pub kty : Text
  pub crv : Text
  pub x : Text
  pub kid : Option Text
  pub alg : Option Text

pub data DecodeError : Type 0 where
  invalid_signature : DecodeError
  other : Text → DecodeError

pub record Validation : Type 0 where
  pub issuer : Text
  pub audience : Text
  pub required_spec_claims : List Text
  pub leeway : ℕ

-- What the code calls of the libraries; `decode` only takes EdDSA.
pub record Jwt (K : Type 0) : Type 0 where
  pub decode_kid : Text → Option Text
  pub decode_x : Text → Option Bytes
  pub from_ed_der : Bytes → K
  pub decode : ℕ → Text → K → Validation → Result DecodeError SessionClaims

pub record CachedKey (K : Type 0) : Type 0 where
  pub kid : Option Text
  pub key : K

pub data TokenError : Type 0 where
  fetching_failed invalid_x no_usable_keys not_loaded no_key wrong_provider : TokenError
  rejected : DecodeError → TokenError

-- `fetches` has the times of the requests, the newest first.
pub record TokenVerifier (K : Type 0) : Type 0 where
  pub provider_id : Text
  pub issuer : Text
  pub keys : List (CachedKey K)
  pub last_refresh : Option ℕ
  pub fetches : List ℕ

abbrev pub min_refresh_interval : ℕ
min_refresh_interval = 60

abbrev pub clock_skew_leeway_secs : ℕ
clock_skew_leeway_secs = 5

abbrev pub session_token_audience : Text
session_token_audience = codes "yard-provider"

abbrev pub is_eddsa : Option Text → Bool
is_eddsa none = true
is_eddsa (some alg) = text_eq alg (codes "EdDSA")

unfoldable pub is_usable : Jwk → Bool
is_usable j = text_eq j.kty (codes "OKP") && (text_eq j.crv (codes "Ed25519") && is_eddsa j.alg)

abbrev pub is_candidate : Option Text → Option Text → Bool
is_candidate none have = true
is_candidate (some want) none = true
is_candidate (some want) (some have) = text_eq want have

abbrev pub is_due : ℕ → Option ℕ → Bool
is_due now none = true
is_due now (some at) = leb min_refresh_interval (now - at)

unfoldable pub validation_of : Text → Validation
validation_of issuer = record {
  issuer = issuer;
  audience = session_token_audience;
  required_spec_claims = codes "exp" ∷ codes "aud" ∷ codes "iss" ∷ [];
  leeway = clock_skew_leeway_secs;
}

abbrev pub is_invalid_signature : DecodeError → Bool
is_invalid_signature invalid_signature = true
is_invalid_signature (other e) = false

-- Behind the last candidate: nothing verified, or the last error is no matter of the signature.
abbrev pub conclude : Option DecodeError → Result TokenError (Option SessionClaims)
conclude none = ok none
conclude (some e) = if is_invalid_signature e then ok none else err (rejected e)

unfoldable pub check_provider : Text → SessionClaims → Result TokenError SessionClaims
check_provider own c = if text_eq c.provider_id own then ok c else err wrong_provider

module _ {K : Type 0} where
  unfoldable pub new : Text → Text → TokenVerifier K
  new provider_id issuer = record {
    provider_id = provider_id;
    issuer = issuer;
    keys = [];
    last_refresh = none;
    fetches = [];
  }

  unfoldable pub set_issuer : Text → TokenVerifier K → TokenVerifier K
  set_issuer issuer v = record v { issuer = issuer }

  abbrev pub cache_key : Jwk → K → List (CachedKey K) → List (CachedKey K)
  cache_key j key cs = record { kid = j.kid; key = key } ∷ cs

  -- What a fetch does with the keys that were read, if any.
  abbrev pub adopt :
      ℕ
      → TokenVerifier K
      → Result TokenError (List (CachedKey K))
      → Result TokenError ℕ × TokenVerifier K
  adopt now v (err e) = (err e, v)
  adopt now v (ok []) = (err no_usable_keys, v)
  adopt now v (ok (c ∷ cs)) =
      (ok (length (c ∷ cs)), record v { keys = c ∷ cs; last_refresh = some now })

  module _ (lib : Jwt K) where
    -- The entries of a key set that are taken; a bad `x` in one of them loses all.
    unfoldable pub read_keys : List Jwk → Result TokenError (List (CachedKey K))
    read_keys [] = ok []
    read_keys (j ∷ js) =
        let rest = read_keys js in
        if is_usable j
        then elim (lib.decode_x j.x) [
          | none ↦ err invalid_x
          | some raw ↦ rest >>= (λ cs. ok (cache_key j (lib.from_ed_der raw) cs))
        ]
        else rest

    -- `answer` is the key set that the endpoint gives, if it gives one.
    unfoldable pub refresh :
        ℕ → Option (List Jwk) → TokenVerifier K → Result TokenError ℕ × TokenVerifier K
    refresh now none v = (err fetching_failed, record v { fetches = now ∷ v.fetches })
    refresh now (some js) v = adopt now (record v { fetches = now ∷ v.fetches }) (read_keys js)

    -- The loop over the keys, with the last error.
    unfoldable pub try_keys :
        ℕ
        → Text
        → Option Text
        → Validation
        → List (CachedKey K)
        → Option DecodeError
        → Result TokenError (Option SessionClaims)
    try_keys now token kid val [] last = conclude last
    try_keys now token kid val (c ∷ cs) last =
        let skipped = try_keys now token kid val cs last in
        if not (is_candidate kid c.kid) then skipped else elim (lib.decode now token c.key val) [
          | ok claims ↦ ok (some claims)
          | err e ↦ try_keys now token kid val cs (some e)
        ]

    unfoldable pub try_verify :
        ℕ → Text → Validation → List (CachedKey K) → Result TokenError (Option SessionClaims)
    try_verify now token val [] = err not_loaded
    try_verify now token val (c ∷ cs) = try_keys now token (lib.decode_kid token) val (c ∷ cs) none

    -- What the second try, behind a refetch, comes to.
    abbrev pub settle :
        TokenVerifier K → Result TokenError (Option SessionClaims) → Result TokenError SessionClaims
    settle v (err e) = err e
    settle v (ok none) = err no_key
    settle v (ok (some claims)) = check_provider v.provider_id claims

    abbrev pub retry :
        ℕ
        → Text
        → Validation
        → Result TokenError ℕ × TokenVerifier K
        → Result TokenError SessionClaims × TokenVerifier K
    retry now token val (err e, v) = (err e, v)
    retry now token val (ok n, v) = (settle v (try_verify now token val v.keys), v)

    abbrev pub or_refetch :
        ℕ
        → Option (List Jwk)
        → Text
        → Validation
        → TokenVerifier K
        → Result TokenError (Option SessionClaims)
        → Result TokenError SessionClaims × TokenVerifier K
    or_refetch now answer token val v (err e) = (err e, v)
    or_refetch now answer token val v (ok (some claims)) = (check_provider v.provider_id claims, v)
    or_refetch now answer token val v (ok none) =
        if is_due now v.last_refresh
        then retry now token val (refresh now answer v)
        else (err no_key, v)

    unfoldable pub verify :
        ℕ
        → Option (List Jwk)
        → Text
        → TokenVerifier K
        → Result TokenError SessionClaims × TokenVerifier K
    verify now answer token v =
        or_refetch now answer token (validation_of v.issuer) v
          (try_verify now token (validation_of v.issuer) v.keys)
