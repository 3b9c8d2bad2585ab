-- ===== src/Tests/Core/Signed.antt =====
-- A verifier whose endpoint serves one key of each kind, and a token signed by the Ed25519 one.
use yard.Prelude.{
  ◌≡◌, refl, none, some, List, [], ◌∷◌, codes, ok, err, text_eq, if◌then◌else◌, Bytes,
}
use yard.Core.Tokens.{
  SessionClaims, Jwk, Jwt, invalid_signature, new, set_issuer, is_usable, read_keys, refresh,
  try_keys, try_verify, verify, check_provider,
}
use yard.Core.Tokens.Verified.{Event, fetches, adopts, checks, run, step}

abbrev claims : SessionClaims
claims = record {
  iss = codes "o";
  sub = codes "s";
  exp = 60;
  iat = 0;
  device_id = codes "d";
  user_id = codes "u";
  reservation_id = codes "r";
  provider_id = codes "p";
  scope = none;
  platform = none;
}

-- A key is its bytes, and a token is signed by the key that it equals.
abbrev library : Jwt Bytes
library = record {
  decode_kid = λ token. none;
  decode_x = λ x. some x;
  from_ed_der = λ raw. raw;
  decode = λ now token key val. if text_eq token key then ok claims else err invalid_signature;
}

abbrev ed_key : Jwk
ed_key = record { kty = codes "OKP"; crv = codes "Ed25519"; x = codes "k"; kid = none; alg = none }

abbrev rsa_key : Jwk
rsa_key = record { kty = codes "RSA"; crv = []; x = codes "m"; kid = none; alg = none }

abbrev history : List Event
history =
    checks 5 none (codes "z") ∷ adopts (codes "o") ∷ fetches 1 (some (rsa_key ∷ ed_key ∷ [])) ∷ []

verify_signed :
    (verify library 9 none (codes "k") (run library history (new (codes "p") []))).0 ≡ ok claims
unfolding verify run step refresh read_keys is_usable try_verify try_keys check_provider new
    set_issuer text_eq
verify_signed = refl

-- Where the endpoint fails, every bad token makes one more request, a second after the last one.
every_token_fetches :
    (run library
      (checks 102 none (codes "z")
        ∷ checks 101 none (codes "z")
        ∷ checks 100 none (codes "z")
        ∷ history)
      (new (codes "p") [])).fetches
    ≡ 102 ∷ 101 ∷ 100 ∷ 1 ∷ []
unfolding verify run step refresh read_keys is_usable try_verify try_keys check_provider new
    set_issuer text_eq
every_token_fetches = refl
