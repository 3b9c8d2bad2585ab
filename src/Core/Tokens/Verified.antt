-- ===== src/Core/Tokens/Verified.antt =====
-- What a verified token stands for, after any history of a verifier.
use mathlib.Core.List.{Memᴰ}
use mathlib.Core.List.Memᴰ.{head, tail, append_left, append_right}
use yard.Prelude.{
  ℕ, ◌≡◌, refl, subst, true, Option, none, some, Option-cases, Bool-cases, inl, inr, List, [], ◌∷◌,
  ◌++◌, Text, text_eq, text_eq_iff, Bytes, Result, ok, err, ◌>>=◌,
}
use yard.Core.Tokens.{
  SessionClaims, Jwk, DecodeError, Validation, Jwt, CachedKey, TokenError, TokenVerifier, is_usable,
  is_candidate, is_due, is_invalid_signature, validation_of, conclude, check_provider, new,
  set_issuer, adopt, read_keys, refresh, try_keys, try_verify, settle, retry, or_refetch, verify,
}

abbrev pub Holds : {A : Type 0} → (A → Type 0) → Result TokenError A → Type 0
Holds P (ok a) = P a
Holds P (err e) = Unit {0}

Holds-bind :
    {A B : Type 0} (P : A → Type 0) (Q : B → Type 0) (x : Result TokenError A)
    (f : A → Result TokenError B)
    → Holds P x
    → ((a : A) → P a → Holds Q (f a))
    → Holds Q (x >>= f)
Holds-bind P Q (ok a) f h k = k a h
Holds-bind P Q (err e) f h k = tt

-- The key sets that the endpoint gave.
abbrev pub answered : Option (List Jwk) → List Jwk
answered none = []
answered (some js) = js

pub data Event : Type 0 where
  fetches : ℕ → Option (List Jwk) → Event
  adopts : Text → Event
  checks : ℕ → Option (List Jwk) → Text → Event

abbrev pub answer_of : Event → List Jwk
answer_of (fetches now a) = answered a
answer_of (adopts issuer) = []
answer_of (checks now a token) = answered a

-- All entries that the endpoint ever gave.
abbrev pub served : List Event → List Jwk
served [] = []
served (e ∷ es) = answer_of e ++ served es

-- The issuer that was adopted last.
abbrev pub issuer_of : Text → List Event → Text
issuer_of first [] = first
issuer_of first (adopts issuer ∷ es) = issuer
issuer_of first (fetches now a ∷ es) = issuer_of first es
issuer_of first (checks now a token ∷ es) = issuer_of first es

module _ {K : Type 0} (lib : Jwt K) where
  unfoldable pub step : Event → TokenVerifier K → TokenVerifier K
  step (fetches now a) v = (refresh lib now a v).1
  step (adopts issuer) v = set_issuer issuer v
  step (checks now a token) v = (verify lib now a token v).1

  -- The events, the newest first.
  unfoldable pub run : List Event → TokenVerifier K → TokenVerifier K
  run [] v = v
  run (e ∷ es) v = step e (run es v)

  -- A key of the endpoint: from an entry that was taken.
  abbrev pub FromServed : List Jwk → K → Type 0
  FromServed jwks key =
      (j : Jwk) × (raw : Bytes) × Memᴰ j jwks
      × (is_usable j ≡ true)
      × (lib.decode_x j.x ≡ some raw)
      × (key ≡ lib.from_ed_der raw)

  abbrev AllFrom : List Jwk → List (CachedKey K) → Type 0
  AllFrom jwks [] = Unit {0}
  AllFrom jwks (c ∷ cs) = FromServed jwks c.key × AllFrom jwks cs

  AllFrom-mono :
      (js ks : List Jwk) (cs : List (CachedKey K))
      → ((j : Jwk) → Memᴰ j js → Memᴰ j ks)
      → AllFrom js cs
      → AllFrom ks cs
  AllFrom-mono js ks [] f h = tt
  AllFrom-mono js ks (c ∷ cs) f h =
      let (j, raw, m, u, d, e) = h.0 in ((j, raw, f j m, u, d, e), AllFrom-mono js ks cs f h.1)

  read_keys-AllFrom : (js : List Jwk) → Holds (AllFrom js) (read_keys lib js)
  unfolding read_keys
  read_keys-AllFrom [] = tt
  read_keys-AllFrom (j ∷ js) =
      let wider = λ (cs : List (CachedKey K)). AllFrom-mono js (j ∷ js) cs (λ i m. tail m) in
      elim (Bool-cases (is_usable j)) [
        | inr skip ↦
            rw (skip, read_keys)
              (weaken (AllFrom js) (AllFrom (j ∷ js)) (read_keys lib js) wider
                (read_keys-AllFrom js))
        | inl use_ ↦ elim (Option-cases (lib.decode_x j.x)) [
          | inl q ↦ rw (use_, q, read_keys) tt
          | inr (raw, q) ↦
              rw (use_, q, read_keys)
                (Holds-bind (AllFrom js) (AllFrom (j ∷ js)) (read_keys lib js) _
                  (read_keys-AllFrom js) (λ cs h. ((j, raw, head refl, use_, q, refl), wider cs h)))
        ]
      ]
    where
      weaken :
          (P Q : List (CachedKey K) → Type 0) (x : Result TokenError (List (CachedKey K)))
          → ((a : List (CachedKey K)) → P a → Q a)
          → Holds P x
          → Holds Q x
      weaken P Q (ok a) f h = f a h
      weaken P Q (err e) f h = tt

  -- The claims stand in the token by a key of the endpoint.
  abbrev pub Vouched : List Jwk → ℕ → Text → Validation → SessionClaims → Type 0
  Vouched jwks now token val claims =
      (key : K) × FromServed jwks key × (lib.decode now token key val ≡ ok claims)

  abbrev Got : (SessionClaims → Type 0) → Option SessionClaims → Type 0
  Got P none = Unit {0}
  Got P (some claims) = P claims

  conclude-Got :
      (P : SessionClaims → Type 0) (last : Option DecodeError) → Holds (Got P) (conclude last)
  conclude-Got P none = tt
  conclude-Got P (some e) = elim (Bool-cases (is_invalid_signature e)) [
    | inl yes_ ↦ rw yes_ tt
    | inr no_ ↦ rw no_ tt
  ]

  try_keys-Got :
      (jwks : List Jwk) (now : ℕ) (token : Text) (kid : Option Text) (val : Validation)
      (cs : List (CachedKey K)) (last : Option DecodeError)
      → AllFrom jwks cs
      → Holds (Got (Vouched jwks now token val)) (try_keys lib now token kid val cs last)
  unfolding try_keys
  try_keys-Got jwks now token kid val [] last h = conclude-Got (Vouched jwks now token val) last
  try_keys-Got jwks now token kid val (c ∷ cs) last h = elim (Bool-cases (is_candidate kid c.kid)) [
    | inr skip ↦ rw (skip, try_keys) (try_keys-Got jwks now token kid val cs last h.1)
    | inl tries ↦
        rw (tries, try_keys)
          (decoded (λ e. try_keys-Got jwks now token kid val cs (some e) h.1)
            (lib.decode now token c.key val) refl)
  ]
    where
      decoded :
          ((e : DecodeError)
            → Holds (Got (Vouched jwks now token val)) (try_keys lib now token kid val cs (some e)))
          → (r : Result DecodeError SessionClaims) → lib.decode now token c.key val ≡ r
          → Holds (Got (Vouched jwks now token val)) (elim r [
            | ok claims ↦ ok (some claims)
            | err e ↦ try_keys lib now token kid val cs (some e)
          ])
      decoded again (ok claims) e = (c.key, h.0, e)
      decoded again (err x) e = again x

  try_verify-Got :
      (jwks : List Jwk) (now : ℕ) (token : Text) (val : Validation) (cs : List (CachedKey K))
      → AllFrom jwks cs
      → Holds (Got (Vouched jwks now token val)) (try_verify lib now token val cs)
  unfolding try_verify
  try_verify-Got jwks now token val [] h = tt
  try_verify-Got jwks now token val (c ∷ cs) h =
      try_keys-Got jwks now token (lib.decode_kid token) val (c ∷ cs) none h

  -- What holds of the verifier of a provider after a history.
  abbrev Inv : Text → Text → List Jwk → TokenVerifier K → Type 0
  Inv own issuer jwks v = (v.provider_id ≡ own) × (v.issuer ≡ issuer) × AllFrom jwks v.keys

  -- The claims are for the provider, and stand in the token.
  abbrev pub Accepted : Text → Text → List Jwk → ℕ → Text → SessionClaims → Type 0
  Accepted own issuer jwks now token claims =
      (claims.provider_id ≡ own) × Vouched jwks now token (validation_of issuer) claims

  adopt-Inv :
      (own issuer : Text) (old new_ : List Jwk) (now : ℕ) (v : TokenVerifier K)
      (r : Result TokenError (List (CachedKey K)))
      → Holds (AllFrom new_) r
      → Inv own issuer old v
      → Inv own issuer (new_ ++ old) (adopt now v r).1
  adopt-Inv own issuer old new_ now v (err e) h i =
      (i.0, i.1, AllFrom-mono old (new_ ++ old) v.keys (λ j m. append_right new_ m) i.2)
  adopt-Inv own issuer old new_ now v (ok []) h i =
      (i.0, i.1, AllFrom-mono old (new_ ++ old) v.keys (λ j m. append_right new_ m) i.2)
  adopt-Inv own issuer old new_ now v (ok (c ∷ cs)) h i =
      (i.0, i.1, AllFrom-mono new_ (new_ ++ old) (c ∷ cs) (λ j m. append_left old m) h)

  refresh-Inv :
      (own issuer : Text) (old : List Jwk) (now : ℕ) (a : Option (List Jwk)) (v : TokenVerifier K)
      → Inv own issuer old v
      → Inv own issuer (answered a ++ old) (refresh lib now a v).1
  unfolding refresh
  refresh-Inv own issuer old now none v i = i
  refresh-Inv own issuer old now (some js) v i =
      adopt-Inv own issuer old js now (record v { fetches = now ∷ v.fetches }) (read_keys lib js)
        (read_keys-AllFrom js) i

  check_provider-Accepted :
      (own issuer : Text) (jwks : List Jwk) (now : ℕ) (token : Text) (claims : SessionClaims)
      → Vouched jwks now token (validation_of issuer) claims
      → Holds (Accepted own issuer jwks now token) (check_provider own claims)
  unfolding check_provider
  check_provider-Accepted own issuer jwks now token claims h =
      elim (Bool-cases (text_eq claims.provider_id own)) [
        | inl same ↦ rw (same, check_provider) ((text_eq_iff claims.provider_id own).0 same, h)
        | inr other ↦ rw (other, check_provider) tt
      ]

  -- The answer and the verifier behind it.
  abbrev Fine :
      Text → Text → List Jwk → ℕ → Text → Result TokenError SessionClaims × TokenVerifier K → Type 0
  Fine own issuer jwks now token (r, v) =
      Holds (Accepted own issuer jwks now token) r × Inv own issuer jwks v

  settle-Accepted :
      (issuer : Text) (jwks : List Jwk) (now : ℕ) (token : Text) (v : TokenVerifier K)
      (r : Result TokenError (Option SessionClaims))
      → Holds (Got (Vouched jwks now token (validation_of issuer))) r
      → Holds (Accepted v.provider_id issuer jwks now token) (settle lib v r)
  settle-Accepted issuer jwks now token v (err e) h = tt
  settle-Accepted issuer jwks now token v (ok none) h = tt
  settle-Accepted issuer jwks now token v (ok (some claims)) h =
      check_provider-Accepted v.provider_id issuer jwks now token claims h

  retry-Fine :
      (own issuer : Text) (jwks : List Jwk) (now : ℕ) (token : Text) (r : Result TokenError ℕ)
      (v : TokenVerifier K)
      → Inv own issuer jwks v
      → Fine own issuer jwks now token (retry lib now token (validation_of issuer) (r, v))
  retry-Fine own issuer jwks now token (err e) v i = (tt, i)
  retry-Fine own issuer jwks now token (ok n) v i =
      let val = validation_of issuer in
      let r = try_verify lib now token val v.keys in
      (
        subst (λ p. Holds (Accepted p issuer jwks now token) (settle lib v r)) i.0
            (settle-Accepted issuer jwks now token v r
              (try_verify-Got jwks now token val v.keys i.2)),
        i,
      )

  or_refetch-Fine :
      (own issuer : Text) (old : List Jwk) (now : ℕ) (a : Option (List Jwk)) (token : Text)
      (v : TokenVerifier K) (r : Result TokenError (Option SessionClaims))
      → Inv own issuer old v
      → Holds (Got (Vouched (answered a ++ old) now token (validation_of issuer))) r
      → Fine own issuer
          (answered a ++ old)
          now
          token
          (or_refetch lib now a token (validation_of issuer) v r)
  or_refetch-Fine own issuer old now a token v r i h = go r h
    where
      kept : Inv own issuer (answered a ++ old) v
      kept = (
        i.0,
        i.1,
        AllFrom-mono old (answered a ++ old) v.keys (λ j m. append_right (answered a) m) i.2,
      )

      go :
          (r : Result TokenError (Option SessionClaims))
          → Holds (Got (Vouched (answered a ++ old) now token (validation_of issuer))) r
          → Fine own issuer
              (answered a ++ old)
              now
              token
              (or_refetch lib now a token (validation_of issuer) v r)
      go (err e) h = (tt, kept)
      go (ok (some claims)) h = (
        subst
            (λ p.
              Holds (Accepted p issuer (answered a ++ old) now token)
                (check_provider v.provider_id claims))
            i.0
            (check_provider-Accepted v.provider_id issuer (answered a ++ old) now token claims h),
        kept,
      )
      go (ok none) h = elim (Bool-cases (is_due now v.last_refresh)) [
        | inl due ↦ rw due (
            retry-Fine own issuer (answered a ++ old) now token (refresh lib now a v).0
              (refresh lib now a v).1 (refresh-Inv own issuer old now a v i))
        | inr early ↦ rw early (tt, kept)
      ]

  verify-Fine :
      (own issuer : Text) (old : List Jwk) (now : ℕ) (a : Option (List Jwk)) (token : Text)
      (v : TokenVerifier K)
      → Inv own issuer old v
      → Fine own issuer (answered a ++ old) now token (verify lib now a token v)
  unfolding verify
  verify-Fine own issuer old now a token v i =
      let jwks = answered a ++ old in
      let val = validation_of v.issuer in
      let kept = AllFrom-mono old jwks v.keys (λ j m. append_right (answered a) m) i.2 in
      subst (λ x. Fine own x jwks now token (verify lib now a token v)) i.1
        (or_refetch-Fine own v.issuer old now a token v (try_verify lib now token val v.keys)
          (i.0, refl, i.2) (try_verify-Got jwks now token val v.keys kept))

  step-Inv :
      (own first : Text) (e : Event) (es : List Event) (v : TokenVerifier K)
      → Inv own (issuer_of first es) (served es) v
      → Inv own (issuer_of first (e ∷ es)) (served (e ∷ es)) (step e v)
  unfolding step set_issuer
  step-Inv own first (fetches now a) es v i =
      refresh-Inv own (issuer_of first es) (served es) now a v i
  step-Inv own first (adopts issuer) es v i = (i.0, refl, i.2)
  step-Inv own first (checks now a token) es v i =
      (verify-Fine own (issuer_of first es) (served es) now a token v i).1

  run-Inv :
      (own first : Text) (es : List Event)
      → Inv own (issuer_of first es) (served es) (run es (new own first))
  unfolding run new
  run-Inv own first [] = (refl, refl, tt)
  run-Inv own first (e ∷ es) =
      step-Inv own first e es (run es (new own first)) (run-Inv own first es)

  -- After any history of fetches, issuers and tokens: claims that a token is found to hold are minted
  -- for this provider, and the library decoded them from that very token, for the issuer adopted
  -- last, by a key of an entry that the endpoint has served, be it just now, and that is usable: an
  -- Ed25519 key whose algorithm, if it has one, is EdDSA.
  pub verify-Accepted :
      (own first : Text) (es : List Event) (now : ℕ) (a : Option (List Jwk)) (token : Text)
      (claims : SessionClaims)
      → (verify lib now a token (run es (new own first))).0 ≡ ok claims
      → Accepted own (issuer_of first es) (answered a ++ served es) now token claims
  verify-Accepted own first es now a token claims q =
      subst (Holds (Accepted own (issuer_of first es) (answered a ++ served es) now token)) q
        (verify-Fine own (issuer_of first es) (served es) now a token _ (run-Inv own first es)).0
