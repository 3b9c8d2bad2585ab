-- ===== src/Adb/Auth.antt =====
-- packages/provider/crates/adb-bridge/src/auth.rs: the challenge-response handshake. The client is the
-- list of the frames that `Message::read` gives, up to an error; `tokens` are the random challenges in
-- the order they are made.
pub mod Proof
pub mod Attempts
use yard.Prelude.{
  ℕ, zero, suc, ◌+◌, Bool, true, false, Option, none, some, List, [], ◌∷◌, ◌++◌, ◌==◌,
  if◌then◌else◌, Bytes, Text, find, any, min, max, Result, ok, err,
}
use yard.Adb.Message.{
  Message, Command, FrameError, cnxn, auth, new, auth_token, auth_signature, auth_rsapublickey,
  max_payload, version, payload_str,
}
use yard.Adb.Key.{Rsa, KeyError, PublicKey, parse}

abbrev pub max_attempts : ℕ
max_attempts = 16

pub record Identity : Type 0 where
  pub user_id : Text
  pub fingerprint : Text

pub data AuthError : Type 0 where
  frame : FrameError → AuthError
  unexpected : Command → AuthError
  bad_key : KeyError → AuthError
  no_proof_of_possession refused too_many_attempts : AuthError

pub record Handshake : Type 0 where
  pub identity : Identity
  pub max_payload : ℕ

-- What the handshake did so far: the messages sent and the keys asked about, the newest first.
pub record Trace (R : Type 0) : Type 0 where
  pub sent : List Message
  pub asked : List (PublicKey R)

-- The environment: the crypto library, the farm's answers, the device's banner, `from_utf8_lossy`, the
-- random tokens, and the error that ends the client's frames.
pub record Setting (R : Type 0) : Type 0 where
  pub rsa : Rsa R
  pub entitled : List (PublicKey R)
  pub request : PublicKey R → Option Text
  pub banner : Bytes
  pub lossy : Bytes → Text
  pub tokens : ℕ → Bytes
  pub last_error : FrameError

abbrev pub is_auth : Command → Bool
is_auth auth = true
is_auth _ = false

abbrev pub is_cnxn : Command → Bool
is_cnxn cnxn = true
is_cnxn _ = false

abbrev pub unwrap_or_default : Option Text → Text
unwrap_or_default none = []
unwrap_or_default (some t) = t

module _ {R : Type 0} (e : Setting R) where
  abbrev pub Answer : Type 0
  Answer = Result AuthError Handshake × Trace R

  abbrev pub send : Message → Trace R → Trace R
  send m t = record t { sent = m ∷ t.sent }

  abbrev pub challenge : ℕ → Trace R → Trace R
  challenge i t = send (new auth auth_token 0 (e.tokens i)) t

  -- `accept`, behind it the handshake.
  abbrev pub accept : ℕ → Identity → Trace R → Answer
  accept limit who t = (
    ok (record { identity = who; max_payload = limit }),
    send (new cnxn version limit (e.banner ++ 0 ∷ [])) t,
  )

  abbrev pub verify : PublicKey R → Bytes → Bytes → Bool
  verify key token signature = e.rsa.verify key.inner token signature

  -- The entitled key that signed the outstanding token, the `i`th.
  unfoldable pub matching : ℕ → Bytes → Option (PublicKey R)
  matching i signature = find (λ k. verify k (e.tokens i) signature) e.entitled

  abbrev pub owned : PublicKey R → Identity
  owned key = record { user_id = unwrap_or_default key.owner; fingerprint = key.fingerprint }

  -- Whether a key signed one of the attempts.
  abbrev pub proves : List (Bytes × Bytes) → PublicKey R → Bool
  proves attempted key = any (λ a. verify key a.0 a.1) attempted

  abbrev pub ask : ℕ → PublicKey R → Trace R → Answer
  ask limit key t = elim (e.request key) [
    | none ↦ (err refused, record t { asked = key ∷ t.asked })
    | some user ↦
        accept limit (record { user_id = user; fingerprint = key.fingerprint })
          (record t { asked = key ∷ t.asked })
  ]

  -- The client offers a public key.
  unfoldable pub offer : ℕ → List (Bytes × Bytes) → Message → Trace R → Answer
  offer limit attempted m t = elim (parse e.rsa (payload_str e.lossy m)) [
    | err reason ↦ (err (bad_key reason), t)
    | ok key ↦ if proves attempted key then ask limit key t else (err no_proof_of_possession, t)
  ]

  -- One frame of the loop; `again` is what follows a refused signature, `ignored` what follows an
  -- unknown type.
  abbrev pub react :
      ℕ → ℕ → List (Bytes × Bytes) → Message → Trace R → (again ignored : Answer) → Answer
  react limit i attempted m t again ignored =
      if is_auth m.command
      then if m.arg0 == auth_signature
        then elim (matching i m.payload) [ some key ↦ accept limit (owned key) t | none ↦ again ]
        else if m.arg0 == auth_rsapublickey
        then offer limit attempted m t
        else ignored
      else (err (unexpected m.command), t)

  -- The loop, with the attempts left, the number of the outstanding token, and the refused signatures
  -- with their tokens.
  unfoldable pub attempts : ℕ → ℕ → ℕ → List (Bytes × Bytes) → List Message → Trace R → Answer
  attempts limit zero i attempted fs t = (err too_many_attempts, t)
  attempts limit (suc n) i attempted [] t = (err (frame e.last_error), t)
  attempts limit (suc n) i attempted (m ∷ fs) t =
      react limit i attempted m t
        (attempts limit n (suc i) (attempted ++ (e.tokens i, m.payload) ∷ []) fs
          (challenge (suc i) t))
        (attempts limit n i attempted fs t)

  abbrev pub fresh : Trace R
  fresh = record { sent = []; asked = [] }

  -- `clamp(1, MAX_PAYLOAD)`.
  abbrev pub clamp : ℕ → ℕ
  clamp n = min (max n 1) max_payload

  unfoldable pub authenticate : List Message → Answer
  authenticate [] = (err (frame e.last_error), fresh)
  authenticate (connect ∷ fs) =
      if is_cnxn connect.command
      then attempts (clamp connect.arg1) max_attempts 0 [] fs (challenge 0 fresh)
      else (err (unexpected connect.command), fresh)
