-- ===== src/Tests/Handshakes.antt =====
-- A toy signature: a key of one number signs a token by putting its number before it.
use yard.Prelude.{ℕ, ◌+◌, ◌≤◌, ◌≡◌, refl, none, some, List, [], ◌∷◌, codes, text_eq, ok}
use yard.Adb.Message.{Message, cnxn, auth, new, auth_signature, io, max_payload}
use yard.Adb.Key.{Rsa, PublicKey, split_whitespace}
use yard.Adb.Auth.{Setting, Handshake, Trace, authenticate, attempts, matching}
use yard.Adb.Auth.Proof.{signatures, Admitted, authenticate-Admitted}

abbrev toy : Rsa ℕ
toy = record {
  decode = λ t. none;
  new_key = λ m n. none;
  verify = λ k token sig. text_eq sig (k ∷ token);
  fingerprint_of = λ k. k ∷ [];
}

abbrev key : PublicKey ℕ
key = record {
  inner = 5;
  blob = [];
  fingerprint = 5 ∷ [];
  comment = none;
  owner = some (codes "ada");
}

abbrev setting : Setting ℕ
setting = record {
  rsa = toy;
  entitled = key ∷ [];
  request = λ k. none;
  banner = codes "device::";
  lossy = λ bs. bs;
  tokens = λ i. (i + 10) ∷ [];
  last_error = io;
}

-- The first signature is over another token; the second is right.
abbrev frames : List Message
frames =
    new cnxn 0x01000000 4096 []
    ∷ new auth auth_signature 0 (5 ∷ 99 ∷ [])
    ∷ new auth auth_signature 0 (5 ∷ 11 ∷ [])
    ∷ []

abbrev settled : Handshake
settled = record {
  identity = record { user_id = codes "ada"; fingerprint = 5 ∷ [] };
  max_payload = 4096;
}

abbrev trace : Trace ℕ
trace = (authenticate setting frames).1

authenticate-frames : authenticate setting frames ≡ (ok settled, trace)
unfolding authenticate attempts matching text_eq
authenticate-frames = refl

authenticate-Admitted_example :
    Admitted setting (signatures frames) settled.identity
    × (1 ≤ settled.max_payload)
    × (settled.max_payload ≤ max_payload)
authenticate-Admitted_example =
    authenticate-Admitted setting frames settled trace authenticate-frames

abbrev sixteen : List Message
sixteen =
    let m : Message = new auth 9 0 [] in
    m ∷ m ∷ m ∷ m ∷ m ∷ m ∷ m ∷ m ∷ m ∷ m ∷ m ∷ m ∷ m ∷ m ∷ m ∷ m ∷ []

words_of_key :
    split_whitespace (codes " AAAA  dev@host b ") ≡ codes "AAAA" ∷ codes "dev@host" ∷ codes "b" ∷ []
unfolding split_whitespace
words_of_key = refl
