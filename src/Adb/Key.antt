-- ===== src/Adb/Key.antt =====
-- packages/provider/crates/adb-bridge/src/key.rs: ADB public keys. Base64, RSA and the digests are
-- libraries, and so the fields of a record that the definitions take.
use yard.Prelude.{
  ℕ, ◌+◌, ◌*◌, ◌&&◌, ◌||◌, Bool, Option, none, some, List, [], ◌∷◌, ◌++◌, ◌==◌, leb, if◌then◌else◌,
  Bytes, Text, length, take, drop, get_or, false, Result, ok, err, ◌>>=◌, ok_or, not,
}
use yard.Prelude.Words.{le_word}

-- `STANDARD.decode`, `RsaPublicKey::new` of a modulus in big-endian bytes and an exponent, the check of
-- a signature over a token, and the fingerprint.
pub record Rsa (R : Type 0) : Type 0 where
  pub decode : Text → Option Bytes
  pub new_key : Bytes → ℕ → Option R
  pub verify : R → Bytes → Bytes → Bool
  pub fingerprint_of : R → Text

abbrev pub blob_size : ℕ
blob_size = 524

abbrev pub modulus_words : ℕ
modulus_words = 64

abbrev pub modulus_size : ℕ
modulus_size = modulus_words * 4

pub data KeyError : Type 0 where
  empty_key not_base64 : KeyError
  wrong_size : ℕ → KeyError
  unsupported_size not_an_rsa_key : KeyError

pub record PublicKey (R : Type 0) : Type 0 where
  pub inner : R
  pub blob : Text
  pub fingerprint : Text
  pub comment : Option Text
  pub owner : Option Text

-- `char::is_whitespace`.
abbrev pub is_whitespace : ℕ → Bool
is_whitespace c =
    (leb 9 c && leb c 13)
    || (c == 32)
    || (c == 0x85)
    || (c == 0xA0)
    || (c == 0x1680)
    || (leb 0x2000 c && leb c 0x200A)
    || (c == 0x2028)
    || (c == 0x2029)
    || (c == 0x202F)
    || (c == 0x205F)
    || (c == 0x3000)

abbrev push_first : ℕ → List Text → List Text
push_first c [] = (c ∷ []) ∷ []
push_first c (w ∷ ws) = (c ∷ w) ∷ ws

abbrev pub starts_word : Text → Bool
starts_word [] = false
starts_word (c ∷ cs) = not (is_whitespace c)

unfoldable pub split_whitespace : Text → List Text
split_whitespace [] = []
split_whitespace (c ∷ cs) =
    let rest : List Text = split_whitespace cs in
    if is_whitespace c then rest else if starts_word cs then push_first c rest else (c ∷ []) ∷ rest

-- `join(" ")`.
abbrev pub join_words : List Text → Text
join_words [] = []
join_words (w ∷ []) = w
join_words (w ∷ v ∷ ws) = w ++ (32 ∷ join_words (v ∷ ws))

abbrev pub comment_of : List Text → Option Text
comment_of [] = none
comment_of (w ∷ ws) = some (join_words (w ∷ ws))

abbrev pub reverse_onto : Bytes → Bytes → Bytes
reverse_onto [] acc = acc
reverse_onto (b ∷ bs) acc = reverse_onto bs (b ∷ acc)

-- The `u32` at a position, little-endian.
abbrev pub word_at : Bytes → ℕ → ℕ
word_at bs i =
    le_word (get_or bs i 0) (get_or bs (i + 1) 0) (get_or bs (i + 2) 0) (get_or bs (i + 3) 0)

module _ {R : Type 0} (rsa : Rsa R) where
  abbrev pub from_parts : Text → Option Text → R → PublicKey R
  from_parts encoded comment inner = record {
    inner = inner;
    blob = encoded;
    fingerprint = rsa.fingerprint_of inner;
    comment = comment;
    owner = none;
  }

  -- What follows the base64: the blob's guards, then its modulus and exponent.
  unfoldable pub from_blob : Text → Option Text → Bytes → Result KeyError (PublicKey R)
  from_blob encoded comment blob =
      if not (length blob == blob_size)
      then err (wrong_size (length blob))
      else if not (word_at blob 0 == modulus_words)
      then err unsupported_size
      else let modulus : Bytes = reverse_onto (take modulus_size (drop 8 blob)) [] in
        let exponent : ℕ = word_at blob (8 + modulus_size * 2) in
        ok_or (rsa.new_key modulus exponent) not_an_rsa_key
        >>= (λ inner. ok (from_parts encoded comment inner))

  unfoldable pub parse : Text → Result KeyError (PublicKey R)
  parse contents = elim (split_whitespace contents) [
    | [] ↦ err empty_key
    | encoded ∷ rest ↦
        ok_or (rsa.decode encoded) not_base64 >>= (λ blob. from_blob encoded (comment_of rest) blob)
  ]

abbrev pub with_owner : {R : Type 0} → Text → PublicKey R → PublicKey R
with_owner user key = record key { owner = some user }
