-- ===== src/Server/Files/Names.antt =====
-- Names that stay where they are put.
use yard.Prelude.{
  ◌≡◌, refl, Bool, true, false, ◌||◌, ◌==◌, ◌/◌, ◌%◌, Bool-cases, inl, inr, [], ◌∷◌, ℕ, Text, Bytes,
  all, is_empty, keep, arith,
}
use yard.Core.Preload.{
  is_safe_char, last_segment, name_or_default, is_single_component, artifact_name,
}
use yard.Core.Preload.Names.{is_hex, is_single_component-artifact_name}
use yard.Server.Files.{sanitize_filename, hex, hex_digit}

abbrev pub is_dots : Text → Bool
is_dots = all λ c. c == 46

all-keep : (p : ℕ → Bool) (xs : Text) → all p (keep p xs) ≡ true
all-keep p [] = refl
all-keep p (x ∷ xs) = elim (Bool-cases (p x)) [
  | inl h ↦ rw (h, keep) (rw h (all-keep p xs))
  | inr h ↦ rw (h, keep) (all-keep p xs)
]

name_or_default_lem :
    (xs : Text)
    → all is_safe_char xs ≡ true
    → (all is_safe_char (name_or_default xs) ≡ true)
      × (is_empty (name_or_default xs) ≡ false)
      × (is_dots (name_or_default xs) ≡ false)
name_or_default_lem xs h = elim (Bool-cases (is_empty xs || is_dots xs)) [
  | inl i ↦ rw (i, name_or_default) (refl, refl, refl)
  | inr i ↦ rw (i, name_or_default) (h, ground (arith, i), ground (arith, i))
]

digit_hex : (d : ℕ) → is_hex (hex_digit (d % 16)) ≡ true
digit_hex d = ground arith

hex_digits_lem : (bs : Bytes) → all is_hex (hex bs) ≡ true
unfolding hex
hex_digits_lem [] = refl
hex_digits_lem (b ∷ bs) = rw (digit_hex (b / 16), digit_hex b) (hex_digits_lem bs)

-- Whatever name comes in an upload's header and whatever its digest is, the staged file's name keeps
-- only letters, digits, dots, dashes and underscores, is not empty and is not made of dots alone;
-- and the store's file, named by the digest in hexadecimal and that name, is a single name below the
-- store's directory.
pub sanitize_filename-hex :
    (raw : Text) (digest : Bytes)
    → (all is_safe_char (sanitize_filename raw) ≡ true)
      × (is_empty (sanitize_filename raw) ≡ false)
      × (is_dots (sanitize_filename raw) ≡ false)
      × (is_single_component (artifact_name (hex digest) (sanitize_filename raw)) ≡ true)
unfolding sanitize_filename
sanitize_filename-hex raw digest =
    let n =
      name_or_default_lem (keep is_safe_char (last_segment raw raw))
        (all-keep is_safe_char (last_segment raw raw)) in
    (
      n.0,
      n.1,
      n.2,
      is_single_component-artifact_name (hex digest) (sanitize_filename raw)
          (hex_digits_lem digest),
    )
