-- ===== src/Core/Preload/Names.antt =====
-- The names of the artifacts.
use yard.Prelude.{
  ℕ, ◌≡◌, refl, ap, Bool, true, not, ◌&&◌, ◌||◌, [], ◌∷◌, ◌++◌, ◌==◌, Text, text_eq, arith, codes,
  all, keep, is_empty, Bool-cases, inl, inr,
}
use yard.Core.Preload.{
  artifact_name, is_single_component, first_component, behind_component, is_safe_char,
  name_or_default, last_segment, between,
}

-- Digits and the letters a to f.
abbrev pub is_hex : ℕ → Bool
is_hex c = between 48 57 c || between 97 102 c

abbrev no_slash : ℕ → Bool
no_slash c = not (c == 47)

all-append :
    (p : ℕ → Bool) (xs ys : Text) → all p xs ≡ true → all p ys ≡ true → all p (xs ++ ys) ≡ true
all-append p [] ys h k = k
all-append p (x ∷ xs) ys h k = ground (arith, h, all-append p xs ys, k)

all_hex : (xs : Text) → all is_hex xs ≡ true → all no_slash xs ≡ true
all_hex [] h = refl
all_hex (x ∷ xs) h = ground (arith, h, all_hex xs)

keep_safe : (xs : Text) → all no_slash (keep is_safe_char xs) ≡ true
keep_safe [] = refl
keep_safe (x ∷ xs) = elim (Bool-cases (is_safe_char x)) [
  | inl h ↦ rw (h, keep) (ground (arith, h, keep_safe xs))
  | inr h ↦ rw (h, keep) (keep_safe xs)
]

default_safe : (xs : Text) → all no_slash xs ≡ true → all no_slash (name_or_default xs) ≡ true
default_safe xs h = elim (Bool-cases (is_empty xs || all (λ c. c == 46) xs)) [
  | inl i ↦ rw (i, name_or_default) refl
  | inr i ↦ rw (i, name_or_default) h
]

first_component_whole : (xs : Text) → all no_slash xs ≡ true → first_component xs ≡ xs
first_component_whole [] h = refl
first_component_whole (x ∷ xs) h = elim (Bool-cases (x == 47)) [
  | inl i ↦ ground (arith, h, i)
  | inr i ↦ rw (i, first_component) (ap (◌∷◌ x) (first_component_whole xs (ground (arith, h, i))))
]

behind_component_none : (xs : Text) → all no_slash xs ≡ true → behind_component xs ≡ []
behind_component_none [] h = refl
behind_component_none (x ∷ xs) h = elim (Bool-cases (x == 47)) [
  | inl i ↦ ground (arith, h, i)
  | inr i ↦ rw (i, behind_component) (behind_component_none xs (ground (arith, h, i)))
]

not_dots :
    (sha name : Text)
    → all is_hex sha ≡ true
    → (not (is_empty (sha ++ (45 ∷ name)))
        && not (text_eq (sha ++ (45 ∷ name)) (codes "."))
        && not (text_eq (sha ++ (45 ∷ name)) (codes ".."))
        && true)
      ≡ true
unfolding text_eq
not_dots [] name h = refl
not_dots (x ∷ sha) name h = ground (arith, h)

-- The file of a preload is a single name below the artifacts' directory, whatever name the upload had,
-- where the digest is written in hexadecimal.
pub is_single_component-artifact_name :
    (sha256 filename : Text)
    → all is_hex sha256 ≡ true
    → is_single_component (artifact_name sha256 filename) ≡ true
unfolding is_single_component artifact_name
is_single_component-artifact_name sha256 filename h =
    let name : Text = name_or_default (keep is_safe_char (last_segment filename filename)) in
    let n : all no_slash name ≡ true =
      default_safe (keep is_safe_char (last_segment filename filename))
        (keep_safe (last_segment filename filename)) in
    let k : all no_slash (sha256 ++ (45 ∷ name)) ≡ true =
      all-append no_slash sha256 (45 ∷ name) (all_hex sha256 h) n in
    rw
      (
        first_component_whole (sha256 ++ (45 ∷ name)) k,
        behind_component_none (sha256 ++ (45 ∷ name)) k,
      )
      (not_dots sha256 name h)
