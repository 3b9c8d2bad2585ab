-- ===== src/Prelude/Texts.antt =====
-- Texts as lists of code points, and equality as an interface of what can be a key.
use Prim.Native.Char.{code}
use Prim.Native.Nat.{ℕ}
use Prim.Native.String.{String}
use mathlib.Core.Path.{◌≡◌, refl}
use mathlib.Core.Bool.{Bool, true, false, ◌&&◌, ◌||◌}
use mathlib.Core.List.{List, [], ◌∷◌}
use mathlib.Core.Logic.{◌↔◌}
use native.Mathlib.Omega.{arith}
use yard.Prelude.Tests.{◌==◌}

abbrev pub Text : Type 0
Text = List ℕ

-- The code points of a literal.
abbrev pub codes : String → Text
codes String.[] = []
codes (String.◌∷◌ c s) = code c ∷ codes s

unfoldable pub text_eq : Text → Text → Bool
text_eq [] [] = true
text_eq [] (y ∷ ys) = false
text_eq (x ∷ xs) [] = false
text_eq (x ∷ xs) (y ∷ ys) = (x == y) && text_eq xs ys

text_eq→eq : (xs ys : Text) → text_eq xs ys ≡ true → xs ≡ ys
unfolding text_eq
text_eq→eq [] [] h = refl
text_eq→eq [] (y ∷ ys) h = ground arith
text_eq→eq (x ∷ xs) [] h = ground arith
text_eq→eq (x ∷ xs) (y ∷ ys) h = ground (arith, text_eq→eq xs ys)

text_eq_self : (xs : Text) → text_eq xs xs ≡ true
unfolding text_eq
text_eq_self [] = refl
text_eq_self (x ∷ xs) = ground (arith, text_eq_self xs)

eq→text_eq : (xs ys : Text) → xs ≡ ys → text_eq xs ys ≡ true
eq→text_eq xs ys e = rw e (text_eq_self ys)

pub text_eq_iff : (xs ys : Text) → (text_eq xs ys ≡ true) ↔ (xs ≡ ys)
text_eq_iff xs ys = (text_eq→eq xs ys, eq→text_eq xs ys)

-- What a key type gives to a map or a set.
pub record Key (K : Type 0) : Type 0 where
  pub eq : K → K → Bool
  pub eq_lem : (a b : K) → (eq a b ≡ true) ↔ (a ≡ b)

pub ==_lem : (a b : ℕ) → ((a == b) ≡ true) ↔ (a ≡ b)
==_lem a b = ground arith

instance abbrev pub nat_key : Key ℕ
nat_key = record { eq = ◌==◌; eq_lem = ==_lem }

instance abbrev pub text_key : Key Text
text_key = record { eq = text_eq; eq_lem = text_eq_iff }

module _ {K : Type 0} ⦃k : Key K⦄ where
  pub eq_refl : (a : K) → k.eq a a ≡ true
  eq_refl a = (k.eq_lem a a).1 refl

  -- `contains` of a set or a slice.
  unfoldable pub contains : List K → K → Bool
  contains [] a = false
  contains (x ∷ xs) a = k.eq x a || contains xs a
