-- ===== src/Prelude/Dict.antt =====
-- A map keyed by texts or by numbers, as an association list without double keys:
-- `HashMap::{get, insert, remove}` of the source. A key occurs once, since `insert` replaces.
use mathlib.Core.Path.{◌≡◌, refl}
use mathlib.Core.List.{List, [], ◌∷◌}
use mathlib.Core.Option.{Option, none, some}
use native.Mathlib.Omega.{arith}
use yard.Prelude.Tests.{if◌then◌else◌}
use yard.Prelude.Texts.{Key}

module _ {K : Type 0} {V : Type 0} ⦃k : Key K⦄ where
  unfoldable pub lookup : K → List (K × V) → Option V
  lookup a [] = none
  lookup a ((b, v) ∷ m) = if k.eq b a then some v else lookup a m

  unfoldable pub insert : K → V → List (K × V) → List (K × V)
  insert a v [] = (a, v) ∷ []
  insert a v ((b, w) ∷ m) = if k.eq b a then (a, v) ∷ m else (b, w) ∷ insert a v m

  unfoldable pub remove : K → List (K × V) → List (K × V)
  remove a [] = []
  remove a ((b, w) ∷ m) = if k.eq b a then remove a m else (b, w) ∷ remove a m

  pub lookup-insert :
      (a b : K) (v : V) (m : List (K × V))
      → lookup b (insert a v m) ≡ (if k.eq a b then some v else lookup b m)
  unfolding lookup insert
  lookup-insert a b v [] = refl
  lookup-insert a b v ((c, w) ∷ m) =
      ground (arith, k.eq_lem a b, k.eq_lem c a, k.eq_lem c b, lookup-insert a b v m)

  pub lookup-remove :
      (a b : K) (m : List (K × V)) → lookup b (remove a m) ≡ (if k.eq a b then none else lookup b m)
  unfolding lookup remove
  lookup-remove a b [] = ground arith
  lookup-remove a b ((c, w) ∷ m) =
      ground (arith, k.eq_lem a b, k.eq_lem c a, k.eq_lem c b, lookup-remove a b m)
