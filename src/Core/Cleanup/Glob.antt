-- ===== src/Core/Cleanup/Glob.antt =====
-- `matches` decides the glob relation.
use mathlib.Core.List.{append_assoc, append-nil}
use native.Mathlib.Decide.{ℕ_discrete}
use yard.Prelude.{
  ℕ, ◌-◌, ◌≤◌, ◌≡◌, ◌≢◌, ◌↔◌, refl, sym, ap, subst, ◌∙◌, true, none, some, List, [], ◌∷◌, ◌++◌,
  Text, length, drop, arith, Option-cases, inl, inr, text_eq_iff, leb, drop-append, length-append,
  take, take-append-drop,
}
use yard.Core.Cleanup.Filter.{
  lowercase, split_star, strip_prefix, find_after, ends_with, match_rest, matches,
}

-- `*` stands for any run of characters; every other character for itself.
pub data Glob : Text → Text → Type 0 where
  end : Glob [] []
  char : {p s : Text} (c : ℕ) → c ≢ b'*' → Glob p s → Glob (c ∷ p) (c ∷ s)
  skip : {p s : Text} (c : ℕ) → c ≡ b'*' → Glob p s → Glob (c ∷ p) s
  eat : {p s : Text} (c d : ℕ) → c ≡ b'*' → Glob (c ∷ p) s → Glob (c ∷ p) (d ∷ s)

-- Some run, then the segment, then the rest; at the end nothing.
abbrev Stars : List Text → Text → Type 0
Stars [] s = s ≡ []
Stars (seg ∷ segs) s = (x y : Text) × (s ≡ x ++ (seg ++ y)) × Stars segs y

Stars-append :
    (segs : List Text) (seg z s : Text) → Stars (seg ∷ segs) s → Stars (seg ∷ segs) (z ++ s)
Stars-append segs seg z s (x, y, e, r) =
    (z ++ x, y, ap (◌++◌ z) e ∙ sym (append_assoc z x (seg ++ y)), r)

strip_prefix-eq : (p s : Text) {r : Text} → strip_prefix p s ≡ some r → s ≡ p ++ r
unfolding strip_prefix
strip_prefix-eq [] s h = ground arith
strip_prefix-eq (a ∷ p) [] h = absurd (ground arith)
strip_prefix-eq (a ∷ p) (c ∷ s) {r} h = ground (arith, strip_prefix-eq p s {r = r})

strip_prefix-append : (p r : Text) → strip_prefix p (p ++ r) ≡ some r
unfolding strip_prefix
strip_prefix-append [] r = refl
strip_prefix-append (a ∷ p) r = ground (arith, strip_prefix-append p r)

find_after-eq :
    (seg s : Text) {r : Text} → find_after seg s ≡ some r → (x : Text) × (s ≡ x ++ (seg ++ r))
unfolding find_after
find_after-eq seg [] h = ([], strip_prefix-eq seg [] h)
find_after-eq seg (c ∷ s) {r} h = elim (Option-cases (strip_prefix seg (c ∷ s))) [
  | inl miss ↦ let (x, e) = find_after-eq seg s {r = r} (ground arith) in (c ∷ x, ap (◌∷◌ c) e)
  | inr (q, hit) ↦ ([], strip_prefix-eq seg (c ∷ s) (ground arith))
]

find_after_hit : (seg s : Text) {r : Text} → strip_prefix seg s ≡ some r → find_after seg s ≡ some r
unfolding find_after
find_after_hit seg [] h = h
find_after_hit seg (c ∷ s) h = rw (h, find_after)

find_after_miss :
    (seg s : Text) (c : ℕ)
    → strip_prefix seg (c ∷ s) ≡ none
    → find_after seg (c ∷ s) ≡ find_after seg s
unfolding find_after
find_after_miss seg s c h = rw (h, find_after)

-- Of two ends of one text the longer ends in the shorter.
suffix_of : (u y v q : Text) → u ++ y ≡ v ++ q → length y ≤ length q → (z : Text) × (q ≡ z ++ y)
suffix_of u y [] q e h = (u, sym e)
suffix_of [] y (a ∷ v) q e h = absurd (let l = ap length e in omega (arith, length-append v q))
suffix_of (b ∷ u) y (a ∷ v) q e h = suffix_of u y v q (ground arith) h

-- The first occurrence leaves at least what any other leaves.
find_after-append :
    (seg x y : Text) → (z : Text) × (find_after seg (x ++ (seg ++ y)) ≡ some (z ++ y))
find_after-append seg [] y = ([], find_after_hit seg (seg ++ y) (strip_prefix-append seg y))
find_after-append seg (c ∷ x) y = elim (Option-cases (strip_prefix seg (c ∷ x ++ (seg ++ y)))) [
  | inl miss ↦
      let (z, e) = find_after-append seg x y in
      (z, find_after_miss seg (x ++ (seg ++ y)) c miss ∙ e)
  | inr (q, hit) ↦
      let e = strip_prefix-eq seg (c ∷ x ++ (seg ++ y)) hit in
      let (z, f) = suffix_of ((c ∷ x) ++ seg) y seg q (append_assoc (c ∷ x) seg y ∙ e) (
        let l = ap length e in
        omega (arith, length-append x (seg ++ y), length-append seg y, length-append seg q)) in
      (z, find_after_hit seg (c ∷ x ++ (seg ++ y)) hit ∙ ap some f)
]

-- The end of a text of at least that length.
ends_with-eq : (s t : Text) → ends_with s t ≡ true → (x : Text) × (s ≡ x ++ t)
unfolding ends_with
ends_with-eq s t h =
    let k = length s - length t in
    let e : drop k s ≡ t = (text_eq_iff (drop k s) t).0 (ground arith) in
    (take k s, sym (ap (◌++◌ (take k s)) (sym e) ∙ take-append-drop k s))

ends_with-append : (x t : Text) → ends_with (x ++ t) t ≡ true
unfolding ends_with
ends_with-append x t =
    let l : length (x ++ t) - length t ≡ length x = omega (arith, length-append x t) in
    let e : drop (length (x ++ t) - length t) (x ++ t) ≡ t = rw l (drop-append x t) in
    let b : leb (length t) (length (x ++ t)) ≡ true = ground (arith, length-append x t) in
    rw (b, (text_eq_iff (drop (length (x ++ t) - length t) (x ++ t)) t).1 e)

match_rest-Stars : (segs : List Text) (s : Text) → match_rest segs s ≡ true → Stars segs s
unfolding match_rest
match_rest-Stars [] [] h = refl
match_rest-Stars [] (c ∷ s) h = absurd (ground arith)
match_rest-Stars (t ∷ []) s h =
    let (x, e) = ends_with-eq s t h in (x, [], e ∙ ap (◌++◌ x) (sym (append-nil t)), refl)
match_rest-Stars (seg ∷ next ∷ segs) s h = elim (Option-cases (find_after seg s)) [
  | inl miss ↦ absurd (ground arith)
  | inr (r, hit) ↦
      let (x, e) = find_after-eq seg s hit in
      (x, r, e, match_rest-Stars (next ∷ segs) r (rw (hit, match_rest) at h))
]

Stars-match_rest : (segs : List Text) (s : Text) → Stars segs s → match_rest segs s ≡ true
unfolding match_rest
Stars-match_rest [] s e = rw e
Stars-match_rest (t ∷ []) s (x, y, e, n) =
    let f : s ≡ x ++ t = e ∙ ap (λ w. x ++ (t ++ w)) n ∙ ap (◌++◌ x) (append-nil t) in
    rw f (ends_with-append x t)
Stars-match_rest (seg ∷ next ∷ segs) s (x, y, e, r) =
    let (z, hit) = find_after-append seg x y in
    let hit' : find_after seg s ≡ some (z ++ y) = ap (find_after seg) e ∙ hit in
    rw (hit', match_rest) (Stars-match_rest (next ∷ segs) (z ++ y) (Stars-append segs next z y r))

-- A text cut by the segments of a pattern.
abbrev Cut : Text → Text → Type 0
Cut p s = (y : Text) × (s ≡ (split_star p).0 ++ y) × Stars (split_star p).1 y

split_star_star :
    (c : ℕ) (p : Text) → c ≡ b'*' → split_star (c ∷ p) ≡ ([], (split_star p).0 ∷ (split_star p).1)
unfolding split_star
split_star_star c p e = ground arith

split_star_char :
    (c : ℕ) (p : Text) → c ≢ b'*' → split_star (c ∷ p) ≡ (c ∷ (split_star p).0, (split_star p).1)
unfolding split_star
split_star_char c p e = ground arith

Glob-Cut : {p s : Text} → Glob p s → Cut p s
unfolding split_star
Glob-Cut end = ([], refl, refl)
Glob-Cut (char {p} {s} c ne g) =
    let (y, e, r) = Glob-Cut g in rw (split_star_char c p ne) (y, ap (◌∷◌ c) e, r)
Glob-Cut (skip {p} {s} c star g) =
    let (y, e, r) = Glob-Cut g in rw (split_star_star c p star) (s, refl, ([], y, e, r))
Glob-Cut (eat {p} {s} c d star g) =
    let cut : Cut (c ∷ p) s = Glob-Cut g in
    let (y, e, r) = rw (split_star_star c p star) at cut in
    rw (split_star_star c p star) (
      d ∷ s,
      refl,
      Stars-append (split_star p).1 (split_star p).0 (d ∷ []) s
          (subst (Stars ((split_star p).0 ∷ (split_star p).1)) (sym e) r),
    )

Glob-run : (c : ℕ) (p x s : Text) → c ≡ b'*' → Glob p s → Glob (c ∷ p) (x ++ s)
Glob-run c p [] s star g = skip c star g
Glob-run c p (d ∷ x) s star g = eat c d star (Glob-run c p x s star g)

Cut-Glob : (p s : Text) → Cut p s → Glob p s
unfolding split_star
Cut-Glob [] s (y, e, n) = subst (Glob []) (sym (e ∙ n)) end
Cut-Glob (c ∷ p) s cut = elim (ℕ_discrete c b'*') [
  | yes star ↦
      let (y, e, (x, y', f, r)) = rw (split_star_star c p star) at cut in
      subst (Glob (c ∷ p)) (sym (e ∙ f))
        (Glob-run c p x _ star (Cut-Glob p ((split_star p).0 ++ y') (y', refl, r)))
  | no other ↦
      let (y, e, r) = rw (split_star_char c p other) at cut in
      subst (Glob (c ∷ p)) (sym e) (char c other (Cut-Glob p ((split_star p).0 ++ y) (y, refl, r)))
]

matches-Cut :
    (pattern app_id : Text)
    → matches pattern app_id ≡ true
    → Cut (lowercase pattern) (lowercase app_id)
unfolding matches
matches-Cut pattern app_id h =
    let p = split_star (lowercase pattern) in
    elim (Option-cases (strip_prefix p.0 (lowercase app_id))) [
      | inl miss ↦ let h' = rw (miss, matches) at h in absurd (ground arith)
      | inr (r, hit) ↦ (
        r,
        strip_prefix-eq p.0 (lowercase app_id) hit,
        match_rest-Stars p.1 r (rw (hit, matches) at h),
      )
    ]

Cut-matches :
    (pattern app_id : Text)
    → Cut (lowercase pattern) (lowercase app_id)
    → matches pattern app_id ≡ true
unfolding matches
Cut-matches pattern app_id (y, e, r) =
    let p = split_star (lowercase pattern) in
    let hit : strip_prefix p.0 (lowercase app_id) ≡ some y =
      ap (strip_prefix p.0) e ∙ strip_prefix-append p.0 y in
    rw (hit, matches) (Stars-match_rest p.1 y r)

-- A pattern matches an app id exactly when the glob relation holds of the two in lower case.
pub matches-Glob :
    (pattern app_id : Text)
    → (matches pattern app_id ≡ true) ↔ Glob (lowercase pattern) (lowercase app_id)
matches-Glob pattern app_id = (
  λ h. Cut-Glob (lowercase pattern) (lowercase app_id) (matches-Cut pattern app_id h),
  λ g. Cut-matches pattern app_id (Glob-Cut g),
)
