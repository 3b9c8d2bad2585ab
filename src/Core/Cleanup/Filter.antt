-- ===== src/Core/Cleanup/Filter.antt =====
-- `in_scope` and `matches` of cleanup.rs. Patterns and app ids are texts; the source cuts its
-- strings only at matches of whole strings, so that code points serve as well as bytes.
use yard.Prelude.{
  ℕ, ◌+◌, ◌-◌, Bool, false, ◌&&◌, ◌||◌, Option, none, some, List, [], ◌∷◌, Text, ◌==◌, leb,
  is_empty, if◌then◌else◌, map, length, drop, any, text_eq,
}

pub record AppFilter : Type 0 where
  pub allow : List Text
  pub deny : List Text

-- `to_ascii_lowercase`.
unfoldable pub to_lower : ℕ → ℕ
to_lower c = if leb b'A' c && leb c b'Z' then c + 32 else c

abbrev pub lowercase : Text → Text
lowercase = map to_lower

-- `split('*')`: the first segment, and those behind it.
unfoldable pub split_star : Text → Text × List Text
split_star [] = ([], [])
split_star (c ∷ cs) = let (s, ss) = split_star cs in if c == b'*' then ([], s ∷ ss) else (c ∷ s, ss)

-- `strip_prefix`: what follows.
unfoldable pub strip_prefix : Text → Text → Option Text
strip_prefix [] s = some s
strip_prefix (p ∷ ps) [] = none
strip_prefix (p ∷ ps) (c ∷ cs) = if p == c then strip_prefix ps cs else none

-- `find(segment)`, and what stands behind the first occurrence.
unfoldable pub find_after : Text → Text → Option Text
find_after seg [] = strip_prefix seg []
find_after seg (c ∷ cs) =
    let later = find_after seg cs in
    elim (strip_prefix seg (c ∷ cs)) [ some rest ↦ some rest | none ↦ later ]

-- `ends_with`, with the guard on the lengths.
unfoldable pub ends_with : Text → Text → Bool
ends_with s tail = leb (length tail) (length s) && text_eq (drop (length s - length tail) s) tail

-- On the segments behind the first star, and what is left of the app id.
unfoldable pub match_rest : List Text → Text → Bool
match_rest [] rest = is_empty rest
match_rest (tail ∷ []) rest = ends_with rest tail
match_rest (seg ∷ next ∷ segs) rest = elim (find_after seg rest) [
  | none ↦ false
  | some behind ↦ match_rest (next ∷ segs) behind
]

unfoldable pub matches : Text → Text → Bool
matches pattern app_id =
    let (prefix, segs) = split_star (lowercase pattern) in
    elim (strip_prefix prefix (lowercase app_id)) [
      | none ↦ false
      | some rest ↦ match_rest segs rest
    ]

unfoldable pub in_scope : AppFilter → Text → Bool
in_scope filter app_id =
    if any (λ p. matches p app_id) filter.deny
    then false
    else is_empty filter.allow || any (λ p. matches p app_id) filter.allow
