-- ===== src/Ios/Paths.antt =====
-- packages/provider/crates/backend-ios/src/drop.rs: `resolve` and `safe_component`. The uuid library's
-- parser is a parameter.
use yard.Prelude.{
  ℕ, ◌==◌, Bool, not, ◌&&◌, ◌||◌, leb, none, some, List, [], ◌∷◌, ◌++◌, if◌then◌else◌, Text,
  text_eq, codes, is_empty, any, Result, ok, err,
}
use yard.Core.Cleanup.Filter.{strip_prefix}
use yard.Ios.Files.{DropError, invalid_path, foreign_path}

abbrev pub incoming : Text
incoming = codes "Library/Caches/YARD Drop/Incoming"

abbrev pub drop_root : Text
drop_root = codes "drop:/"

-- `char::is_control`, and the separators.
abbrev pub is_unsafe_char : ℕ → Bool
is_unsafe_char c = leb c 31 || (leb 127 c && leb c 159) || (c == 47) || (c == 92) || (c == 58)

unfoldable pub safe_component : Text → Bool
safe_component value =
    not (is_empty value)
    && not (text_eq value (codes "."))
    && not (text_eq value (codes ".."))
    && not (any is_unsafe_char value)

-- `split('/')`: the first part, and those behind it.
unfoldable pub split : Text → Text × List Text
split [] = ([], [])
split (c ∷ cs) = let (s, ss) = split cs in if c == 47 then ([], s ∷ ss) else (c ∷ s, ss)

abbrev pub parts_of : Text → List Text
parts_of path = let (s, ss) = split path in s ∷ ss

-- `{path}/{name}`.
abbrev pub below : Text → Text → Text
below path name = path ++ (47 ∷ name)

-- By the parts behind `drop:/`: a batch of the reservation, or a file of one.
unfoldable pub resolve_parts : (Text → Bool) → Text → List Text → Result DropError Text
resolve_parts is_uuid reservation (id ∷ batch ∷ []) =
    if text_eq id reservation && is_uuid batch && (safe_component id && safe_component batch)
    then ok (below (below incoming id) batch)
    else err foreign_path
resolve_parts is_uuid reservation (id ∷ batch ∷ name ∷ []) =
    if text_eq id reservation
      && is_uuid batch
      && (safe_component id && (safe_component batch && safe_component name))
    then ok (below (below (below incoming id) batch) name)
    else err foreign_path
resolve_parts is_uuid reservation parts = err foreign_path

unfoldable pub resolve : (Text → Bool) → Text → Text → Result DropError Text
resolve is_uuid path reservation =
    if text_eq path drop_root
    then ok (below incoming reservation)
    else elim (strip_prefix drop_root path) [
      | none ↦ err invalid_path
      | some rest ↦ resolve_parts is_uuid reservation (parts_of rest)
    ]
