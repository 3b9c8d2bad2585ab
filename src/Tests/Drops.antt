-- ===== src/Tests/Drops.antt =====
-- The inbox of a phone that holds one old reservation's files.
use yard.Prelude.{
  Bool, ltb, length, ℕ, ◌≡◌, refl, true, none, some, List, [], ◌∷◌, Text, Bytes, codes, text_eq,
  text_key, ok, err, if◌then◌else◌,
}
use yard.Prelude.{contains}
use yard.Core.Cleanup.Filter.{strip_prefix}
use yard.Ios.Files.{Service, Attributes, call, lists, reads, removes, foreign_path}
use yard.Ios.Paths.{incoming, below, resolve, resolve_parts, split, safe_component}
use yard.Ios.Drop as Drop
use yard.Ios.Drop.{Inbox, new, bind, pull, purge, each_safe, remove_tree, check_path, check_parts}
use yard.Ios.Drop.Calls.{AllOf}
use yard.Ios.Drop.Spares.{Bound, bind-Bound}
use yard.Ios.Drop.Confined.{Takes, pull-Takes}

-- Two characters pass for a uuid.
abbrev is_uuid : Text → Bool
is_uuid t = ltb (length t) 3

abbrev attributes_of : Text → Attributes
attributes_of path =
    let kind = if ltb 43 (length path) then codes "regular" else codes "directory" in
    record { file_type = some kind; size = none; modified_at = none }

abbrev names_of : Text → List Text
names_of path = if text_eq path incoming then codes "r1" ∷ codes "r2" ∷ [] else []

abbrev service : Service ℕ
service = record {
  list = λ path n. (n, ok (names_of path));
  attributes = λ path n. (n, ok (attributes_of path));
  mkdir = λ path n. (n, ok tt);
  remove = λ path d n. (n, ok tt);
  rename = λ a b n. (n, ok tt);
  write_small = λ path bs n. (n, ok tt);
  pull = λ path to n. (n, ok 5);
}

abbrev json : Text → ℕ → Bytes
json id at = id

bind-Bound_example : Bound (codes "u") (some (codes "r2")) (
    bind service is_uuid json 1 1000
      (codes "u")
      (some (codes "r2"))
      new
      (record { world = 0; calls = [] }))
bind-Bound_example = bind-Bound service is_uuid json 1 1000 (codes "u") (some (codes "r2")) new 0

-- The other reservation's directory goes, and the own one stays.
purged :
    (purge service (some (codes "r2")) (record { world = 0; calls = [] })).1.calls
    ≡ removes (below incoming (codes "r1")) true
      ∷ lists (below incoming (codes "r1"))
      ∷ reads (below incoming (codes "r1"))
      ∷ lists incoming
      ∷ lists Drop.root
      ∷ []
unfolding purge each_safe remove_tree call safe_component contains text_eq
purged = refl

abbrev bound : Inbox
bound = record { reservation = some (codes "r2"); refreshed = some 1; synced = true }

pull-Takes_example :
    AllOf
      (Takes is_uuid (some (codes "r2")) (codes "drop:/r2/b1/photo.jpg") (codes "t"))
      (pull service is_uuid bound
        (codes "drop:/r2/b1/photo.jpg")
        (codes "t")
        (record { world = 0; calls = [] })).1.calls
pull-Takes_example = pull-Takes service is_uuid bound (codes "drop:/r2/b1/photo.jpg") (codes "t") 0

-- The file of another reservation, and a way up.
foreign : resolve is_uuid (codes "drop:/r1/b1/photo.jpg") (codes "r2") ≡ err foreign_path
unfolding resolve resolve_parts split strip_prefix safe_component text_eq
foreign = refl

upwards : resolve is_uuid (codes "drop:/r2/b1/..") (codes "r2") ≡ err foreign_path
unfolding resolve resolve_parts split strip_prefix safe_component text_eq
upwards = refl

pulled :
    (pull service is_uuid bound
      (codes "drop:/r2/b1/photo.jpg")
      (codes "t")
      (record { world = 0; calls = [] })).0
    ≡ ok 5
unfolding pull check_path check_parts call resolve resolve_parts split strip_prefix safe_component
    text_eq
pulled = refl
