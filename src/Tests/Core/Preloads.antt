-- ===== src/Tests/Core/Preloads.antt =====
-- Two devices with the same package, and a new package for one of them.
use yard.Prelude.{◌≡◌, refl, true, none, List, [], ◌∷◌, Text, codes, text_eq, arith, ok, text_key}
use yard.Prelude.Dict.{lookup, insert, remove}
use yard.Core.Preload.{
  ProtectedPreload, missing, Disk, PreloadStore, Answers, open_, artifact_name, is_single_component,
  artifact_path, commit_artifact, write_manifest, delete_displaced, replace, protect, remove_,
  is_protected,
}
use yard.Core.Preload.Durable.{Operation, protecting, run, step, open_-run}
use yard.Core.Preload.Kept.{AllKept, remove_-AllKept}
use yard.Core.Preload.Replaced.{shares, protect-AllKept}
use yard.Core.Preload.{others, is_entry}
use yard.Prelude.{find, some, false}

abbrev entry : Text → Text → ProtectedPreload
entry device sha = record {
  device_id = device;
  app_id = codes "app";
  platform = codes "android";
  user_id = codes "u";
  filename = codes "a.apk";
  size = 1;
  sha256 = sha;
  artifact = artifact_name sha (codes "a.apk");
}

abbrev works : Answers
works = record {
  copied = true;
  partial_copy = [];
  renamed = true;
  temporary_removed = true;
  manifest_replaced = true;
  artifact_removed = true;
}

abbrev empty_disk : Disk
empty_disk = record { files = []; manifest = missing }

abbrev operations : List Operation
operations =
    protecting (entry (codes "d1") (codes "aa")) (1 ∷ []) (codes ".t1") works
    ∷ protecting (entry (codes "d2") (codes "aa")) (1 ∷ []) (codes ".t2") works
    ∷ []

abbrev two : PreloadStore
two = run (record { durable = true; disk = empty_disk; entries = [] }) operations

abbrev after : PreloadStore
after = run two (protecting (entry (codes "d1") (codes "bb")) (2 ∷ []) (codes ".t3") works ∷ [])

open_-run_example : open_ two.disk ≡ ok two
open_-run_example = open_-run empty_disk [] operations refl

two-AllKept : AllKept two.disk.files two.entries
unfolding AllKept run step protect replace commit_artifact write_manifest delete_displaced
    artifact_name insert remove lookup text_eq artifact_path is_single_component
two-AllKept = ground arith

remove_-AllKept_example :
    AllKept
      (remove_ two (codes "d1") (codes "app") works).1.disk.files
      (remove_ two (codes "d1") (codes "app") works).1.entries
remove_-AllKept_example = remove_-AllKept two (codes "d1") (codes "app") works two-AllKept

-- The package that both had is deleted with the first one's entry, while the second still lists it.
shared_gone : lookup (artifact_name (codes "aa") (codes "a.apk")) after.disk.files ≡ none
unfolding run step protect replace commit_artifact write_manifest delete_displaced artifact_name
    insert remove lookup text_eq artifact_path is_single_component
shared_gone = refl

shared_listed : is_protected after (codes "d2") (codes "app") ≡ true
unfolding run step protect replace commit_artifact write_manifest is_protected text_eq
shared_listed = refl

abbrev one : PreloadStore
one = record {
  durable = true;
  disk = record {
    files = (artifact_name (codes "aa") (codes "a.apk"), 1 ∷ []) ∷ [];
    manifest = missing;
  };
  entries = entry (codes "d1") (codes "aa") ∷ [];
}

one-AllKept : AllKept one.disk.files one.entries
unfolding AllKept artifact_name lookup text_eq
one-AllKept = ground arith

fresh_t : shares (codes ".t") one.entries ≡ false
unfolding artifact_name text_eq
fresh_t = refl

alone :
    (old : ProtectedPreload)
    → find (is_entry (codes "d1") (codes "app")) one.entries ≡ some old
    → shares old.artifact (others (codes "d1") (codes "app") one.entries) ≡ false
unfolding text_eq
alone old h = refl

protect-AllKept_example :
    AllKept
      (protect one (entry (codes "d1") (codes "bb")) (2 ∷ []) (codes ".t") works).1.disk.files
      (protect one (entry (codes "d1") (codes "bb")) (2 ∷ []) (codes ".t") works).1.entries
protect-AllKept_example =
    protect-AllKept one (entry (codes "d1") (codes "bb")) (2 ∷ []) (codes ".t") works refl
      one-AllKept fresh_t alone
