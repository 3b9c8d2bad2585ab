-- ===== src/Core/Preload.antt =====
-- packages/provider/crates/provider-core/src/preload.rs: the preload store. Its directory is the
-- artifacts by their names and the manifest's entries; the write lock makes the operations one after
-- another.
pub mod Durable
pub mod Kept
pub mod Names
pub mod Replaced
use yard.Prelude.{
  ℕ, Bool, true, false, not, ◌&&◌, ◌||◌, Option, none, some, List, [], ◌∷◌, ◌++◌, ◌==◌, leb,
  if◌then◌else◌, Bytes, Text, text_eq, codes, is_empty, any, all, find, keep, Result, ok, err,
  ◌>>=◌,
}
use yard.Prelude.Dict.{insert, remove, lookup}
use yard.Prelude.{text_key}

pub record ProtectedPreload : Type 0 where
  pub device_id : Text
  pub app_id : Text
  pub platform : Text
  pub user_id : Text
  pub filename : Text
  pub size : ℕ
  pub sha256 : Text
  pub artifact : Text

abbrev pub manifest_version : ℕ
manifest_version = 1

pub record Manifest : Type 0 where
  pub version : ℕ
  pub preloads : List ProtectedPreload

-- What reading the manifest's file gives: nothing there, an error, bytes that are no manifest, or one.
pub data ManifestFile : Type 0 where
  missing unreadable malformed : ManifestFile
  holds : Manifest → ManifestFile

-- The directory: the files below `artifacts/`, and the manifest's file.
pub record Disk : Type 0 where
  pub files : List (Text × Bytes)
  pub manifest : ManifestFile

pub record PreloadStore : Type 0 where
  pub durable : Bool
  pub disk : Disk
  pub entries : List ProtectedPreload

pub data PreloadError : Type 0 where
  copying_failed committing_failed manifest_failed reading_failed parsing_failed : PreloadError
  unsupported_version : ℕ → PreloadError

-- How the file system answers one operation: the copy, with what a broken one leaves behind, the
-- rename, the removal of the temporary file, the manifest's replacement, and the removal of an
-- artifact.
pub record Answers : Type 0 where
  pub copied : Bool
  pub partial_copy : Bytes
  pub renamed : Bool
  pub temporary_removed : Bool
  pub manifest_replaced : Bool
  pub artifact_removed : Bool

-- The entries of a directory's manifest, none where there is no manifest.
abbrev pub read_manifest : ManifestFile → Result PreloadError (List ProtectedPreload)
read_manifest missing = ok []
read_manifest unreadable = err reading_failed
read_manifest malformed = err parsing_failed
read_manifest (holds m) =
    if m.version == manifest_version then ok m.preloads else err (unsupported_version m.version)

-- `open`, behind the directory's creation.
unfoldable pub open_ : Disk → Result PreloadError PreloadStore
open_ d =
    read_manifest d.manifest >>= (λ es. ok (record { durable = true; disk = d; entries = es }))

unfoldable pub in_memory : PreloadStore
in_memory = record {
  durable = false;
  disk = record { files = []; manifest = missing };
  entries = [];
}

abbrev pub is_separator : ℕ → Bool
is_separator c = (c == 47) || (c == 92)

-- `rsplit(['/', '\\']).next()`: what stands behind the last separator.
abbrev pub last_segment : Text → Text → Text
last_segment found [] = found
last_segment found (c ∷ cs) = last_segment (if is_separator c then cs else found) cs

abbrev pub between : ℕ → ℕ → ℕ → Bool
between low high c = leb low c && leb c high

abbrev pub is_safe_char : ℕ → Bool
is_safe_char c =
    between 48 57 c || between 65 90 c || between 97 122 c || (c == 46) || (c == 45) || (c == 95)

abbrev pub name_or_default : Text → Text
name_or_default name = if is_empty name || all (λ c. c == 46) name then codes "upload.bin" else name

unfoldable pub artifact_name : Text → Text → Text
artifact_name sha256 filename =
    sha256 ++ (45 ∷ name_or_default (keep is_safe_char (last_segment filename filename)))

-- The first component of a path on Unix, and whether nothing but `.` and slashes follows it.
abbrev pub rest_is_empty : Text → Bool
rest_is_empty [] = true
rest_is_empty (c ∷ []) = (c == 47) || (c == 46)
rest_is_empty (c ∷ d ∷ cs) = (c == 47 || (c == 46 && (d == 47))) && rest_is_empty (d ∷ cs)

abbrev pub first_component : Text → Text
first_component [] = []
first_component (c ∷ cs) = if c == 47 then [] else c ∷ first_component cs

abbrev pub behind_component : Text → Text
behind_component [] = []
behind_component (c ∷ cs) = if c == 47 then cs else behind_component cs

unfoldable pub is_single_component : Text → Bool
is_single_component path =
    not (is_empty (first_component path))
    && not (text_eq (first_component path) (codes "."))
    && not (text_eq (first_component path) (codes ".."))
    && rest_is_empty (behind_component path)

-- The file of an entry, below `artifacts/`.
unfoldable pub artifact_path : PreloadStore → ProtectedPreload → Option Text
artifact_path s e = if s.durable && is_single_component e.artifact then some e.artifact else none

abbrev pub is_entry : Text → Text → ProtectedPreload → Bool
is_entry device app e = text_eq e.device_id device && text_eq e.app_id app

-- The copy to the temporary file and its rename: what went wrong, and the disk.
unfoldable pub commit_artifact : Disk → Text → Text → Bytes → Answers → Option PreloadError × Disk
commit_artifact d temporary final content a =
    let broken : Disk = record d {
      files = insert temporary (if a.copied then content else a.partial_copy) d.files;
    } in
    let cleaned : Disk =
      if a.temporary_removed then record d { files = remove temporary broken.files } else broken in
    let done : Disk = record d { files = insert final content (remove temporary d.files) } in
    if a.copied
    then if a.renamed then (none, done) else (some committing_failed, cleaned)
    else (some copying_failed, cleaned)

-- The temporary manifest and its rename: a failure leaves the manifest that was there.
unfoldable pub write_manifest : Disk → List ProtectedPreload → Answers → Option PreloadError × Disk
write_manifest d es a =
    if a.manifest_replaced
    then (
      none,
      record d { manifest = holds (record { version = manifest_version; preloads = es }) },
    )
    else (some manifest_failed, d)

abbrev pub delete_artifact : PreloadStore → ProtectedPreload → Answers → Disk → Disk
delete_artifact s e a d = elim (artifact_path s e) [
  | none ↦ d
  | some name ↦ if a.artifact_removed then record d { files = remove name d.files } else d
]

-- The artifact of the entry that was replaced goes, unless it is the new one's.
unfoldable pub delete_displaced :
    PreloadStore → Option ProtectedPreload → ProtectedPreload → Answers → Disk → Disk
delete_displaced s none e a d = d
delete_displaced s (some old) e a d =
    if text_eq old.artifact e.artifact then d else delete_artifact s old a d

abbrev pub others : Text → Text → List ProtectedPreload → List ProtectedPreload
others device app es = keep (λ x. not (is_entry device app x)) es

-- Behind the artifact: the manifest, the displaced artifact, the entries in memory.
unfoldable pub replace :
    PreloadStore → ProtectedPreload → Answers → Result PreloadError ProtectedPreload × PreloadStore
replace s e a =
    let next : List ProtectedPreload = others e.device_id e.app_id s.entries ++ (e ∷ []) in
    let old : Option ProtectedPreload = find (is_entry e.device_id e.app_id) s.entries in
    let written : Option PreloadError × Disk = write_manifest s.disk next a in
    if s.durable
    then elim written.0 [
      | some reason ↦ (err reason, record s { disk = written.1 })
      | none ↦ (ok e, record s { disk = delete_displaced s old e a written.1; entries = next })
    ]
    else (ok e, record s { entries = next })

-- `protect` of the entry; `temporary` is the fresh name that the copy goes to.
unfoldable pub protect :
    PreloadStore
    → ProtectedPreload
    → Bytes
    → Text
    → Answers
    → Result PreloadError ProtectedPreload × PreloadStore
protect s given content temporary a =
    let e : ProtectedPreload = record given {
      artifact = artifact_name given.sha256 given.filename;
    } in
    let committed : Option PreloadError × Disk =
      commit_artifact s.disk temporary e.artifact content a in
    if s.durable
    then elim committed.0 [
      | some reason ↦ (err reason, record s { disk = committed.1 })
      | none ↦ replace (record s { disk = committed.1 }) e a
    ]
    else replace s e a

unfoldable pub for_device : PreloadStore → Text → List ProtectedPreload
for_device s device = keep (λ e. text_eq e.device_id device) s.entries

unfoldable pub is_protected : PreloadStore → Text → Text → Bool
is_protected s device app = any (is_entry device app) s.entries

-- The artifact goes where no entry left refers to it.
unfoldable pub release : PreloadStore → ProtectedPreload → Answers → PreloadStore
release s e a =
    if any (λ x. text_eq x.artifact e.artifact) s.entries
    then s
    else record s { disk = delete_artifact s e a s.disk }

-- Behind the search: the manifest, the entries, the artifact.
unfoldable pub withdraw :
    PreloadStore
    → ProtectedPreload
    → List ProtectedPreload
    → Answers
    → Result PreloadError (Option ProtectedPreload) × PreloadStore
withdraw s e next a =
    let written : Option PreloadError × Disk = write_manifest s.disk next a in
    if s.durable
    then elim written.0 [
      | some reason ↦ (err reason, record s { disk = written.1 })
      | none ↦ (ok (some e), release (record s { disk = written.1; entries = next }) e a)
    ]
    else (ok (some e), release (record s { entries = next }) e a)

unfoldable pub remove_ :
    PreloadStore
    → Text
    → Text
    → Answers
    → Result PreloadError (Option ProtectedPreload) × PreloadStore
remove_ s device app a = elim (find (is_entry device app) s.entries) [
  | none ↦ (ok none, s)
  | some e ↦ withdraw s e (others device app s.entries) a
]
