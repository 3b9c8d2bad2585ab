-- ===== src/Core/Preload/Durable.antt =====
-- The directory and the entries in memory: what a restart reads back.
use yard.Prelude.{
  ◌≡◌, refl, ap, ◌∙◌, sym, true, Option, none, some, List, [], ◌∷◌, ◌++◌, Bytes, Text, ok,
  Bool-cases, Option-cases, inl, inr, find, any, ◌⊎◌, text_eq,
}
use yard.Core.Preload.{
  ProtectedPreload, Disk, PreloadStore, holds, PreloadError, manifest_failed, Answers, open_,
  read_manifest, commit_artifact, write_manifest, artifact_path, delete_artifact, delete_displaced,
  replace, protect, release, withdraw, remove_, others, is_entry, artifact_name, manifest_version,
}

manifest-commit_artifact :
    (d : Disk) (temporary final : Text) (content : Bytes) (a : Answers)
    → (commit_artifact d temporary final content a).1.manifest ≡ d.manifest
unfolding commit_artifact
manifest-commit_artifact d temporary final content a = elim (Bool-cases a.temporary_removed) [
  | inl i ↦ elim (Bool-cases a.copied) [
    | inl e ↦ elim (Bool-cases a.renamed) [ inl r ↦ rw (e, r) refl | inr r ↦ rw (e, r, i) refl ]
    | inr e ↦ rw (e, i) refl
  ]
  | inr i ↦ elim (Bool-cases a.copied) [
    | inl e ↦ elim (Bool-cases a.renamed) [ inl r ↦ rw (e, r) refl | inr r ↦ rw (e, r, i) refl ]
    | inr e ↦ rw (e, i) refl
  ]
]

manifest-delete_artifact :
    (s : PreloadStore) (e : ProtectedPreload) (a : Answers) (d : Disk)
    → (delete_artifact s e a d).manifest ≡ d.manifest
manifest-delete_artifact s e a d = elim (Option-cases (artifact_path s e)) [
  | inl i ↦ rw (i, delete_artifact) refl
  | inr (name, i) ↦
      rw (i, delete_artifact)
        (elim (Bool-cases a.artifact_removed) [
          | inl r ↦ rw (r, delete_artifact) refl
          | inr r ↦ rw (r, delete_artifact) refl
        ])
]

manifest-delete_displaced :
    (s : PreloadStore) (o : Option ProtectedPreload) (e : ProtectedPreload) (a : Answers) (d : Disk)
    → (delete_displaced s o e a d).manifest ≡ d.manifest
unfolding delete_displaced
manifest-delete_displaced s none e a d = refl
manifest-delete_displaced s (some old) e a d = elim (Bool-cases (text_eq old.artifact e.artifact)) [
  | inl i ↦ rw i refl
  | inr i ↦ rw i (manifest-delete_artifact s old a d)
]

-- A durable store whose manifest lists the entries in memory.
record Synced (s : PreloadStore) : Type 0 where
  pub durable : s.durable ≡ true
  pub listed : read_manifest s.disk.manifest ≡ ok s.entries

pub write_manifest-cases :
    (d : Disk) (es : List ProtectedPreload) (a : Answers)
    → (write_manifest d es a ≡ (some manifest_failed, d))
      ⊎ (write_manifest d es a ≡ (
        none,
        record d { manifest = holds (record { version = manifest_version; preloads = es }) },
      ))
unfolding write_manifest
write_manifest-cases d es a = elim (Bool-cases a.manifest_replaced) [
  | inl e ↦ rw e (inr refl)
  | inr e ↦ rw e (inl refl)
]

replace-Synced :
    (s : PreloadStore) (e : ProtectedPreload) (a : Answers) → Synced s → Synced (replace s e a).1
unfolding replace
replace-Synced s e a k =
    let next : List ProtectedPreload = others e.device_id e.app_id s.entries ++ (e ∷ []) in
    elim (write_manifest-cases s.disk next a) [
      | inl w ↦ rw (k.durable, w) (rw w k)
      | inr w ↦
          rw (k.durable, w)
            (rw w record {
              durable = k.durable;
              listed = ap read_manifest (manifest-delete_displaced s _ e a _);
            })
    ]

release-Synced :
    (s : PreloadStore) (e : ProtectedPreload) (a : Answers) → Synced s → Synced (release s e a)
unfolding release
release-Synced s e a k = elim (Bool-cases (any (λ x. text_eq x.artifact e.artifact) s.entries)) [
  | inl h ↦ rw h k
  | inr h ↦ rw h record {
    durable = k.durable;
    listed = ap read_manifest (manifest-delete_artifact s e a s.disk) ∙ k.listed;
  }
]

withdraw-Synced :
    (s : PreloadStore) (e : ProtectedPreload) (next : List ProtectedPreload) (a : Answers)
    → Synced s
    → Synced (withdraw s e next a).1
unfolding withdraw
withdraw-Synced s e next a k = elim (write_manifest-cases s.disk next a) [
  | inl w ↦ rw (k.durable, w) (rw w k)
  | inr w ↦
      rw (k.durable, w) (rw w (release-Synced _ e a record { durable = k.durable; listed = refl }))
]

remove_-Synced :
    (s : PreloadStore) (device app : Text) (a : Answers)
    → Synced s
    → Synced (remove_ s device app a).1
unfolding remove_
remove_-Synced s device app a k = elim (Option-cases (find (is_entry device app) s.entries)) [
  | inl h ↦ rw (h, remove_) k
  | inr (e, h) ↦ rw (h, remove_) (withdraw-Synced s e _ a k)
]

commit_artifact-cases :
    (d : Disk) (temporary final : Text) (content : Bytes) (a : Answers)
    → ((e : PreloadError) × ((commit_artifact d temporary final content a).0 ≡ some e))
      ⊎ ((commit_artifact d temporary final content a).0 ≡ none)
commit_artifact-cases d temporary final content a =
    elim (Option-cases (commit_artifact d temporary final content a).0) [
      | inl h ↦ inr h
      | inr (e, h) ↦ inl (e, h)
    ]

committed-Synced :
    (s : PreloadStore) (temporary final : Text) (content : Bytes) (a : Answers)
    → Synced s
    → Synced (record s { disk = (commit_artifact s.disk temporary final content a).1 })
committed-Synced s temporary final content a k = record {
  durable = k.durable;
  listed = ap read_manifest (manifest-commit_artifact s.disk temporary final content a) ∙ k.listed;
}

protect-Synced :
    (s : PreloadStore) (e : ProtectedPreload) (content : Bytes) (temporary : Text) (a : Answers)
    → Synced s
    → Synced (protect s e content temporary a).1
unfolding protect
protect-Synced s e content temporary a k =
    let name : Text = artifact_name e.sha256 e.filename in
    elim (commit_artifact-cases s.disk temporary name content a) [
      | inl (r, h) ↦ rw (k.durable, h) (committed-Synced s temporary name content a k)
      | inr h ↦
          rw (k.durable, h) (replace-Synced _ _ a (committed-Synced s temporary name content a k))
    ]

-- A call of the store, with the answers of the file system.
pub data Operation : Type 0 where
  protecting : ProtectedPreload → Bytes → (temporary : Text) → Answers → Operation
  removing : (device app : Text) → Answers → Operation

unfoldable pub step : PreloadStore → Operation → PreloadStore
step s (protecting e content temporary a) = (protect s e content temporary a).1
step s (removing device app a) = (remove_ s device app a).1

unfoldable pub run : PreloadStore → List Operation → PreloadStore
run s [] = s
run s (o ∷ os) = run (step s o) os

run-Synced : (os : List Operation) (s : PreloadStore) → Synced s → Synced (run s os)
unfolding run step
run-Synced [] s k = k
run-Synced (protecting e content t a ∷ os) s k = run-Synced os _ (protect-Synced s e content t a k)
run-Synced (removing device app a ∷ os) s k = run-Synced os _ (remove_-Synced s device app a k)

-- However the calls go, the file system's failures included, a restart finds what the store has: to
-- open the directory behind any calls on a directory whose manifest could be read gives the very
-- store that made them.
pub open_-run :
    (d : Disk) (es : List ProtectedPreload) (os : List Operation)
    → read_manifest d.manifest ≡ ok es
    → open_ (run (record { durable = true; disk = d; entries = es }) os).disk
      ≡ ok (run (record { durable = true; disk = d; entries = es }) os)
unfolding open_
open_-run d es os h =
    let end : PreloadStore = run (record { durable = true; disk = d; entries = es }) os in
    let k : Synced end = run-Synced os _ record { durable = refl; listed = h } in
    rw k.listed (
      ap (λ b. ok (record { durable = b; disk = end.disk; entries = end.entries })) (sym k.durable))
