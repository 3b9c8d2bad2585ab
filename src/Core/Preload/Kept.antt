-- ===== src/Core/Preload/Kept.antt =====
-- The artifacts that the entries refer to stay on disk.
use yard.Prelude.{
  ◌≡◌, ◌≢◌, refl, ◌∙◌, sym, subst, ◌&&◌, Bool, false, none, List, [], ◌∷◌, Bytes, Text, arith,
  Bool-cases, Option-cases, inl, inr, any, keep, find, text_eq, text_eq_iff, text_key, ◌⊎◌,
}
use yard.Prelude.Dict.{lookup, remove, lookup-remove}
use yard.Core.Preload.Durable.{write_manifest-cases}
use yard.Core.Preload.{
  ProtectedPreload, Disk, PreloadStore, Answers, artifact_path, delete_artifact, release, withdraw,
  remove_, is_entry, is_single_component,
}

-- Each entry's artifact is among the files.
unfoldable pub AllKept : List (Text × Bytes) → List ProtectedPreload → Type 0
AllKept files [] = Unit {0}
AllKept files (e ∷ es) = (lookup e.artifact files ≢ none) × AllKept files es

pub AllKept-keep :
    (files : List (Text × Bytes)) (p : ProtectedPreload → Bool) (es : List ProtectedPreload)
    → AllKept files es
    → AllKept files (keep p es)
unfolding AllKept
AllKept-keep files p [] h = h
AllKept-keep files p (e ∷ es) h = elim (Bool-cases (p e)) [
  | inl i ↦ rw (i, keep) (h.0, AllKept-keep files p es h.1)
  | inr i ↦ rw (i, keep) (AllKept-keep files p es h.1)
]

pub lookup_other :
    (name other : Text) (files : List (Text × Bytes))
    → text_eq other name ≡ false
    → lookup other (remove name files) ≡ lookup other files
lookup_other name other files h =
    ground (arith, lookup-remove name other files, text_eq_iff name other, text_eq_iff other name)

pub AllKept-remove :
    (name : Text) (files : List (Text × Bytes)) (es : List ProtectedPreload)
    → any (λ x. text_eq x.artifact name) es ≡ false
    → AllKept files es
    → AllKept (remove name files) es
unfolding AllKept
AllKept-remove name files [] h k = k
AllKept-remove name files (e ∷ es) h k = elim (Bool-cases (text_eq e.artifact name)) [
  | inl i ↦ ground (arith, h, i)
  | inr i ↦ (
    λ q. k.0 (sym (lookup_other name e.artifact files i) ∙ q),
    AllKept-remove name files es (ground (arith, h, i)) k.1,
  )
]

abbrev KeptBy : PreloadStore → Type 0
KeptBy s = AllKept s.disk.files s.entries

pub delete_artifact-files :
    (s : PreloadStore) (e : ProtectedPreload) (a : Answers) (d : Disk)
    → ((delete_artifact s e a d).files ≡ d.files)
      ⊎ ((delete_artifact s e a d).files ≡ remove e.artifact d.files)
unfolding artifact_path
delete_artifact-files s e a d = elim (Bool-cases (s.durable && is_single_component e.artifact)) [
  | inl h ↦ elim (Bool-cases a.artifact_removed) [
    | inl i ↦ inr (rw (h, delete_artifact) (rw (i, delete_artifact) refl))
    | inr i ↦ inl (rw (h, delete_artifact) (rw (i, delete_artifact) refl))
  ]
  | inr h ↦ inl (rw (h, delete_artifact) refl)
]

release-AllKept :
    (s : PreloadStore) (e : ProtectedPreload) (a : Answers) → KeptBy s → KeptBy (release s e a)
unfolding release
release-AllKept s e a k = elim (Bool-cases (any (λ x. text_eq x.artifact e.artifact) s.entries)) [
  | inl h ↦ rw h k
  | inr h ↦ rw h (elim (delete_artifact-files s e a s.disk) [
    | inl f ↦ subst (λ files. AllKept files s.entries) (sym f) k
    | inr f ↦
        subst (λ files. AllKept files s.entries) (sym f)
          (AllKept-remove e.artifact s.disk.files s.entries h k)
  ])
]

withdraw-AllKept :
    (s : PreloadStore) (e : ProtectedPreload) (next : List ProtectedPreload) (a : Answers)
    → KeptBy s
    → AllKept s.disk.files next
    → KeptBy (withdraw s e next a).1
unfolding withdraw
withdraw-AllKept s e next a k n = elim (Bool-cases s.durable) [
  | inl d ↦ elim (write_manifest-cases s.disk next a) [
    | inl w ↦ rw (d, w) (rw w k)
    | inr w ↦ rw (d, w) (rw w (release-AllKept _ e a n))
  ]
  | inr d ↦ rw d (release-AllKept _ e a n)
]

-- To withdraw a preload takes no file from the ones that stay: where every entry's artifact was on
-- disk, it is afterwards, whatever the file system answers.
pub remove_-AllKept :
    (s : PreloadStore) (device app : Text) (a : Answers)
    → AllKept s.disk.files s.entries
    → AllKept (remove_ s device app a).1.disk.files (remove_ s device app a).1.entries
unfolding remove_
remove_-AllKept s device app a k = elim (Option-cases (find (is_entry device app) s.entries)) [
  | inl h ↦ rw (h, remove_) k
  | inr (e, h) ↦
      rw (h, remove_) (withdraw-AllKept s e _ a k (AllKept-keep s.disk.files _ s.entries k))
]
