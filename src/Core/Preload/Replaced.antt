-- ===== src/Core/Preload/Replaced.antt =====
-- `protect` and the artifacts of the other entries.
use yard.Prelude.{
  ◌≡◌, ◌≢◌, refl, sym, subst, Bool, true, false, Option, none, some, List, [], ◌∷◌, ◌++◌, Bytes,
  Text, arith, Bool-cases, Option-cases, inl, inr, any, find, text_eq, text_eq_iff, text_key,
}
use yard.Prelude.Dict.{lookup, insert, remove, lookup-insert}
use yard.Core.Preload.{
  ProtectedPreload, Disk, PreloadStore, Answers, commit_artifact, artifact_name, delete_displaced,
  replace, protect, others, is_entry,
}
use yard.Core.Preload.Durable.{write_manifest-cases}
use yard.Core.Preload.Kept.{AllKept, AllKept-keep, AllKept-remove, delete_artifact-files}

abbrev Files : Type 0
Files = List (Text × Bytes)

-- An entry's artifact has the given name.
abbrev pub shares : Text → List ProtectedPreload → Bool
shares name es = any (λ x. text_eq x.artifact name) es

lookup_stays :
    (name other : Text) (v : Bytes) (files : Files)
    → lookup other files ≢ none
    → lookup other (insert name v files) ≢ none
lookup_stays name other v files h q = elim (Bool-cases (text_eq name other)) [
  | inl i ↦ ground (arith, lookup-insert name other v files, i, q)
  | inr i ↦ h (ground (arith, lookup-insert name other v files, i, q))
]

lookup_new : (name : Text) (v : Bytes) (files : Files) → lookup name (insert name v files) ≢ none
lookup_new name v files q =
    ground (arith, lookup-insert name name v files, (text_eq_iff name name).1 refl, q)

AllKept-insert :
    (name : Text) (v : Bytes) (files : Files) (es : List ProtectedPreload)
    → AllKept files es
    → AllKept (insert name v files) es
unfolding AllKept
AllKept-insert name v files [] h = h
AllKept-insert name v files (e ∷ es) h =
    (lookup_stays name e.artifact v files h.0, AllKept-insert name v files es h.1)

AllKept-append :
    (files : Files) (xs : List ProtectedPreload) (e : ProtectedPreload)
    → AllKept files xs
    → lookup e.artifact files ≢ none
    → AllKept files (xs ++ (e ∷ []))
unfolding AllKept
AllKept-append files [] e h k = (k, tt)
AllKept-append files (x ∷ xs) e h k = (h.0, AllKept-append files xs e h.1 k)

shares-append :
    (name : Text) (xs : List ProtectedPreload) (e : ProtectedPreload)
    → shares name xs ≡ false
    → text_eq e.artifact name ≡ false
    → shares name (xs ++ (e ∷ [])) ≡ false
shares-append name [] e h k = ground (arith, k)
shares-append name (x ∷ xs) e h k = ground (arith, h, shares-append name xs e, k)

-- A temporary file that came and went.
swept :
    (name : Text) (v : Bytes) (files : Files) (es : List ProtectedPreload)
    → shares name es ≡ false
    → AllKept files es
    → AllKept (remove name (insert name v files)) es
swept name v files es f k =
    AllKept-remove name (insert name v files) es f (AllKept-insert name v files es k)

-- What a commit leaves: the entries' artifacts, and the new one where it worked.
commit_artifact-AllKept :
    (d : Disk) (temporary final : Text) (content : Bytes) (a : Answers) (es : List ProtectedPreload)
    → shares temporary es ≡ false
    → AllKept d.files es
    → AllKept (commit_artifact d temporary final content a).1.files es
unfolding commit_artifact
commit_artifact-AllKept d temporary final content a es f k = elim (Bool-cases a.copied) [
  | inl c ↦ elim (Bool-cases a.renamed) [
    | inl r ↦
        rw (c, r)
          (AllKept-insert final content (remove temporary d.files) es
            (AllKept-remove temporary d.files es f k))
    | inr r ↦ elim (Bool-cases a.temporary_removed) [
      | inl t ↦ rw (c, r, t) (swept temporary content d.files es f k)
      | inr t ↦ rw (c, r, t) (AllKept-insert temporary content d.files es k)
    ]
  ]
  | inr c ↦ elim (Bool-cases a.temporary_removed) [
    | inl t ↦ rw (c, t) (swept temporary a.partial_copy d.files es f k)
    | inr t ↦ rw (c, t) (AllKept-insert temporary a.partial_copy d.files es k)
  ]
]

commit_artifact-new :
    (d : Disk) (temporary final : Text) (content : Bytes) (a : Answers)
    → (commit_artifact d temporary final content a).0 ≡ none
    → lookup final (commit_artifact d temporary final content a).1.files ≢ none
unfolding commit_artifact
commit_artifact-new d temporary final content a h = elim (Bool-cases a.copied) [
  | inl c ↦ elim (Bool-cases a.renamed) [
    | inl r ↦ rw (c, r) (lookup_new final content (remove temporary d.files))
    | inr r ↦ ground (arith, h, c, r)
  ]
  | inr c ↦ ground (arith, h, c)
]

flipped : (a b : Text) → text_eq a b ≡ false → text_eq b a ≡ false
flipped a b h = ground (arith, h, text_eq_iff a b, text_eq_iff b a)

delete_displaced-AllKept :
    (s : PreloadStore) (o : Option ProtectedPreload) (e : ProtectedPreload) (a : Answers) (d : Disk)
    (rest : List ProtectedPreload)
    → ((old : ProtectedPreload) → o ≡ some old → shares old.artifact rest ≡ false)
    → AllKept d.files (rest ++ (e ∷ []))
    → AllKept (delete_displaced s o e a d).files (rest ++ (e ∷ []))
unfolding delete_displaced
delete_displaced-AllKept s none e a d rest u k = k
delete_displaced-AllKept s (some old) e a d rest u k =
    elim (Bool-cases (text_eq old.artifact e.artifact)) [
      | inl i ↦ rw i k
      | inr i ↦ rw i (elim (delete_artifact-files s old a d) [
        | inl f ↦ subst (λ files. AllKept files (rest ++ (e ∷ []))) (sym f) k
        | inr f ↦
            subst (λ files. AllKept files (rest ++ (e ∷ []))) (sym f)
              (AllKept-remove old.artifact d.files (rest ++ (e ∷ []))
                (shares-append old.artifact rest e (u old refl) (flipped old.artifact e.artifact i))
                k)
      ])
    ]

replace-AllKept :
    (s : PreloadStore) (e : ProtectedPreload) (a : Answers)
    → s.durable ≡ true
    → AllKept s.disk.files s.entries
    → lookup e.artifact s.disk.files ≢ none
    → ((old : ProtectedPreload)
        → find (is_entry e.device_id e.app_id) s.entries ≡ some old
        → shares old.artifact (others e.device_id e.app_id s.entries) ≡ false)
    → AllKept (replace s e a).1.disk.files (replace s e a).1.entries
unfolding replace
replace-AllKept s e a d k l u =
    let rest : List ProtectedPreload = others e.device_id e.app_id s.entries in
    let next : AllKept s.disk.files (rest ++ (e ∷ [])) =
      AllKept-append s.disk.files rest e (AllKept-keep s.disk.files _ s.entries k) l in
    elim (write_manifest-cases s.disk (rest ++ (e ∷ [])) a) [
      | inl w ↦ rw (d, w) (rw w k)
      | inr w ↦ rw (d, w) (rw w (delete_displaced-AllKept s _ e a _ rest u next))
    ]

-- Where every entry's artifact is on disk, it is after a preload was protected, its own included, or
-- after that failed, if the temporary file's name is none of the artifacts' and the artifact of the
-- entry that is replaced belongs to no other entry.
pub protect-AllKept :
    (s : PreloadStore) (e : ProtectedPreload) (content : Bytes) (temporary : Text) (a : Answers)
    → s.durable ≡ true
    → AllKept s.disk.files s.entries
    → shares temporary s.entries ≡ false
    → ((old : ProtectedPreload)
        → find (is_entry e.device_id e.app_id) s.entries ≡ some old
        → shares old.artifact (others e.device_id e.app_id s.entries) ≡ false)
    → AllKept
        (protect s e content temporary a).1.disk.files
        (protect s e content temporary a).1.entries
unfolding protect
protect-AllKept s e content temporary a d k f u =
    let name : Text = artifact_name e.sha256 e.filename in
    let kept : AllKept (commit_artifact s.disk temporary name content a).1.files s.entries =
      commit_artifact-AllKept s.disk temporary name content a s.entries f k in
    elim (Option-cases (commit_artifact s.disk temporary name content a).0) [
      | inl h ↦
          rw (d, h)
            (replace-AllKept _ _ a d kept (commit_artifact-new s.disk temporary name content a h) u)
      | inr (r, h) ↦ rw (d, h) kept
    ]
