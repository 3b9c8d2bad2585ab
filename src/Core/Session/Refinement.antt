-- ===== src/Core/Session/Refinement.antt =====
-- The registry against the history of the coordinator's calls.
use yard.Prelude.{
  ◌≡◌, refl, ap, ◌∙◌, Option, none, some, List, [], ◌∷◌, Text, text_eq, text_eq_iff, text_key,
  if◌then◌else◌, arith, true, false, Option-cases, Bool-cases, inl, inr, contains,
}
use yard.Prelude.Dict.{lookup, insert, remove, lookup-insert, lookup-remove}
use yard.Core.Session.{
  Authorization, Registry, new, authorize, set_adb_keys, revoke, revoke_each, revoke_all, check,
  verdict, Call, authorizes, sets_keys, revokes, revokes_all, step, run, keys, AdbKey,
}

-- What a device's authorization is after a call, said of that device alone.
abbrev rekey : List AdbKey → Option Authorization → Option Authorization
rekey ks none = none
rekey ks (some auth) = some (record auth { adb_keys = ks })

abbrev pub holder_after : Text → Option Authorization → Call → Option Authorization
holder_after d h (authorizes e a) = if text_eq e d then some a else h
holder_after d h (sets_keys e ks) = if text_eq e d then rekey ks h else h
holder_after d h (revokes e r) = if text_eq e d then none else h
holder_after d h (revokes_all r) = none

abbrev pub holder : Text → Option Authorization → List Call → Option Authorization
holder d h [] = h
holder d h (c ∷ cs) = holder d (holder_after d h c) cs

authorized-authorize :
    (d : Text) (a : Authorization) (s : Registry)
    → (authorize d a s).authorized ≡ insert d a s.authorized
unfolding authorize
authorized-authorize d a s = ground arith

authorized-revoke : (d r : Text) (s : Registry) → (revoke d r s).authorized ≡ remove d s.authorized
unfolding revoke
authorized-revoke d r s = refl

lookup-set_adb_keys :
    (e d : Text) (ks : List AdbKey) (s : Registry)
    → lookup d (set_adb_keys e ks s).authorized
      ≡ (if text_eq e d then rekey ks (lookup d s.authorized) else lookup d s.authorized)
unfolding set_adb_keys
lookup-set_adb_keys e d ks s = elim (Option-cases (lookup e s.authorized)) [
  | inl h ↦ rw (h, set_adb_keys) (ground (arith, text_eq_iff e d))
  | inr (a, h) ↦
      rw (h, set_adb_keys)
        (ground
          (arith, text_eq_iff e d, lookup-insert e d (record a { adb_keys = ks }) s.authorized))
]

-- Removing a list of keys leaves nothing of them.
remove_each : List Text → List (Text × Authorization) → List (Text × Authorization)
remove_each [] m = m
remove_each (k ∷ ks) m = remove_each ks (remove k m)

authorized-revoke_each :
    (ds : List Text) (r : Text) (s : Registry)
    → (revoke_each ds r s).authorized ≡ remove_each ds s.authorized
unfolding revoke_each remove_each
authorized-revoke_each [] r s = refl
authorized-revoke_each (d ∷ ds) r s =
    authorized-revoke_each ds r (revoke d r s) ∙ ap (remove_each ds) (authorized-revoke d r s)

lookup-remove_each-none :
    (d : Text) (ks : List Text) (m : List (Text × Authorization))
    → lookup d m ≡ none
    → lookup d (remove_each ks m) ≡ none
unfolding remove_each
lookup-remove_each-none d [] m h = h
lookup-remove_each-none d (k ∷ ks) m h =
    lookup-remove_each-none d ks (remove k m) (ground (arith, lookup-remove k d m))

lookup-remove_each :
    (d : Text) (ks : List Text) (m : List (Text × Authorization))
    → contains ks d ≡ true
    → lookup d (remove_each ks m) ≡ none
unfolding remove_each contains
lookup-remove_each d [] m h = ground arith
lookup-remove_each d (k ∷ ks) m h = elim (Bool-cases (text_eq k d)) [
  | inl same ↦ lookup-remove_each-none d ks (remove k m) (ground (arith, lookup-remove k d m))
  | inr other ↦ lookup-remove_each d ks (remove k m) (ground arith)
]

pub lookup_absent :
    (d : Text) (m : List (Text × Authorization)) → contains (keys m) d ≡ false → lookup d m ≡ none
unfolding lookup contains
lookup_absent d [] h = refl
lookup_absent d ((k, a) ∷ m) h = ground (arith, lookup_absent d m)

pub lookup-revoke_all : (d r : Text) (s : Registry) → lookup d (revoke_all r s).authorized ≡ none
unfolding revoke_all
lookup-revoke_all d r s =
    ap (lookup d) (authorized-revoke_each (keys s.authorized) r s)
    ∙ (elim (Bool-cases (contains (keys s.authorized) d)) [
      | inl here ↦ lookup-remove_each d (keys s.authorized) s.authorized here
      | inr absent ↦
          lookup-remove_each-none d (keys s.authorized) s.authorized
            (lookup_absent d s.authorized absent)
    ])

pub lookup-step :
    (d : Text) (s : Registry) (c : Call)
    → lookup d (step s c).authorized ≡ holder_after d (lookup d s.authorized) c
unfolding step
lookup-step d s (authorizes e a) =
    ap (lookup d) (authorized-authorize e a s) ∙ lookup-insert e d a s.authorized
lookup-step d s (sets_keys e ks) = lookup-set_adb_keys e d ks s
lookup-step d s (revokes e r) =
    ap (lookup d) (authorized-revoke e r s) ∙ lookup-remove e d s.authorized
lookup-step d s (revokes_all r) = lookup-revoke_all d r s

lookup-run :
    (d : Text) (s : Registry) (cs : List Call)
    → lookup d (run s cs).authorized ≡ holder d (lookup d s.authorized) cs
unfolding run
lookup-run d s [] = refl
lookup-run d s (c ∷ cs) = lookup-run d (step s c) cs ∙ ap (λ h. holder d h cs) (lookup-step d s c)

-- After any history of the coordinator's calls, a token for a device is checked against that
-- device's part of the history alone: it passes with the reservation of the last authorization
-- that no revocation of the device, or of all devices, has followed.
pub check-run :
    (d reservation : Text) (cs : List Call)
    → check d reservation (run new cs) ≡ verdict d reservation (holder d none cs)
unfolding check new lookup
check-run d reservation cs = ap (verdict d reservation) (lookup-run d new cs)
