-- ===== src/Core/Session/Revocations.antt =====
-- What viewers are told on the revocation channel.
use yard.Prelude.{
  ◌≡◌, ◌≢◌, refl, sym, ap, ◌∙◌, List, [], ◌∷◌, ◌++◌, Text, text_eq, text_eq_iff, text_key,
  if◌then◌else◌, arith, Bool, true, false, ◌||◌, contains, codes, eq_refl, ok, Option-cases,
  Bool-cases, inl, inr,
}
use yard.Prelude.Dict.{lookup}
use yard.Core.Session.{
  Authorization, Registry, Revocation, authorize, set_adb_keys, revoke, revoke_each, revoke_all,
  check, Call, authorizes, sets_keys, revokes, revokes_all, step, keys, displaces,
}
use yard.Core.Session.Refinement.{lookup-step, lookup_absent}
use mathlib.Core.List.{append_assoc, append-nil}

abbrev pub announces : Text → List Revocation → Bool
announces d [] = false
announces d (r ∷ rs) = text_eq r.device_id d || announces d rs

abbrev notices : Text → List Text → List Revocation
notices reason [] = []
notices reason (d ∷ ds) = record { device_id = d; reason = reason } ∷ notices reason ds

-- What a call sends on the channel.
abbrev news : Registry → Call → List Revocation
news s (authorizes e a) =
    if displaces (lookup e s.authorized) a
    then record { device_id = e; reason = codes "replaced by a new reservation" } ∷ []
    else []
news s (sets_keys e ks) = []
news s (revokes e r) = record { device_id = e; reason = r } ∷ []
news s (revokes_all r) = notices r (keys s.authorized)

revocations-revoke_each :
    (ds : List Text) (r : Text) (s : Registry)
    → (revoke_each ds r s).revocations ≡ s.revocations ++ notices r ds
unfolding revoke_each revoke
revocations-revoke_each [] r s = sym (append-nil s.revocations)
revocations-revoke_each (d ∷ ds) r s =
    revocations-revoke_each ds r (revoke d r s)
    ∙ append_assoc s.revocations (record { device_id = d; reason = r } ∷ []) (notices r ds)

revocations-step : (s : Registry) (c : Call) → (step s c).revocations ≡ s.revocations ++ news s c
unfolding step authorize set_adb_keys revoke revoke_all
revocations-step s (authorizes e a) = ground (arith, append-nil s.revocations)
revocations-step s (sets_keys e ks) = elim (Option-cases (lookup e s.authorized)) [
  | inl h ↦ rw (h, set_adb_keys) (sym (append-nil s.revocations))
  | inr (a, h) ↦ rw (h, set_adb_keys) (sym (append-nil s.revocations))
]
revocations-step s (revokes e r) = refl
revocations-step s (revokes_all r) = revocations-revoke_each (keys s.authorized) r s

announces-notices : (d r : Text) (ds : List Text) → announces d (notices r ds) ≡ contains ds d
unfolding contains
announces-notices d r [] = refl
announces-notices d r (e ∷ ds) = ap (◌||◌ (text_eq e d)) (announces-notices d r ds)

displaced :
    (d reservation : Text) (s : Registry) (e : Text) (a : Authorization)
    → e ≡ d
    → check d reservation s ≡ ok tt
    → text_eq a.reservation_id reservation ≡ false
    → announces d (news s (authorizes e a)) ≡ true
unfolding check
displaced d reservation s e a same before other = elim (Option-cases (lookup d s.authorized)) [
  | inl h ↦ ground arith
  | inr (p, h) ↦ ground (
    arith,
    text_eq_iff p.reservation_id reservation,
    text_eq_iff p.reservation_id a.reservation_id,
    text_eq_iff a.reservation_id reservation,
    eq_refl d,
  )
]

-- A token that passed before a call and not after it: the call announces the device.
announces-news :
    (d reservation : Text) (s : Registry) (c : Call)
    → check d reservation s ≡ ok tt
    → check d reservation (step s c) ≢ ok tt
    → announces d (news s c) ≡ true
unfolding check
announces-news d reservation s (authorizes e a) before after = elim (Bool-cases (text_eq e d)) [
  | inl same ↦
      displaced d reservation s e a ((text_eq_iff e d).0 same) before
        (ground (arith, lookup-step d s (authorizes e a)))
  | inr other ↦ absurd (after (ground (arith, lookup-step d s (authorizes e a))))
]
announces-news d reservation s (sets_keys e ks) before after = absurd (
    after (elim (Option-cases (lookup d s.authorized)) [
      | inl h ↦ ground arith
      | inr (a, h) ↦ ground (arith, lookup-step d s (sets_keys e ks))
    ]))
announces-news d reservation s (revokes e r) before after = elim (Bool-cases (text_eq e d)) [
  | inl same ↦ rw same
  | inr other ↦ absurd (after (ground (arith, lookup-step d s (revokes e r))))
]
announces-news d reservation s (revokes_all r) before after =
    elim (Bool-cases (contains (keys s.authorized) d)) [
      | inl here ↦ announces-notices d r (keys s.authorized) ∙ here
      | inr absent ↦ ground (arith, lookup_absent d s.authorized absent)
    ]

-- When a call takes a device away from the reservation that held it, be it by a replacement or by a
-- revocation of the device or of all, the channel carries a revocation of that device behind what
-- it carried before.
pub revocations-step-announces :
    (d reservation : Text) (s : Registry) (c : Call)
    → check d reservation s ≡ ok tt
    → check d reservation (step s c) ≢ ok tt
    → (sent : List Revocation) × ((step s c).revocations ≡ s.revocations ++ sent)
      × (announces d sent ≡ true)
revocations-step-announces d reservation s c before after =
    (news s c, revocations-step s c, announces-news d reservation s c before after)
