-- ===== src/Core/Supervisor/Sound.antt =====
-- What holds of a device whatever is done to it.
use yard.Prelude.{
  ◌≡◌, Bool, true, false, not, Option, none, some, is_some, List, [], ◌∷◌, if◌then◌else◌, Text,
  text_key, ok, err, Bool-cases, inl, inr, Key, ltb, ◌-◌, ℕ,
}
use yard.Core.Session.{Authorization}
use yard.Core.Cleanup.{unavailable, unsupported, Reply}
use yard.Core.Cleanup as Cleanup
use yard.Core.Supervisor.Device.{
  DeviceStatus, DeviceCall, uninstalls, cleans, Device, observe, reconcile_session, after_park,
  is_ready, after_wake, wake_screen, take_baseline, snapshot_baseline, is_baseline_of, snapshot,
  hold_info, inform, park, same_status, withdraws, claim, claim_since,
}
use yard.Core.Supervisor.Cleaning.{count_install}

-- The call took no app off the device that a preload protected then, but one that `P` names.
abbrev pub Spares : (Text → Text → Type 0) → Text → DeviceCall → Type 0
Spares P id (uninstalls app guarded) = guarded ≡ false
Spares P id (withdraws app) = P id app
Spares P id (cleans c guarded) = guarded ≡ false
Spares P id c = Unit {0}

abbrev pub AllSpare : (Text → Text → Type 0) → Text → List DeviceCall → Type 0
AllSpare P id [] = Unit {0}
AllSpare P id (c ∷ cs) = Spares P id c × AllSpare P id cs

-- A device under its own name, all of whose calls spare the preloads.
abbrev pub Sound : {I W : Type 0} → (Text → Text → Type 0) → Text → Device I W → Type 0
Sound P id d = (d.id ≡ id) × AllSpare P id d.calls

module _ (P : Text → Text → Type 0) (id : Text) {I W : Type 0} where
  if-Sound :
      (c : Bool) (x y : Device I W) → Sound P id x → Sound P id y → Sound P id (if c then x else y)
  if-Sound true x y p q = p
  if-Sound false x y p q = q

  pub reconcile_session-Sound :
      (auth : Option Authorization) (d : Device I W)
      → Sound P id d
      → Sound P id (reconcile_session auth d)
  unfolding reconcile_session
  reconcile_session-Sound auth d h = (h.0, (tt, (tt, h.1)))

  if_with-Sound :
      {A : Type 0} (c : Bool) (x y : A × Device I W)
      → Sound P id x.1
      → Sound P id y.1
      → Sound P id (if c then x else y).1
  if_with-Sound true x y p q = p
  if_with-Sound false x y p q = q

  pub park-Sound :
      (on : Bool) (auth : Option Authorization) (status : DeviceStatus) (d : Device I W)
      → Sound P id d
      → Sound P id (park on auth status d).1
  unfolding park
  park-Sound on auth status d h = if_with-Sound (not on) _ _ h (
      if_with-Sound (not (is_ready status)) _ _ h (
        if_with-Sound (is_some auth) _ _ h (if_with-Sound d.screen_blanked _ _ h (h.0, (tt, h.1)))))

  pub after_park-Sound :
      (a : Reply (Unit {0})) (d : Device I W) → Sound P id d → Sound P id (after_park (a, d))
  after_park-Sound (ok u) d h = h
  after_park-Sound (err (unavailable e)) d h = h
  after_park-Sound (err (unsupported op)) d h = h
  after_park-Sound (err (Cleanup.failed e)) d h = h

  after_wake-Sound :
      (a : Reply (Unit {0})) (d : Device I W) → Sound P id d → Sound P id (after_wake (a, d))
  after_wake-Sound (ok u) d h = h
  after_wake-Sound (err (unavailable e)) d h = h
  after_wake-Sound (err (unsupported op)) d h = h
  after_wake-Sound (err (Cleanup.failed e)) d h = h

  pub wake_screen-Sound : (d : Device I W) → Sound P id d → Sound P id (wake_screen d)
  unfolding wake_screen
  wake_screen-Sound d h =
      if-Sound d.screen_blanked _ d
        (after_wake-Sound (d.backend.set_screen_awake true d.world).1 _ (h.0, (tt, h.1))) h

  pub count_install-Sound :
      (e : Option Text) (d : Device I W) → Sound P id d → Sound P id (count_install e d)
  count_install-Sound none d h = h
  count_install-Sound (some e) d h = h

  take_baseline-Sound :
      (r : Text) (a : Reply (List Text)) (d : Device I W)
      → Sound P id d
      → Sound P id (take_baseline r (a, d))
  take_baseline-Sound r (ok apps) d h = h
  take_baseline-Sound r (err e) d h = h

  pub snapshot_baseline-Sound :
      (r : Text) (d : Device I W) → Sound P id d → Sound P id (snapshot_baseline r d)
  unfolding snapshot_baseline
  snapshot_baseline-Sound r d h =
      if-Sound (is_baseline_of r d.baseline) d _ h
        (take_baseline-Sound r (d.backend.cleanup.apps d.world).1 _ h)

  claim_since-Sound :
      (now : ℕ) (o : Option ℕ) (d : Device I W) → Sound P id d → Sound P id (claim_since now o d).1
  claim_since-Sound now none d h = h
  claim_since-Sound now (some previous) d h = elim (Bool-cases (ltb (now - previous) 30)) [
    | inl soon ↦ rw soon h
    | inr late ↦ rw late h
  ]

  pub claim-Sound : (now : ℕ) (d : Device I W) → Sound P id d → Sound P id (claim now d).1
  unfolding claim
  claim-Sound now d h = claim_since-Sound now d.activity d h

module _ (P : Text → Text → Type 0) (id : Text) {I W : Type 0} ⦃k : Key I⦄ where
  hold_info-Sound : (a : Reply I) (d : Device I W) → Sound P id d → Sound P id (hold_info (a, d)).1
  hold_info-Sound (ok i) d h = h
  hold_info-Sound (err e) d h = h

  pub inform-Sound :
      (previous next : DeviceStatus) (d : Device I W)
      → Sound P id d
      → Sound P id (inform previous next d).1
  unfolding inform snapshot
  inform-Sound previous next d h =
      let seen = hold_info-Sound (d.backend.info d.world).1 (observe d.backend.info d).1 h in
      let set = if-Sound P id (not (same_status next previous)) _ _ seen seen in
      if_with-Sound P id _ _ _ set set
