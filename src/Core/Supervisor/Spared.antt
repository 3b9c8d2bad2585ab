-- ===== src/Core/Supervisor/Spared.antt =====
-- What a cleanup of a device keeps.
use yard.Prelude.{
  ◌≡◌, refl, Bool, true, false, ◌&&◌, Option, is_some, List, [], ◌∷◌, ℕ, zero, suc, if◌then◌else◌,
  Text, text_eq, text_key, contains, any, keep, take, is_empty, ok, err, arith, Bool-cases,
  Option-cases, inl, inr,
}
use yard.Prelude.Dict.{lookup}
use yard.Core.Cleanup.{Reply, CleanupSteps, CleanupReport, run_with_protected}
use yard.Core.Cleanup as Cleanup
use yard.Core.Cleanup.Filter.{AppFilter}
use yard.Core.Cleanup.Calls.{Permitted, AllCalls, run_with_protected-Permitted}
use yard.Core.Preload.{
  PreloadStore, ProtectedPreload, is_protected, for_device, is_entry, artifact_path,
}
use yard.Core.Supervisor.Device.{DeviceCall, cleans, Device, observe}
use yard.Core.Supervisor.Cleaning.{
  Repair, Deadline, met, missed, settle_install, install_preload, restore, restore_each,
  installed_after, listed_repair, repair_entries, repair_preloads, repair_in_time, log_calls,
  strikes, known_apps, app_ids, clean_steps, fit, land, run_cleanup,
}
use yard.Core.Supervisor.Sound.{AllSpare, Sound}

listed-is_entry :
    (id app : Text) (es : List ProtectedPreload)
    → any (is_entry id app) es ≡ true
    → contains (app_ids (keep (λ e. text_eq e.device_id id) es)) app ≡ true
unfolding contains
listed-is_entry id app [] h = ground arith
listed-is_entry id app (e ∷ es) h = ground (arith, listed-is_entry id app es)

-- An app that is not among the protected ids that a cleanup is given is not protected.
unlisted-is_protected :
    (s : PreloadStore) (id app : Text)
    → contains (app_ids (for_device s id)) app ≡ false
    → is_protected s id app ≡ false
unfolding is_protected for_device
unlisted-is_protected s id app h = elim (Bool-cases (any (is_entry id app) s.entries)) [
  | inl p ↦ let q = listed-is_entry id app s.entries p in ground arith
  | inr p ↦ p
]

AllCalls-take :
    (P : Cleanup.Call → Type 0) (n : ℕ) (cs : List Cleanup.Call)
    → AllCalls P cs
    → AllCalls P (take n cs)
AllCalls-take P zero cs h = tt
AllCalls-take P (suc n) [] h = tt
AllCalls-take P (suc n) (c ∷ cs) h = (h.0, AllCalls-take P n cs h.1)

module _ (s : PreloadStore) (id : Text) (steps : CleanupSteps) (filter : AppFilter)
    (baseline : Option (List Text)) (paths : List Text) where
  abbrev Allowed : Cleanup.Call → Type 0
  Allowed = Permitted steps filter baseline paths (app_ids (for_device s id))

  strikes-Permitted : (c : Cleanup.Call) → Allowed c → strikes s id c ≡ false
  strikes-Permitted Cleanup.lists h = refl
  strikes-Permitted (Cleanup.uninstalls app) h = unlisted-is_protected s id app h.2
  strikes-Permitted (Cleanup.clears app) h = refl
  strikes-Permitted Cleanup.resets h = refl
  strikes-Permitted (Cleanup.wipes ps) h = refl

  log_calls-AllSpare :
      (P : Text → Text → Type 0) (i : Text) (cs : List Cleanup.Call) (log : List DeviceCall)
      → AllCalls Allowed cs
      → AllSpare P i log
      → AllSpare P i (log_calls s id cs log)
  log_calls-AllSpare P i [] log h k = k
  log_calls-AllSpare P i (c ∷ cs) log h k =
      log_calls-AllSpare P i cs (cleans c (strikes s id c) ∷ log) h.1 (strikes-Permitted c h.0, k)

module _ (P : Text → Text → Type 0) (s : PreloadStore) (id : Text) {I W : Type 0} where
  clean_steps-Sound :
      (seconds : Text) (deadline : Deadline W) (steps : CleanupSteps) (filter : AppFilter)
      (d : Device I W)
      → Sound P id d
      → Sound P id (clean_steps seconds deadline steps filter s d).1
  unfolding clean_steps
  clean_steps-Sound seconds deadline steps filter d h =
      let known = known_apps d.baseline in
      let ids = app_ids (for_device s d.id) in
      let r = run_with_protected d.backend.cleanup steps filter known d.cleanup_paths ids d.world in
      let p =
        run_with_protected-Permitted d.backend.cleanup steps filter known d.cleanup_paths ids
          d.world in
      let logged : (cs : List Cleanup.Call)
          → AllCalls (Permitted steps filter known d.cleanup_paths ids) cs
          → AllSpare P id (log_calls s d.id cs d.calls) =
        λ cs a.
          log_calls-AllSpare s d.id steps filter known d.cleanup_paths P id cs d.calls a h.1 in
      elim deadline as (λ k. Sound P id (clean_steps seconds k steps filter s d).1) [
        | met ↦ (h.0, logged r.calls p)
        | missed n w ↦ (h.0, logged (take n r.calls) (AllCalls-take _ n r.calls p))
      ]

  settle_install-Sound :
      (e : ProtectedPreload) (a : Reply (Unit {0})) (d : Device I W) (r : Repair I W)
      → Sound P id d
      → Sound P id (settle_install e (a, d) r).device
  settle_install-Sound e (ok u) d r h = h
  settle_install-Sound e (err x) d r h = h

  either-Sound :
      (c : Bool) (x y : Repair I W)
      → Sound P id x.device
      → Sound P id y.device
      → Sound P id (if c then x else y).device
  either-Sound true x y h k = h
  either-Sound false x y h k = k

  install_preload-Sound :
      (artifact : Text) (e : ProtectedPreload) (r : Repair I W)
      → Sound P id r.device
      → Sound P id (install_preload artifact e r).device
  install_preload-Sound artifact e r h =
      settle_install-Sound e (r.device.backend.install artifact r.device.world).1 _ r
        (h.0, (tt, h.1))

  restore-Sound :
      (e : ProtectedPreload) (r : Repair I W)
      → Sound P id r.device
      → Sound P id (restore s e r).device
  unfolding restore
  restore-Sound e r h = elim (Option-cases (artifact_path s e)) [
    | inl q ↦ rw (q, restore) h
    | inr (artifact, q) ↦
        rw (q, restore)
          (either-Sound (is_some (lookup artifact s.disk.files)) _ _
            (install_preload-Sound artifact e r h) h)
  ]

  restore_each-Sound :
      (installed : List Text) (es : List ProtectedPreload) (r : Repair I W)
      → Sound P id r.device
      → Sound P id (restore_each s installed es r).device
  unfolding restore_each
  restore_each-Sound installed [] r h = h
  restore_each-Sound installed (e ∷ es) r h =
      let r' = restore s e (record r { all_ok = true }) in
      let k = restore-Sound e (record r { all_ok = true }) h in
      either-Sound (contains installed e.app_id) _ _ (restore_each-Sound installed es r h) (
        restore_each-Sound (installed_after e.app_id installed r'.all_ok) es
          (record r' { all_ok = r.all_ok && r'.all_ok }) k)

  listed_repair-Sound :
      (es : List ProtectedPreload) (a : Reply (List Text)) (d : Device I W) (report : CleanupReport)
      → Sound P id d
      → Sound P id (listed_repair s es (a, d) report).device
  listed_repair-Sound es (ok apps) d report h = restore_each-Sound apps es _ h
  listed_repair-Sound es (err x) d report h = h

  repair_entries-Sound :
      (es : List ProtectedPreload) (d : Device I W) (report : CleanupReport)
      → Sound P id d
      → Sound P id (repair_entries s es d report).device
  unfolding repair_entries
  repair_entries-Sound [] d report h = h
  repair_entries-Sound (e ∷ es) d report h =
      listed_repair-Sound (e ∷ es) (d.backend.cleanup.apps d.world).1
        (observe d.backend.cleanup.apps d).1 report h

  repair_in_time-Sound :
      (seconds : Text) (left : Bool) (deadline : Deadline W) (d : Device I W)
      (report : CleanupReport)
      → Sound P id d
      → Sound P id (repair_in_time seconds left deadline s d report).device
  unfolding repair_in_time repair_preloads
  repair_in_time-Sound seconds true met d report h =
      repair_entries-Sound (for_device s d.id) d report h
  repair_in_time-Sound seconds false met d report h =
      either-Sound (is_empty (for_device s d.id)) _ _ h h
  repair_in_time-Sound seconds left (missed n w) d report h =
      repair_entries-Sound (take n (for_device s d.id)) d report h

  fit-Sound : (well : Bool) (d : Device I W) → Sound P id d → Sound P id (fit well d).1
  fit-Sound true d h = h
  fit-Sound false d h = h

  pub run_cleanup-Sound :
      (seconds : Text) (a : Deadline W) (left : Bool) (b : Deadline W) (steps : CleanupSteps)
      (filter : AppFilter) (d : Device I W)
      → Sound P id d
      → Sound P id (run_cleanup seconds a left b steps filter s d).1
  unfolding run_cleanup land
  run_cleanup-Sound seconds a left b steps filter d h = fit-Sound _ _ (
      repair_in_time-Sound seconds left b (clean_steps seconds a steps filter s d).1
        (clean_steps seconds a steps filter s d).0 (clean_steps-Sound seconds a steps filter d h))
