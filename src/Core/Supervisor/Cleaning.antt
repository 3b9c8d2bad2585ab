-- ===== src/Core/Supervisor/Cleaning.antt =====
-- packages/provider/crates/provider-core/src/supervisor.rs: `run_cleanup`, with the repair of the
-- preloads. A deadline is the environment's: how far the run it interrupts got, and what the device
-- was left in, are arguments; `seconds` is the printed timeout.
use yard.Prelude.{
  ℕ, ◌+◌, Bool, true, false, ◌&&◌, Option, none, some, is_some, List, [], ◌∷◌, ◌++◌, if◌then◌else◌,
  Text, codes, contains, text_key, is_empty, map, take, Result, ok, err,
}
use yard.Prelude.Dict.{lookup}
use yard.Core.Cleanup.Filter.{AppFilter}
use yard.Core.Cleanup.{
  BackendError, Reply, CleanupSteps, CleanupReport, describe, Run, run_with_protected,
}
use yard.Core.Cleanup as Cleanup
use yard.Core.Preload.{ProtectedPreload, PreloadStore, for_device, artifact_path, is_protected}
use yard.Core.Supervisor.Device.{
  DeviceStatus, ready, unhealthy, Device, DeviceCall, cleans, installs, AppBaseline, perform,
  observe, outcome_of,
}

-- What a finished install tells the coordinator, what a cleanup removed, and the status it ends in.
pub data Notice : Type 0 where
  install_finished : ProtectedPreload → Option Text → Notice
  cleanup_finished : CleanupReport → Notice
  lands : DeviceStatus → Notice

-- The run, over a device: the report, whether all went well, and the notices, the newest first.
pub record Repair (I W : Type 0) : Type 0 where
  pub device : Device I W
  pub report : CleanupReport
  pub all_ok : Bool
  pub notices : List Notice

abbrev pub add_error : Text → CleanupReport → CleanupReport
add_error e r = record r { errors = r.errors ++ e ∷ [] }

-- A deadline that a stage met: after so many calls or entries, with the device in that state.
pub data Deadline (W : Type 0) : Type 0 where
  met : Deadline W
  missed : ℕ → W → Deadline W

abbrev pub error_of {ℓ} : {A : Type ℓ} → Result BackendError A → Option Text
error_of (ok a) = none
error_of (err e) = some (describe e)

abbrev pub installed_after : Text → List Text → Bool → List Text
installed_after app installed ok_ = if ok_ then app ∷ installed else installed

abbrev pub abandoned_repair : Text → Text
abandoned_repair seconds =
    codes "preload repair exceeded " ++ (seconds ++ codes "s and was abandoned")

-- Whether a call takes an app off the device that the store protects there.
abbrev pub strikes : PreloadStore → Text → Cleanup.Call → Bool
strikes store id (Cleanup.uninstalls app) = is_protected store id app
strikes store id c = false

-- The cleanup's calls on the device's log, the newest first.
abbrev pub log_calls : PreloadStore → Text → List Cleanup.Call → List DeviceCall → List DeviceCall
log_calls store id [] cs = cs
log_calls store id (c ∷ cs) log = log_calls store id cs (cleans c (strikes store id c) ∷ log)

abbrev pub known_apps : Option AppBaseline → Option (List Text)
known_apps none = none
known_apps (some b) = some b.apps

abbrev pub app_ids : List ProtectedPreload → List Text
app_ids es = map (λ e. e.app_id) es

abbrev pub landing : Bool → DeviceStatus
landing well = if well then ready else unhealthy

module _ {I W : Type 0} where
  abbrev pub fails : Text → Repair I W → Repair I W
  fails e r = record r { report = add_error e r.report; all_ok = false }

  abbrev pub count_install : Option Text → Device I W → Device I W
  count_install none d = record d { installs_ok = d.installs_ok + 1 }
  count_install (some e) d = record d { installs_failed = d.installs_failed + 1 }

  abbrev pub settle_install :
      ProtectedPreload → Reply (Unit {0}) × Device I W → Repair I W → Repair I W
  settle_install e (reply, d) r =
      let counted : Repair I W = record r {
        device = count_install (error_of reply) d;
        notices = install_finished e (error_of reply) ∷ r.notices;
      } in
      elim reply [
        | ok u ↦ counted
        | err x ↦
            fails (codes "preload repair " ++ (e.app_id ++ (codes ": " ++ describe x))) counted
      ]

  abbrev pub install_preload : Text → ProtectedPreload → Repair I W → Repair I W
  install_preload artifact e r =
      settle_install e
        (perform (λ a. installs e.app_id artifact (outcome_of a))
          (r.device.backend.install artifact) r.device)
        r

  -- An entry whose app is not installed.
  unfoldable pub restore : PreloadStore → ProtectedPreload → Repair I W → Repair I W
  restore store e r = elim (artifact_path store e) [
    | none ↦ fails (codes "preload repair " ++ (e.app_id ++ codes ": no safe artifact path")) r
    | some artifact ↦
        if is_some (lookup artifact store.disk.files)
        then install_preload artifact e r
        else fails (codes "preload repair " ++ (e.app_id ++ codes ": artifact is missing")) r
  ]

  -- The loop. An app that an earlier entry restored counts as installed.
  unfoldable pub restore_each :
      PreloadStore → List Text → List ProtectedPreload → Repair I W → Repair I W
  restore_each store installed [] r = r
  restore_each store installed (e ∷ es) r =
      let r' : Repair I W = restore store e (record r { all_ok = true }) in
      let joined : Repair I W = record r' { all_ok = r.all_ok && r'.all_ok } in
      let skipped : Repair I W = restore_each store installed es r in
      let rest : Repair I W =
        restore_each store (installed_after e.app_id installed r'.all_ok) es joined in
      if contains installed e.app_id then skipped else rest

  abbrev pub listed_repair :
      PreloadStore
      → List ProtectedPreload
      → Reply (List Text) × Device I W
      → CleanupReport
      → Repair I W
  listed_repair store es (ok apps, d) report =
      restore_each store apps es
        (record { device = d; report = report; all_ok = true; notices = [] })
  listed_repair store es (err e, d) report = record {
    device = d;
    report = add_error (codes "preload repair: listing apps: " ++ describe e) report;
    all_ok = false;
    notices = [];
  }

  abbrev pub nothing_to_repair : Device I W → CleanupReport → Repair I W
  nothing_to_repair d report = record { device = d; report = report; all_ok = true; notices = [] }

  -- `repair_preloads`, of the given entries of the device.
  unfoldable pub repair_entries :
      PreloadStore → List ProtectedPreload → Device I W → CleanupReport → Repair I W
  repair_entries store [] d report = nothing_to_repair d report
  repair_entries store (e ∷ es) d report =
      listed_repair store (e ∷ es) (observe d.backend.cleanup.apps d) report

  unfoldable pub repair_preloads : PreloadStore → Device I W → CleanupReport → Repair I W
  repair_preloads store d report = repair_entries store (for_device store d.id) d report

  -- The repair within what is left of the budget.
  unfoldable pub repair_in_time :
      Text → Bool → Deadline W → PreloadStore → Device I W → CleanupReport → Repair I W
  repair_in_time seconds time_left met store d report =
      if time_left
      then repair_preloads store d report
      else if is_empty (for_device store d.id)
      then nothing_to_repair d report
      else fails (abandoned_repair seconds) (nothing_to_repair d report)
  repair_in_time seconds time_left (missed n w) store d report =
      let r : Repair I W = repair_entries store (take n (for_device store d.id)) d report in
      fails (abandoned_repair seconds) (record r { device = record (r.device) { world = w } })

  -- The steps of cleanup: the report, and the device, its baseline gone.
  unfoldable pub clean_steps :
      Text
      → Deadline W
      → CleanupSteps
      → AppFilter
      → PreloadStore
      → Device I W
      → CleanupReport × Device I W
  clean_steps seconds deadline steps filter store d =
      let r : Run W =
        run_with_protected d.backend.cleanup steps filter (known_apps d.baseline) d.cleanup_paths
          (app_ids (for_device store d.id)) d.world in
      elim deadline [
        | met ↦ (
          r.report,
          record d {
            world = r.device;
            calls = log_calls store d.id r.calls d.calls;
            baseline = none;
          },
        )
        | missed n w ↦ (
          record {
            removed = [];
            cleared = [];
            wiped = [];
            errors = (codes "cleanup exceeded " ++ (seconds ++ codes "s and was abandoned")) ∷ [];
          },
          record d {
            world = w;
            calls = log_calls store d.id (take n r.calls) d.calls;
            baseline = none;
          },
        )
      ]

  -- The health is asked for only where the repair went well.
  abbrev pub fit : Bool → Device I W → Bool × Device I W
  fit true d = observe d.backend.is_healthy d
  fit false d = (false, d)

  -- What the device ends in: healthy and complete, or not.
  unfoldable pub land : Repair I W → List Notice × Device I W
  land r =
      let (well, d) = fit r.all_ok r.device in
      let status : DeviceStatus = landing well in
      (lands status ∷ cleanup_finished r.report ∷ r.notices, record d { status = status })

  unfoldable pub run_cleanup :
      Text
      → Deadline W
      → Bool
      → Deadline W
      → CleanupSteps
      → AppFilter
      → PreloadStore
      → Device I W
      → List Notice × Device I W
  run_cleanup seconds steps_deadline time_left repair_deadline steps filter store d =
      let (report, d') = clean_steps seconds steps_deadline steps filter store d in
      land (repair_in_time seconds time_left repair_deadline store d' report)
