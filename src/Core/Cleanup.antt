-- ===== src/Core/Cleanup.antt =====
-- packages/provider/crates/provider-core/src/cleanup.rs: resetting a device between users. The device
-- behind the backend is a state `W` that each call of the backend changes; the calls are logged.
pub mod Filter
pub mod Glob
pub mod Calls
pub mod Report
use yard.Prelude.{
  Bool, true, false, not, ◌&&◌, ◌||◌, Option, none, some, List, [], ◌∷◌, ◌++◌, Text, codes,
  contains, text_key, is_empty, if◌then◌else◌, Result, ok, err,
}
use Filter.{AppFilter, in_scope}

pub data BackendError : Type 0 where
  unavailable : Text → BackendError
  unsupported : Text → BackendError
  failed : Text → BackendError

-- The text of an error.
abbrev pub describe : BackendError → Text
describe (unavailable e) = codes "device unavailable: " ++ e
describe (unsupported op) = codes "unsupported operation: " ++ op
describe (failed e) = e

pub record CleanupSteps : Type 0 where
  pub uninstall_apps : Bool
  pub clear_app_data : Bool
  pub reset_screen : Bool
  pub wipe_folders : Bool

pub record CleanupReport : Type 0 where
  pub removed : List Text
  pub cleared : List Text
  pub wiped : List Text
  pub errors : List Text

abbrev pub Reply : Type 0 → Type 0
Reply A = Result BackendError A

-- The operations of `DeviceBackend` that cleanup calls, on the device's state.
pub record Backend (W : Type 0) : Type 0 where
  pub apps : W → W × Reply (List Text)
  pub uninstall : Text → W → W × Reply (Unit {0})
  pub clear_app_data : Text → W → W × Reply (Unit {0})
  pub reset_screen : W → W × Reply (Unit {0})
  pub wipe_paths : List Text → W → W × Reply (Unit {0})

pub data Call : Type 0 where
  lists : Call
  uninstalls : Text → Call
  clears : Text → Call
  resets : Call
  wipes : List Text → Call

pub record Run (W : Type 0) : Type 0 where
  pub device : W
  pub calls : List Call
  pub report : CleanupReport

abbrev push_error : Text → CleanupReport → CleanupReport
push_error e r = record r { errors = r.errors ++ e ∷ [] }

-- `CleanupReport::note`: whether the step succeeded, and the report.
abbrev pub note : Text → Reply (Unit {0}) → CleanupReport → Bool × CleanupReport
note step (ok u) r = (true, r)
note step (err (unsupported op)) r = (false, r)
note step (err e) r = (false, push_error (step ++ (codes ": " ++ describe e)) r)

abbrev pub is_new : Option (List Text) → Text → Bool
is_new none app = false
is_new (some baseline) app = not (contains baseline app)

abbrev no_baseline : Text
no_baseline = codes "uninstall: no baseline for this session, skipped"

module _ {W : Type 0} where
  abbrev pub called : Call → W → Run W → Run W
  called c w r = record r { device = w; calls = r.calls ++ c ∷ [] }

  abbrev with_report : CleanupReport → Run W → Run W
  with_report p r = record r { report = p }

  -- What a loop does with the answer for one app: whether it goes on, and the run.
  abbrev pub settle_uninstall : Text → Reply (Unit {0}) → Run W → Bool × Run W
  settle_uninstall app (ok u) r =
      (true, with_report (record (r.report) { removed = r.report.removed ++ app ∷ [] }) r)
  settle_uninstall app (err (unsupported op)) r = (false, r)
  settle_uninstall app (err e) r = (
    true,
    with_report (push_error (codes "uninstall " ++ (app ++ (codes ": " ++ describe e))) r.report) r,
  )

  abbrev pub listed : Text → (List Text → Run W → Run W) → Reply (List Text) → Run W → Run W
  listed step each (ok apps) r = each apps r
  listed step each (err (unsupported op)) r = r
  listed step each (err e) r =
      with_report (push_error (step ++ (codes ": listing apps: " ++ describe e)) r.report) r

  abbrev pub settle_clear : Text → Reply (Unit {0}) → Run W → Bool × Run W
  settle_clear app (ok u) r =
      (true, with_report (record (r.report) { cleared = r.report.cleared ++ app ∷ [] }) r)
  settle_clear app (err (unsupported op)) r = (false, r)
  settle_clear app (err e) r = (
    true,
    with_report
        (push_error (codes "clear app data " ++ (app ++ (codes ": " ++ describe e))) r.report) r,
  )

  abbrev pub fresh : W → Run W
  fresh w = record {
    device = w;
    calls = [];
    report = record { removed = []; cleared = []; wiped = []; errors = [] };
  }

module _ {W : Type 0} (b : Backend W) where
  unfoldable pub uninstall_one : Text → Run W → Bool × Run W
  uninstall_one app r =
      let (w, reply) = b.uninstall app r.device in
      settle_uninstall app reply (called (uninstalls app) w r)

  -- The turn of the loop for one app.
  unfoldable pub uninstall_turn : List Text → List Text → Text → Run W → Bool × Run W
  uninstall_turn baseline protected app r =
      if contains baseline app || contains protected app then (true, r) else uninstall_one app r

  unfoldable pub uninstall_each : List Text → List Text → List Text → Run W → Run W
  uninstall_each baseline protected [] r = r
  uninstall_each baseline protected (app ∷ apps) r =
      let (go, r') = uninstall_turn baseline protected app r in
      let rest = uninstall_each baseline protected apps r' in if go then rest else r'

  unfoldable pub uninstall_new : List Text → List Text → Run W → Run W
  uninstall_new baseline protected r =
      let (w, reply) = b.apps r.device in
      listed (codes "uninstall") (uninstall_each baseline protected) reply (called lists w r)

  unfoldable pub clear_one : Text → Run W → Bool × Run W
  clear_one app r =
      let (w, reply) = b.clear_app_data app r.device in
      settle_clear app reply (called (clears app) w r)

  unfoldable pub clear_turn : AppFilter → Option (List Text) → Text → Run W → Bool × Run W
  clear_turn filter baseline app r =
      if is_new baseline app
      then (true, r)
      else if not (in_scope filter app)
      then (true, r)
      else clear_one app r

  unfoldable pub clear_each : AppFilter → Option (List Text) → List Text → Run W → Run W
  clear_each filter baseline [] r = r
  clear_each filter baseline (app ∷ apps) r =
      let (go, r') = clear_turn filter baseline app r in
      let rest = clear_each filter baseline apps r' in if go then rest else r'

  unfoldable pub clear_surviving : AppFilter → Option (List Text) → Run W → Run W
  clear_surviving filter baseline r =
      let (w, reply) = b.apps r.device in
      listed (codes "clear app data") (clear_each filter baseline) reply (called lists w r)

  unfoldable pub reset : Run W → Run W
  reset r =
      let (w, reply) = b.reset_screen r.device in
      with_report (note (codes "reset screen") reply r.report).1 (called resets w r)

  unfoldable pub wipe : List Text → Run W → Run W
  wipe paths r =
      let (w, reply) = b.wipe_paths paths r.device in
      let (done, report) = note (codes "wipe folders") reply r.report in
      with_report (if done then record report { wiped = paths } else report)
        (called (wipes paths) w r)

  abbrev pub uninstall_step : Option (List Text) → List Text → Run W → Run W
  uninstall_step none protected r = with_report (push_error no_baseline r.report) r
  uninstall_step (some baseline) protected r = uninstall_new baseline protected r

  -- The four phases, each behind its switch.
  unfoldable pub uninstall_phase : CleanupSteps → Option (List Text) → List Text → Run W → Run W
  uninstall_phase steps baseline protected r =
      if steps.uninstall_apps then uninstall_step baseline protected r else r

  unfoldable pub clear_phase : CleanupSteps → AppFilter → Option (List Text) → Run W → Run W
  clear_phase steps filter baseline r =
      if steps.clear_app_data then clear_surviving filter baseline r else r

  unfoldable pub reset_phase : CleanupSteps → Run W → Run W
  reset_phase steps r = if steps.reset_screen then reset r else r

  unfoldable pub wipe_phase : CleanupSteps → List Text → Run W → Run W
  wipe_phase steps paths r = if steps.wipe_folders && not (is_empty paths) then wipe paths r else r

  unfoldable pub run_with_protected :
      CleanupSteps → AppFilter → Option (List Text) → List Text → List Text → W → Run W
  run_with_protected steps filter baseline paths protected w = wipe_phase steps paths (
      reset_phase steps
        (clear_phase steps filter baseline (uninstall_phase steps baseline protected (fresh w))))

  -- `run`: with no protected apps.
  unfoldable pub run : CleanupSteps → AppFilter → Option (List Text) → List Text → W → Run W
  run steps filter baseline paths w = run_with_protected steps filter baseline paths [] w
