-- ===== src/Core/Supervisor/Commands.antt =====
-- packages/provider/crates/provider-core/src/supervisor.rs: the host with the coordinator's commands,
-- the revocations, the polls under way and the pending cleanups; a cleanup runs at some time behind its
-- command.
use yard.Prelude.{
  ℕ, Bool, true, false, not, ◌&&◌, Option, none, some, is_some, List, [], ◌∷◌, ◌++◌, if◌then◌else◌,
  Text, text_eq, codes, contains, text_key, Result, ok, err,
}
use yard.Prelude.Dict.{lookup, insert}
use yard.Core.Session.{AdbKey, Authorization, Registry, authorize, revoke_all, current}
use yard.Core.Cleanup.{BackendError, Reply, CleanupSteps}
use yard.Core.Cleanup.Filter.{AppFilter}
use yard.Core.Preload.{ProtectedPreload, PreloadStore, PreloadError, is_protected, remove_}
use yard.Core.Preload as Preload
use yard.Core.Supervisor.Device.{
  DeviceStatus, present, preparing, ready, cleaning, Device, Snapshot, DeviceCall, uninstalls,
  withdraws, stops_debug, perform, observe, set_audio, set_holder, reconcile_session,
  reservation_of, wake_screen, snapshot_baseline, claim,
}
use yard.Core.Supervisor.Cleaning.{Notice, Deadline, run_cleanup, count_install}

-- What an upload's `install.finished` tells, a failure by its text.
pub record InstallResult : Type 0 where
  pub user_id : Text
  pub filename : Text
  pub size : ℕ
  pub sha256 : Text
  pub error : Option Text
  pub is_preload : Bool
  pub app_id : Option Text
  pub platform : Option Text

pub record PulledFile : Type 0 where
  pub user_id : Text
  pub path : Text
  pub size : ℕ
  pub sha256 : Text

pub data ProviderMessage (I : Type 0) : Type 0 where
  device_upsert : Snapshot I → ProviderMessage I
  device_status : (id : Text) → DeviceStatus → (note : Text) → ProviderMessage I
  device_activity : (id : Text) (at : ℕ) → ProviderMessage I
  notice : (id : Text) → Notice → ProviderMessage I
  install_finished : (id : Text) → InstallResult → ProviderMessage I
  file_pulled : (id : Text) → PulledFile → ProviderMessage I

pub data HandleError : Type 0 where
  not_owned : Text → HandleError
  backend : BackendError → HandleError
  protected_app : Text → HandleError
  busy_or_unavailable not_connected : HandleError
  not_a_preload : Text → HandleError
  store : PreloadError → HandleError

pub data CommandData : Type 0 where
  nothing : CommandData
  apps : List Text → CommandData
  adb_port : ℕ → CommandData

-- The arguments of a cleanup.
pub record Task : Type 0 where
  pub device_id : Text
  pub steps : CleanupSteps
  pub filter : AppFilter
  pub seconds : Text

pub data Command : Type 0 where
  session_authorize : (id reservation user : Text) → List AdbKey → Command
  device_adb_keys : (id : Text) → List AdbKey → Command
  session_revoke : (id : Text) → Option Text → Command
  device_cleanup : Task → Command
  device_reboot : (id : Text) → Command
  device_rotate : (id : Text) → ℕ → Command
  device_apps : (id : Text) → Command
  device_launch : (id app : Text) → Option (List Text) → Command
  device_uninstall : (id app : Text) → Command
  device_preload_remove : (id app : Text) → Preload.Answers → Command
  device_adb_expose device_adb_unexpose device_restart : (id : Text) → Command

-- How far a poll has come: it knows the status that it read and the one that it goes by; it pushed;
-- it reconciled the session; it has the answer of the call that parks the screen.
pub data Stage : Type 0 where
  looked : (previous next : DeviceStatus) → Stage
  informed reconciled : (next : DeviceStatus) → Stage
  parked : Reply (Unit {0}) → Stage

pub record Poll : Type 0 where
  pub id : Text
  pub stage : Stage

pub record Host (I W : Type 0) : Type 0 where
  pub devices : List (Text × Device I W)
  pub sessions : Registry
  pub preloads : PreloadStore
  pub connected : Bool
  pub blank_idle_screens : Bool
  -- The newest first.
  pub sent : List (ProviderMessage I)
  -- The cleanups that were answered and have not run, each with whether there is a sender to report to.
  pub cleanups : List (Bool × Task)
  -- The polls that are under way.
  pub polls : List Poll

abbrev pub is_pooled : DeviceStatus → Bool
is_pooled ready = true
is_pooled present = true
is_pooled _ = false

abbrev pub or_revoked : Option Text → Text
or_revoked none = codes "revoked"
or_revoked (some reason) = reason

abbrev pub or_no_args : Option (List Text) → List Text
or_no_args none = []
or_no_args (some args) = args

abbrev pub same_reservation : Option Text → Text → Bool
same_reservation none r = false
same_reservation (some q) r = text_eq q r

abbrev pub Answer : Type 0 → Type 0 → Type 0
Answer I W = Result HandleError CommandData × Host I W

module _ {I W : Type 0} where
  abbrev pub put : Text → Device I W → Host I W → Host I W
  put id d h = record h { devices = insert id d h.devices }

  abbrev pub push : ProviderMessage I → Host I W → Host I W
  push m h = if h.connected then record h { sent = m ∷ h.sent } else h

  -- `require`, and what is done with the device.
  abbrev pub with_device : Text → (Device I W → Answer I W) → Host I W → Answer I W
  with_device id f h = elim (lookup id h.devices) [ none ↦ (err (not_owned id), h) | some d ↦ f d ]

  -- A call of the backend whose answer is the command's.
  abbrev pub answer : Text → Host I W → Reply (Unit {0}) × Device I W → Answer I W
  answer id h (ok u, d) = (ok nothing, put id d h)
  answer id h (err e, d) = (err (backend e), put id d h)

  unfoldable pub can_preload : Host I W → Text → Bool
  can_preload h id = elim (lookup id h.devices) [
    | none ↦ false
    | some d ↦ not (is_some (current id h.sessions)) && is_pooled d.status
  ]

  abbrev pub admit : Text → Authorization → Host I W → Device I W → Answer I W
  admit id auth h d =
      let d' : Device I W = (set_holder (some auth.reservation_id) d).1 in
      (ok nothing, record (put id d' h) { sessions = authorize id auth h.sessions })

  -- The device's sound goes on, behind a pause where another reservation held it.
  abbrev pub audio_on : Text → Authorization → Host I W → Reply (Unit {0}) × Device I W → Answer I W
  audio_on id auth h (ok u, d) = admit id auth h d
  audio_on id auth h (err e, d) = (err (backend e), put id d h)

  abbrev pub audio_paused :
      Text → Authorization → Host I W → Reply (Unit {0}) × Device I W → Answer I W
  audio_paused id auth h (ok u, d) = audio_on id auth h (set_audio true d)
  audio_paused id auth h (err e, d) = (err (backend e), put id d h)

  unfoldable pub handle_authorize : Text → Authorization → Host I W → Device I W → Answer I W
  handle_authorize id auth h d =
      let d' : Device I W = wake_screen (snapshot_baseline auth.reservation_id d) in
      if same_reservation (reservation_of (current id h.sessions)) auth.reservation_id
      then audio_on id auth h (set_audio true d')
      else audio_paused id auth h (set_audio false d')

  unfoldable pub handle_cleanup : Task → Host I W → Device I W → Answer I W
  handle_cleanup t h d = (
    ok nothing,
    record (push (device_status t.device_id cleaning (codes "cleaning"))
        (put t.device_id (record d { status = cleaning }) h)) {
          cleanups = h.cleanups ++ (h.connected, t) ∷ [];
        },
  )

  abbrev pub rebooted : Text → Host I W → Reply (Unit {0}) × Device I W → Answer I W
  rebooted id h (ok u, d) = (
    ok nothing,
    push (device_status id preparing (codes "rebooting"))
        (put id (record d { status = preparing }) h),
  )
  rebooted id h (err e, d) = (err (backend e), put id d h)

  abbrev pub apps_listed : Text → Host I W → Reply (List Text) × Device I W → Answer I W
  apps_listed id h (ok as_, d) = (ok (apps as_), put id d h)
  apps_listed id h (err e, d) = (err (backend e), put id d h)

  -- The call and its entry in the log.
  abbrev pub uninstall_call : DeviceCall → Text → Device I W → Reply (Unit {0}) × Device I W
  uninstall_call log app d = perform (λ r. log) (d.backend.cleanup.uninstall app) d

  unfoldable pub handle_uninstall : Text → Text → Host I W → Device I W → Answer I W
  handle_uninstall id app h d =
      if is_protected h.preloads id app
      then (err (protected_app app), h)
      else answer id h (uninstall_call (uninstalls app (is_protected h.preloads id app)) app d)

  abbrev pub preload_gone :
      Text → Result PreloadError (Option ProtectedPreload) × PreloadStore → Host I W → Answer I W
  preload_gone app (ok (some e), s) h = (ok nothing, record h { preloads = s })
  preload_gone app (ok none, s) h = (err (not_a_preload app), record h { preloads = s })
  preload_gone app (err e, s) h = (err (store e), record h { preloads = s })

  -- The device's part is done.
  abbrev pub forget_preload :
      Text → Text → Preload.Answers → Host I W → Reply (Unit {0}) × Device I W → Answer I W
  forget_preload id app a h (ok u, d) = preload_gone app (remove_ h.preloads id app a) (put id d h)
  forget_preload id app a h (err e, d) = (err (backend e), put id d h)

  abbrev pub remove_installed :
      Text → Text → Preload.Answers → Host I W → Reply (List Text) × Device I W → Answer I W
  remove_installed id app a h (ok installed, d) =
      forget_preload id app a h
        (if contains installed app then uninstall_call (withdraws app) app d else (ok tt, d))
  remove_installed id app a h (err e, d) = (err (backend e), put id d h)

  unfoldable pub handle_preload_remove :
      Text → Text → Preload.Answers → Host I W → Device I W → Answer I W
  handle_preload_remove id app a h d =
      if not (can_preload h id)
      then (err busy_or_unavailable, h)
      else if not (is_protected h.preloads id app)
      then (err (not_a_preload app), h)
      else remove_installed id app a h (observe d.backend.cleanup.apps d)

  abbrev pub exposed : Text → Host I W → Reply ℕ × Device I W → Answer I W
  exposed id h (ok port, d) = (ok (adb_port port), put id d h)
  exposed id h (err e, d) = (err (backend e), put id d h)

  -- A bridge that was never up is no failure.
  abbrev pub stop_debug : Device I W → Reply (Unit {0}) × Device I W
  stop_debug d = perform (λ r. stops_debug) d.backend.remote_debug_stop d

  -- `withdraw_adb`, for a revocation.
  unfoldable pub withdraw_adb : Text → Host I W → Host I W
  withdraw_adb id h = elim (lookup id h.devices) [
    | none ↦ h
    | some d ↦ put id (stop_debug (reconcile_session (current id h.sessions) d)).1 h
  ]

  unfoldable pub withdraw_each : List Text → Host I W → Host I W
  withdraw_each [] h = h
  withdraw_each (id ∷ ids) h = withdraw_each ids (withdraw_adb id h)

  unfoldable pub on_disconnected : Host I W → Host I W
  on_disconnected h = record h {
    sessions = revoke_all (codes "control plane disconnected") h.sessions;
  }

  abbrev pub noted : ℕ → Text → Host I W → Bool × Device I W → Host I W
  noted now id h (true, d) = push (device_activity id now) (put id d h)
  noted now id h (false, d) = h

  unfoldable pub note_activity : ℕ → Text → Host I W → Host I W
  note_activity now id h = elim (lookup id h.devices) [
    | none ↦ h
    | some d ↦ noted now id h (claim now d)
  ]

  -- An upload's audit notice, counted where the device is known.
  unfoldable pub push_install_result : Text → InstallResult → Host I W → Host I W
  push_install_result id r h = elim (lookup id h.devices) [
    | none ↦ push (install_finished id r) h
    | some d ↦ push (install_finished id r) (put id (count_install r.error d) h)
  ]

  unfoldable pub push_file_pulled : Text → PulledFile → Host I W → Host I W
  push_file_pulled id f h = push (file_pulled id f) h

  abbrev pub push_notices : Text → List Notice → Host I W → Host I W
  push_notices id [] h = h
  push_notices id (n ∷ ns) h = push (notice id n) (push_notices id ns h)

  abbrev pub report_notices : Bool → Text → List Notice → Host I W → Host I W
  report_notices reports id ns h = if reports then push_notices id ns h else h

  -- The spawned task of a cleanup, with what its deadlines do.
  unfoldable pub run_task : Deadline W → Bool → Deadline W → Bool → Task → Host I W → Host I W
  run_task steps_deadline time_left repair_deadline reports t h =
      elim (lookup t.device_id h.devices) [
        | none ↦ h
        | some d ↦
            let (notices, d') =
              run_cleanup t.seconds steps_deadline time_left repair_deadline t.steps t.filter
                h.preloads d in
            report_notices reports t.device_id notices (put t.device_id d' h)
      ]
