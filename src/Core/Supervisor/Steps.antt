-- ===== src/Core/Supervisor/Steps.antt =====
-- packages/provider/crates/provider-core/src/supervisor.rs: the polls, `handle` and a host's steps.
-- The device's operation lock makes an authorization, an uninstall, the removal of a preload, a
-- withdrawal, an upload's install and a cleanup one step each for it. A poll holds it for one of its
-- stages only, so each stage is a step. The other commands call the backend once, without the lock;
-- their step is when the call ends.
use yard.Prelude.{
  ℕ, Bool, Option, none, some, List, [], ◌∷◌, ◌++◌, zero, suc, if◌then◌else◌, Text, text_key, Key,
  ok, err,
}
use yard.Prelude.Dict.{lookup}
use yard.Core.Session.{set_adb_keys, revoke, current}
use yard.Core.Cleanup.{Reply}
use yard.Core.Preload.{ProtectedPreload, PreloadError}
use yard.Core.Supervisor.Device.{
  preparing, Device, Snapshot, reboots, restarts, rotates, launches, exposes, perform, observe,
  refresh, look, inform, park, after_park, DeviceStatus, reconcile_session,
}
use yard.Core.Supervisor.Cleaning.{Deadline}
use yard.Core.Supervisor.Commands.{
  device_upsert, backend, not_connected, nothing, Task, Command, session_authorize, device_adb_keys,
  session_revoke, device_cleanup, device_reboot, device_rotate, device_apps, device_launch,
  device_uninstall, device_preload_remove, device_adb_expose, device_adb_unexpose, device_restart,
  Host, or_revoked, or_no_args, Answer, put, push, with_device, answer, handle_authorize,
  handle_cleanup, rebooted, apps_listed, handle_uninstall, handle_preload_remove, exposed,
  stop_debug, withdraw_adb, withdraw_each, on_disconnected, note_activity, run_task, Stage, looked,
  informed, reconciled, parked, Poll, InstallResult,
}
use yard.Core.Supervisor.Uploads.{Deployment, upload}

module _ {I W : Type 0} ⦃k : Key I⦄ where
  abbrev pub polled : Text → Option (Snapshot I) × Device I W → Host I W → Host I W
  polled id (none, d) h = put id d h
  polled id (some s, d) h = push (device_upsert s) (put id d h)

  -- `refresh` of one device of the host where nothing comes between its stages.
  unfoldable pub poll : Text → Host I W → Host I W
  poll id h = elim (lookup id h.devices) [
    | none ↦ h
    | some d ↦ polled id (refresh h.blank_idle_screens (current id h.sessions) d) h
  ]

  abbrev pub waits_for : Text → Stage → Host I W → Host I W
  waits_for id stage h = record h { polls = h.polls ++ record { id = id; stage = stage } ∷ [] }

  abbrev pub begun : Text → DeviceStatus × DeviceStatus × Device I W → Host I W → Host I W
  begun id (previous, next, d) h = waits_for id (looked previous next) (put id d h)

  -- `refresh` up to its reading of the device's information.
  unfoldable pub begin : Text → Host I W → Host I W
  begin id h = elim (lookup id h.devices) [ none ↦ h | some d ↦ begun id (look d) h ]

  abbrev pub parking : Text → Option (Reply (Unit {0})) × Device I W → Host I W → Host I W
  parking id (none, d) h = put id d h
  parking id (some reply, d) h = waits_for id (parked reply) (put id d h)

  -- The next stage of a poll.
  unfoldable pub advance : Text → Stage → Host I W → Device I W → Host I W
  advance id (looked previous next) h d =
      waits_for id (informed next) (polled id (inform previous next d) h)
  advance id (informed next) h d =
      waits_for id (reconciled next) (put id (reconcile_session (current id h.sessions) d) h)
  advance id (reconciled next) h d =
      parking id (park h.blank_idle_screens (current id h.sessions) next d) h
  advance id (parked reply) h d = put id (after_park (reply, d)) h

  -- The answer does not wait for the poll here.
  abbrev pub restarted : Text → Host I W → Reply (Unit {0}) × Device I W → Answer I W
  restarted id h (ok u, d) = (ok nothing, begin id (put id d h))
  restarted id h (err e, d) = (err (backend e), put id d h)

  -- `handle`.
  unfoldable pub handle : Command → Host I W → Answer I W
  handle (session_authorize id r user keys) h =
      with_device id
        (handle_authorize id (record { reservation_id = r; user_id = user; adb_keys = keys }) h) h
  handle (device_adb_keys id keys) h =
      (ok nothing, record h { sessions = set_adb_keys id keys h.sessions })
  handle (session_revoke id reason) h =
      (ok nothing, record h { sessions = revoke id (or_revoked reason) h.sessions })
  handle (device_cleanup t) h = with_device t.device_id (handle_cleanup t h) h
  handle (device_reboot id) h =
      with_device id (λ d. rebooted id h (perform (λ r. reboots) d.backend.reboot d)) h
  handle (device_rotate id degrees) h =
      with_device id
        (λ d. answer id h (perform (λ r. rotates degrees) (d.backend.rotate degrees) d)) h
  handle (device_apps id) h =
      with_device id (λ d. apps_listed id h (observe d.backend.cleanup.apps d)) h
  handle (device_launch id app args) h =
      with_device id
        (λ d. answer id h (
          perform (λ r. launches app (or_no_args args)) (d.backend.launch app (or_no_args args)) d))
        h
  handle (device_uninstall id app) h = with_device id (handle_uninstall id app h) h
  handle (device_preload_remove id app a) h = with_device id (handle_preload_remove id app a h) h
  handle (device_adb_expose id) h =
      if h.connected
      then with_device id (λ d. exposed id h (perform (λ r. exposes) d.backend.remote_debug d)) h
      else (err not_connected, h)
  handle (device_adb_unexpose id) h = with_device id (λ d. answer id h (stop_debug d)) h
  handle (device_restart id) h =
      with_device id
        (λ d.
          restarted id h
            (perform (λ r. restarts) d.backend.restart (record d { status = preparing })))
        h

-- What happens to a host. `advances` is of a poll under way, by its place; an upload's notice is by
-- the error and the entry, and `staged` is its file.
pub data Event (W : Type 0) : Type 0 where
  handles : Command → Event W
  polls : (id : Text) → Event W
  advances : ℕ → Event W
  uploads :
      (PreloadError → Text)
      → (Option Text → Option ProtectedPreload → InstallResult)
      → (id staged : Text) → Deployment
      → Event W
  revoked : (id : Text) → Event W
  lagged : List Text → Event W
  disconnects : Event W
  active : (now : ℕ) (id : Text) → Event W
  cleans : Deadline W → Bool → Deadline W → Event W

-- The poll at a place, and the others.
abbrev pub pick : ℕ → List Poll → Option (Poll × List Poll)
pick n [] = none
pick zero (p ∷ ps) = some (p, ps)
pick (suc n) (p ∷ ps) = elim (pick n ps) [ none ↦ none | some (q, qs) ↦ some (q, p ∷ qs) ]

abbrev pub run_first :
    {I W : Type 0} → Deadline W → Bool → Deadline W → List (Bool × Task) → Host I W → Host I W
run_first a b c [] h = h
run_first a b c ((reports, t) ∷ ts) h = run_task a b c reports t (record h { cleanups = ts })

-- What is done with a device that the host has.
abbrev pub change : {I W : Type 0} → Text → (Host I W → Device I W → Host I W) → Host I W → Host I W
change id f h = elim (lookup id h.devices) [ none ↦ h | some d ↦ f h d ]

abbrev pub advance_picked :
    {I W : Type 0} ⦃k : Key I⦄ → Option (Poll × List Poll) → Host I W → Host I W
advance_picked none h = h
advance_picked (some (p, ps)) h = change p.id (advance p.id p.stage) (record h { polls = ps })

unfoldable pub step : {I W : Type 0} ⦃k : Key I⦄ → Event W → Host I W → Host I W
step (handles c) h = (handle c h).1
step (polls id) h = begin id h
step (advances n) h = advance_picked (pick n h.polls) h
step (uploads why result id staged deployment) h =
    change id (upload why result id staged deployment) h
step (revoked id) h = withdraw_adb id h
step (lagged ids) h = withdraw_each ids h
step disconnects h = on_disconnected h
step (active now id) h = note_activity now id h
step (cleans a b c) h = run_first a b c h.cleanups h
