-- ===== src/Core/Supervisor/Safety.antt =====
-- What holds of every device of a host, whatever the coordinator and the devices do.
use yard.Prelude.{
  ◌≡◌, refl, Bool, true, false, ◌&&◌, Option, none, some, List, [], ◌∷◌, Text, text_key, text_eq,
  any, ok, err, arith, Key, eq_refl,
}
use yard.Prelude.Dict.{lookup}
use yard.Core.Session.{Registry, current}
use yard.Core.Cleanup.{Reply}
use yard.Core.Preload.{PreloadStore}
use yard.Core.Supervisor.Device.{Device, Snapshot, new_device, look, inform, park}
use yard.Core.Supervisor.Commands.{
  Command, session_authorize, device_adb_keys, session_revoke, device_cleanup, device_reboot,
  device_rotate, device_apps, device_launch, device_uninstall, device_preload_remove,
  device_adb_expose, device_adb_unexpose, device_restart, Host, put, handle_cleanup,
  on_disconnected, or_no_args, Stage, looked, informed, reconciled, parked, Poll,
}
use yard.Core.Supervisor.Uploads.{upload}
use yard.Core.Supervisor.Steps.{
  polled, begun, begin, parking, advance, advance_picked, pick, restarted, handle, Event, handles,
  polls, advances, uploads, revoked, lagged, disconnects, active, cleans, step,
}
use yard.Core.Supervisor.Setup.{
  Wiring, new, add, add_each, attach_control, set_blank_idle_screens, run,
}
use yard.Core.Supervisor.Sound.{
  Sound, inform-Sound, reconcile_session-Sound, park-Sound, after_park-Sound,
}
use yard.Core.Supervisor.Deployed.{handle_preload_remove-AllSound, change-AllSound, upload-AllSound}
use yard.Core.Supervisor.Safe.{
  AllSound, put-AllSound, push-AllSound, with_device-AllSound, answer-AllSound, if-AllSound,
  handle_authorize-AllSound, handle_uninstall-AllSound, rebooted-AllSound, apps_listed-AllSound,
  exposed-AllSound, withdraw_adb-AllSound, withdraw_each-AllSound, note_activity-AllSound,
  run_first-AllSound,
}

-- The command is the removal of that app as a preload.
abbrev pub removes : Text → Text → Command → Bool
removes id app (device_preload_remove i a x) = text_eq i id && text_eq a app
removes id app c = false

-- Whether the coordinator had that app removed as a preload.
abbrev pub asks_removal : {W : Type 0} → Text → Text → Event W → Bool
asks_removal id app (handles c) = removes id app c
asks_removal id app e = false

module _ (P : Text → Text → Type 0) {I W : Type 0} ⦃key : Key I⦄ where
  polled-AllSound :
      (id : Text) (o : Option (Snapshot I)) (d : Device I W) (h : Host I W)
      → Sound P id d
      → AllSound P h
      → AllSound P (polled id (o, d) h)
  polled-AllSound id none d h p k = put-AllSound P id d h p k
  polled-AllSound id (some s) d h p k = push-AllSound P _ _ (put-AllSound P id d h p k)

  begin-AllSound : (id : Text) (h : Host I W) → AllSound P h → AllSound P (begin id h)
  unfolding begin
  begin-AllSound id h k =
      change-AllSound P id (λ h d. begun id (look d) h) h k
        (λ d p. put-AllSound P id (look d).2 h p k)

  parking-AllSound :
      (id : Text) (o : Option (Reply (Unit {0}))) (d : Device I W) (h : Host I W)
      → Sound P id d
      → AllSound P h
      → AllSound P (parking id (o, d) h)
  parking-AllSound id none d h p k = put-AllSound P id d h p k
  parking-AllSound id (some r) d h p k = put-AllSound P id d h p k

  advance-AllSound :
      (id : Text) (stage : Stage) (h : Host I W) (d : Device I W)
      → Sound P id d
      → AllSound P h
      → AllSound P (advance id stage h d)
  unfolding advance
  advance-AllSound id (looked previous next) h d p k =
      let r = inform previous next d in
      polled-AllSound id r.0 r.1 h (inform-Sound P id previous next d p) k
  advance-AllSound id (informed next) h d p k =
      put-AllSound P id _ h (reconcile_session-Sound P id (current id h.sessions) d p) k
  advance-AllSound id (reconciled next) h d p k =
      let auth = current id h.sessions in
      let r = park h.blank_idle_screens auth next d in
      parking-AllSound id r.0 r.1 h (park-Sound P id h.blank_idle_screens auth next d p) k
  advance-AllSound id (parked reply) h d p k =
      put-AllSound P id _ h (after_park-Sound P id reply d p) k

  advance_picked-AllSound :
      (o : Option (Poll × List Poll)) (h : Host I W)
      → AllSound P h
      → AllSound P (advance_picked o h)
  advance_picked-AllSound none h k = k
  advance_picked-AllSound (some (p, ps)) h k =
      change-AllSound P p.id (advance p.id p.stage) (record h { polls = ps }) k
        (λ d q. advance-AllSound p.id p.stage (record h { polls = ps }) d q k)

  restarted-AllSound :
      (id : Text) (h : Host I W) (a : Reply (Unit {0})) (d : Device I W)
      → Sound P id d
      → AllSound P h
      → AllSound P (restarted id h (a, d)).1
  restarted-AllSound id h (ok u) d p k = begin-AllSound id (put id d h) (put-AllSound P id d h p k)
  restarted-AllSound id h (err e) d p k = put-AllSound P id d h p k

  handle-AllSound :
      (c : Command) (h : Host I W)
      → ((id app : Text) → removes id app c ≡ true → P id app)
      → AllSound P h
      → AllSound P (handle c h).1
  unfolding handle handle_cleanup
  handle-AllSound (session_authorize id r user keys) h n k =
      with_device-AllSound P id _ h k (λ d p. handle_authorize-AllSound P id _ h d p k)
  handle-AllSound (device_adb_keys id keys) h n k = k
  handle-AllSound (session_revoke id reason) h n k = k
  handle-AllSound (device_cleanup t) h n k =
      with_device-AllSound P t.device_id _ h k
        (λ d p. push-AllSound P _ _ (put-AllSound P t.device_id _ h p k))
  handle-AllSound (device_reboot id) h n k =
      with_device-AllSound P id _ h k
        (λ d p. rebooted-AllSound P id h (d.backend.reboot d.world).1 _ (p.0, (tt, p.1)) k)
  handle-AllSound (device_rotate id degrees) h n k =
      with_device-AllSound P id _ h k
        (λ d p. answer-AllSound P id h (d.backend.rotate degrees d.world).1 _ (p.0, (tt, p.1)) k)
  handle-AllSound (device_apps id) h n k =
      with_device-AllSound P id _ h k
        (λ d p. apps_listed-AllSound P id h (d.backend.cleanup.apps d.world).1 _ p k)
  handle-AllSound (device_launch id app args) h n k = with_device-AllSound P id _ h k (λ d p.
      answer-AllSound P id h (d.backend.launch app (or_no_args args) d.world).1 _ (p.0, (tt, p.1))
        k)
  handle-AllSound (device_uninstall id app) h n k =
      with_device-AllSound P id _ h k (λ d p. handle_uninstall-AllSound P id app h d p k)
  handle-AllSound (device_preload_remove id app a) h n k = with_device-AllSound P id _ h k (λ d p.
      let own_id : text_eq id id ≡ true = eq_refl id in
      let own_app : text_eq app app ≡ true = eq_refl app in
      handle_preload_remove-AllSound P id app a h d (n id app (ground arith)) p k)
  handle-AllSound (device_adb_expose id) h n k =
      if-AllSound P h.connected _ _
        (with_device-AllSound P id _ h k
          (λ d p. exposed-AllSound P id h (d.backend.remote_debug d.world).1 _ (p.0, (tt, p.1)) k))
        k
  handle-AllSound (device_adb_unexpose id) h n k =
      with_device-AllSound P id _ h k
        (λ d p. answer-AllSound P id h (d.backend.remote_debug_stop d.world).1 _ (p.0, (tt, p.1)) k)
  handle-AllSound (device_restart id) h n k =
      with_device-AllSound P id _ h k
        (λ d p. restarted-AllSound id h (d.backend.restart d.world).1 _ (p.0, (tt, p.1)) k)

  step-AllSound :
      (e : Event W) (h : Host I W)
      → ((id app : Text) → asks_removal id app e ≡ true → P id app)
      → AllSound P h
      → AllSound P (step e h)
  unfolding step on_disconnected
  step-AllSound (handles c) h n k = handle-AllSound c h n k
  step-AllSound (polls id) h n k = begin-AllSound id h k
  step-AllSound (advances i) h n k = advance_picked-AllSound (pick i h.polls) h k
  step-AllSound (uploads why result id staged deployment) h n k =
      change-AllSound P id (upload why result id staged deployment) h k
        (λ d p. upload-AllSound P why result id staged deployment h d p k)
  step-AllSound (revoked id) h n k = withdraw_adb-AllSound P id h k
  step-AllSound (lagged ids) h n k = withdraw_each-AllSound P ids h k
  step-AllSound disconnects h n k = k
  step-AllSound (active now id) h n k = note_activity-AllSound P now id h k
  step-AllSound (cleans a left b) h n k = run_first-AllSound P a left b h.cleanups h k

  add-AllSound : (x : Wiring I W) (h : Host I W) → AllSound P h → AllSound P (add x h)
  unfolding add new_device
  add-AllSound x h k =
      put-AllSound P x.id (new_device x.id x.backend x.cleanup_paths x.world) h (refl, tt) k

  add_each-AllSound :
      (xs : List (Wiring I W)) (h : Host I W) → AllSound P h → AllSound P (add_each xs h)
  add_each-AllSound [] h k = k
  add_each-AllSound (x ∷ xs) h k = add_each-AllSound xs (add x h) (add-AllSound x h k)

  run-AllSound-within :
      (h : Host I W) (es : List (Event W))
      → ((id app : Text) → any (asks_removal id app) es ≡ true → P id app)
      → AllSound P h
      → AllSound P (run es h)
  unfolding run
  run-AllSound-within h [] n k = k
  run-AllSound-within h (e ∷ es) n k =
      step-AllSound e (run es h) (λ id app q. n id app (ground arith))
        (run-AllSound-within h es (λ id app q. n id app (ground arith)) k)

module _ {I W : Type 0} ⦃key : Key I⦄ where
  -- From the devices a host is set up with, whatever the coordinator, the devices, the uploads and the
  -- clock do, with the stages of the polls in any order among the other steps and however far timeouts
  -- let a cleanup come: each device stands under its own name, and no call of its log uninstalled an
  -- app that a preload protected on it at that time, but for the apps whose removal as a preload of
  -- that device the coordinator asked for.
  pub run-AllSound :
      (r : Registry) (s : PreloadStore) (xs : List (Wiring I W)) (on : Bool) (es : List (Event W))
      → AllSound
          (λ id app. any (asks_removal id app) es ≡ true)
          (run es (attach_control (set_blank_idle_screens on (add_each xs (new r s)))))
  unfolding attach_control set_blank_idle_screens new lookup
  run-AllSound r s xs on es =
      run-AllSound-within (λ id app. any (asks_removal id app) es ≡ true) _ es (λ id app q. q)
        (add_each-AllSound (λ id app. any (asks_removal id app) es ≡ true) xs (new r s) (λ id. tt))
