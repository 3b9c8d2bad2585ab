-- ===== src/Tests/Core/Hosts.antt =====
-- A host with one phone, whose state is the list of its installed apps. The preload store wants an
-- app on it, whose artifact is there or not.
use yard.Prelude.{
  ℕ, Bool, refl, true, false, not, none, List, [], ◌∷◌, Text, codes, ok, err, text_eq, text_key,
  nat_key, keep, contains, some, Option, any, ◌≡◌,
}
use yard.Prelude.Dict.{lookup, insert}
use yard.Core.Session as Session
use yard.Core.Session.{current, authorize, revoke_all}
use yard.Core.Cleanup.Filter.{AppFilter}
use yard.Core.Cleanup.{
  CleanupSteps, unsupported, run_with_protected, uninstall_phase, clear_phase, reset_phase,
  wipe_phase, reset,
}
use yard.Core.Preload.{
  PreloadStore, ProtectedPreload, missing, is_protected, protect, remove_, commit_artifact,
  write_manifest, for_device, artifact_path, is_single_component,
}
use yard.Core.Preload as Preload
use yard.Core.Supervisor.Device as Device
use yard.Core.Cleanup as Cleanup
use yard.Core.Supervisor.Device.{
  uninstalls, withdraws, ready, unhealthy, cleaning, Device, DeviceCall, reservation, audio, screen,
  done, wake_screen, snapshot_baseline, DeviceBackend, new_device, next_status, refresh, snapshot,
  reconcile_session, reconcile_screen, park, inform,
}
use yard.Core.Supervisor.Cleaning.{
  met, run_cleanup, clean_steps, restore, restore_each, repair_entries, repair_preloads,
  repair_in_time, land,
}
use yard.Core.Supervisor.Commands.{
  Host, handle_cleanup, handle_uninstall, handle_preload_remove, can_preload, on_disconnected,
  run_task, push_install_result, handle_authorize, session_authorize, device_uninstall,
  device_cleanup, Task, device_preload_remove, InstallResult,
}
use yard.Core.Supervisor.Steps.{
  Event, step, handle, begin, advance, handles, polls, advances, uploads, cleans, disconnects,
}
use yard.Core.Supervisor.Uploads.{retaining, upload, install_staged}
use yard.Core.Supervisor.Setup.{
  Wiring, new, add, add_each, set_blank_idle_screens, attach_control, run,
}
use yard.Core.Supervisor.Landing.{Lands, apps_of, run_cleanup-Lands}
use yard.Core.Supervisor.Safe.{AllSound}
use yard.Core.Supervisor.Safety.{asks_removal, run-AllSound}

abbrev kiosk : Text
kiosk = codes "k"

abbrev game : Text
game = codes "g"

abbrev pub phone : DeviceBackend ℕ (List Text)
phone = record {
  cleanup = record {
    apps = λ w. (w, ok w);
    uninstall = λ app w. (keep (λ x. not (text_eq x app)) w, ok tt);
    clear_app_data = λ app w. (w, err (unsupported (codes "clear")));
    reset_screen = λ w. (w, ok tt);
    wipe_paths = λ ps w. (w, ok tt);
  };
  is_healthy = λ w. (w, true);
  info = λ w. (w, ok 7);
  current_codec = λ w. none;
  remote_debug_port = λ w. (w, none);
  remote_debug = λ w. (w, ok 5555);
  remote_debug_stop = λ w. (w, ok tt);
  set_audio_active = λ on w. (w, ok tt);
  set_reservation = λ r w. (w, ok tt);
  set_screen_awake = λ on w. (w, ok tt);
  install = λ artifact w. (kiosk ∷ w, ok tt);
  launch = λ app args w. (w, ok tt);
  rotate = λ degrees w. (w, ok tt);
  reboot = λ w. (w, ok tt);
  restart = λ w. (w, ok tt);
}

abbrev wanted : ProtectedPreload
wanted = record {
  device_id = codes "d";
  app_id = kiosk;
  platform = codes "android";
  user_id = codes "u";
  filename = codes "k.apk";
  size = 1;
  sha256 = codes "aa";
  artifact = codes "a";
}

abbrev pub complete_store : PreloadStore
complete_store = record {
  durable = true;
  disk = record { files = (codes "a", 1 ∷ []) ∷ []; manifest = missing };
  entries = wanted ∷ [];
}

-- The artifact is gone.
abbrev broken_store : PreloadStore
broken_store = record {
  durable = true;
  disk = record { files = []; manifest = missing };
  entries = wanted ∷ [];
}

abbrev all_steps : CleanupSteps
all_steps = record {
  uninstall_apps = true;
  clear_app_data = false;
  reset_screen = true;
  wipe_folders = true;
}

abbrev no_filter : AppFilter
no_filter = record { allow = []; deny = [] }

abbrev device : Device ℕ (List Text)
device = new_device (codes "d") phone [] (game ∷ [])

abbrev repaired : Device ℕ (List Text)
repaired = (run_cleanup (codes "9") met true met all_steps no_filter complete_store device).1

abbrev unrepaired : Device ℕ (List Text)
unrepaired = (run_cleanup (codes "9") met true met all_steps no_filter broken_store device).1

repaired_status : repaired.status ≡ ready
unfolding run_cleanup clean_steps repair_in_time repair_preloads repair_entries restore_each restore
    land new_device for_device artifact_path is_single_component lookup text_eq contains
    run_with_protected wipe_phase reset_phase reset clear_phase uninstall_phase
repaired_status = refl

unrepaired_status : unrepaired.status ≡ unhealthy
unfolding run_cleanup clean_steps repair_in_time repair_preloads repair_entries restore_each restore
    land new_device for_device artifact_path is_single_component lookup text_eq contains
    run_with_protected wipe_phase reset_phase reset clear_phase uninstall_phase
unrepaired_status = refl

-- A device that the repair failed on is back in the pool at the next poll, its app missing.
incomplete_back : (refresh true none unrepaired).1.status ≡ ready
unfolding run_cleanup clean_steps repair_in_time repair_preloads repair_entries restore_each restore
    land new_device for_device artifact_path is_single_component lookup text_eq contains
    run_with_protected wipe_phase reset_phase reset clear_phase uninstall_phase refresh next_status
    snapshot reconcile_session reconcile_screen park inform
incomplete_back = refl

-- While a cleanup is pending, a poll that finds the device unhealthy and one that finds it healthy
-- put it back in the pool.
polled_out_of_cleaning : next_status true (next_status false cleaning) ≡ ready
unfolding next_status
polled_out_of_cleaning = refl

run_cleanup-Lands_example :
    Lands
      (apps_of (clean_steps (codes "9") met all_steps no_filter complete_store device).1)
      (for_device complete_store device.id)
      repaired
run_cleanup-Lands_example =
    run_cleanup-Lands complete_store (codes "9") met true met all_steps no_filter device

abbrev wiring : Wiring ℕ (List Text)
wiring = record { id = codes "d"; backend = phone; cleanup_paths = []; world = kiosk ∷ [] }

abbrev task : Task
task = record { device_id = codes "d"; steps = all_steps; filter = no_filter; seconds = codes "9" }

-- What a deployment tells.
abbrev told : Option Text → Option ProtectedPreload → InstallResult
told error entry = record {
  user_id = codes "u";
  filename = codes "g.apk";
  size = 1;
  sha256 = codes "aa";
  error = error;
  is_preload = true;
  app_id = none;
  platform = none;
}

abbrev disk_works : Preload.Answers
disk_works = record {
  copied = true;
  partial_copy = [];
  renamed = true;
  temporary_removed = true;
  manifest_replaced = true;
  artifact_removed = true;
}

abbrev game_entry : ProtectedPreload
game_entry = record wanted { app_id = game; filename = codes "g.apk"; artifact = [] }

-- A poll begins; a user comes while it is under way, asks for the kiosk's removal and goes; the poll
-- parks the screen behind that; the device is cleaned, a game is deployed to it, the kiosk is removed
-- as a preload and a user tries to uninstall the game.
abbrev events : List (Event (List Text))
events =
    handles (device_uninstall (codes "d") game)
    ∷ handles (device_preload_remove (codes "d") kiosk disk_works)
    ∷ uploads (λ e. codes "e") told (codes "d") (codes "f")
        (retaining (ok game_entry) (2 ∷ []) (codes "t") disk_works)
    ∷ polls (codes "d")
    ∷ cleans met true met
    ∷ handles (device_cleanup task)
    ∷ advances 0
    ∷ advances 0
    ∷ disconnects
    ∷ handles (device_uninstall (codes "d") kiosk)
    ∷ advances 0
    ∷ handles (session_authorize (codes "d") (codes "r") (codes "u") [])
    ∷ advances 0
    ∷ polls (codes "d")
    ∷ []

abbrev set_up : Host ℕ (List Text)
set_up =
    attach_control
      (set_blank_idle_screens true (add_each (wiring ∷ []) (new Session.new complete_store)))

run-AllSound_example :
    AllSound (λ id app. any (asks_removal id app) events ≡ true) (run events set_up)
run-AllSound_example = run-AllSound Session.new complete_store (wiring ∷ []) true events

abbrev calls_of : Option (Device ℕ (List Text)) → List DeviceCall
calls_of none = []
calls_of (some d) = d.calls

abbrev log_behind : List (Event (List Text)) → List DeviceCall
log_behind es = calls_of (lookup (codes "d") (run es set_up).devices)

-- A user comes while a poll's press on the screen is under way: nothing presses it on again.
dark_screen :
    log_behind (
      advances 0
      ∷ handles (session_authorize (codes "d") (codes "r") (codes "u") [])
      ∷ advances 0
      ∷ advances 0
      ∷ advances 0
      ∷ polls (codes "d")
      ∷ [])
    ≡ reservation (some (codes "r"))
      ∷ audio true
      ∷ audio false
      ∷ screen false done
      ∷ reservation none
      ∷ audio false
      ∷ []
unfolding run step handle begin advance attach_control set_blank_idle_screens add new lookup
    new_device next_status inform snapshot reconcile_session park handle_authorize wake_screen
    snapshot_baseline text_eq current authorize Session.new insert
dark_screen = refl

-- The calls that take an app off the device or bring one.
abbrev moves_app : DeviceCall → Bool
moves_app (uninstalls app guarded) = true
moves_app (withdraws app) = true
moves_app (Device.uploads artifact outcome) = true
moves_app (Device.cleans (Cleanup.uninstalls app) guarded) = true
moves_app c = false

-- The deployment goes through, the kiosk goes as a preload and at no other time, the game stays.
events_moves :
    keep moves_app (log_behind events) ≡ withdraws kiosk ∷ Device.uploads (codes "f") done ∷ []
unfolding run step handle begin advance attach_control set_blank_idle_screens add new lookup
    new_device next_status inform snapshot reconcile_session park handle_authorize wake_screen
    snapshot_baseline text_eq current authorize Session.new insert handle_cleanup handle_uninstall
    handle_preload_remove can_preload on_disconnected revoke_all run_task run_cleanup clean_steps
    repair_in_time repair_preloads repair_entries restore_each restore land for_device artifact_path
    is_single_component contains run_with_protected wipe_phase reset_phase reset clear_phase
    uninstall_phase upload install_staged push_install_result is_protected protect remove_
    commit_artifact write_manifest Session.revoke_each Session.revoke yard.Prelude.Dict.remove
    Cleanup.uninstall_new Cleanup.uninstall_each Cleanup.uninstall_turn Preload.replace
    Preload.withdraw Preload.release Preload.artifact_name
events_moves = refl
