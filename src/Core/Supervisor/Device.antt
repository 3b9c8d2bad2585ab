-- ===== src/Core/Supervisor/Device.antt =====
-- packages/provider/crates/provider-core/src/supervisor.rs: one device, its backend, and what polls
-- and authorizations do to it. The device behind the backend is a state `W` that each call changes;
-- the calls are logged, the newest first. `I` stands for the backend's `DeviceInfo`.
use yard.Prelude.{
  ℕ, ◌-◌, Bool, true, false, not, ◌||◌, ◌==◌, Option, none, some, is_some, List, [], ◌∷◌, ltb,
  if◌then◌else◌, Text, text_eq, Key, Result, ok, err,
}
use yard.Core.Cleanup.{BackendError, unsupported, Reply}
use yard.Core.Cleanup as Cleanup
use yard.Core.Session.{Authorization}

pub data DeviceStatus : Type 0 where
  absent present preparing ready busy cleaning unhealthy : DeviceStatus

-- How a call of the backend ended.
pub data Outcome : Type 0 where
  done unable failed : Outcome

abbrev pub outcome_of {ℓ} : {A : Type ℓ} → Result BackendError A → Outcome
outcome_of (ok a) = done
outcome_of (err (unsupported op)) = unable
outcome_of (err e) = failed

-- The calls that change a device, as the log has them.
pub data DeviceCall : Type 0 where
  audio : Bool → DeviceCall
  reservation : Option Text → DeviceCall
  screen : (awake : Bool) → Outcome → DeviceCall
  stops_debug exposes reboots restarts : DeviceCall
  rotates : ℕ → DeviceCall
  launches : Text → List Text → DeviceCall
  -- With whether a preload protected the app then.
  uninstalls : (app : Text) → (guarded : Bool) → DeviceCall
  -- For `device.preload.remove`, of the app that it names.
  withdraws : (app : Text) → DeviceCall
  installs : (app artifact : Text) → Outcome → DeviceCall
  uploads : (artifact : Text) → Outcome → DeviceCall
  -- With whether the call is an uninstall of an app that a preload protected then.
  cleans : Cleanup.Call → (guarded : Bool) → DeviceCall

pub record DeviceBackend (I W : Type 0) : Type 0 where
  pub cleanup : Cleanup.Backend W
  pub is_healthy : W → W × Bool
  pub info : W → W × Reply I
  pub current_codec : W → Option Text
  pub remote_debug_port : W → W × Option ℕ
  pub remote_debug : W → W × Reply ℕ
  pub remote_debug_stop : W → W × Reply (Unit {0})
  pub set_audio_active : Bool → W → W × Reply (Unit {0})
  pub set_reservation : Option Text → W → W × Reply (Unit {0})
  pub set_screen_awake : Bool → W → W × Reply (Unit {0})
  pub install : Text → W → W × Reply (Unit {0})
  pub launch : Text → List Text → W → W × Reply (Unit {0})
  pub rotate : ℕ → W → W × Reply (Unit {0})
  pub reboot : W → W × Reply (Unit {0})
  pub restart : W → W × Reply (Unit {0})

pub record AppBaseline : Type 0 where
  pub reservation_id : Text
  pub apps : List Text

pub record Device (I W : Type 0) : Type 0 where
  pub id : Text
  pub backend : DeviceBackend I W
  pub cleanup_paths : List Text
  pub status : DeviceStatus
  pub info : Option I
  pub activity : Option ℕ
  pub baseline : Option AppBaseline
  pub installs_ok : ℕ
  pub installs_failed : ℕ
  pub screen_blanked : Bool
  pub world : W
  pub calls : List DeviceCall

pub record Snapshot (I : Type 0) : Type 0 where
  pub id : Text
  pub status : DeviceStatus
  pub info : Option I
  pub stream_codec : Option Text
  pub adb_port : Option ℕ

abbrev pub reservation_of : Option Authorization → Option Text
reservation_of none = none
reservation_of (some auth) = some auth.reservation_id

abbrev pub is_ready : DeviceStatus → Bool
is_ready ready = true
is_ready _ = false

abbrev pub is_baseline_of : Text → Option AppBaseline → Bool
is_baseline_of r none = false
is_baseline_of r (some b) = text_eq b.reservation_id r

module _ {I W : Type 0} where
  abbrev pub perform : {A : Type 0} → (A → DeviceCall) → (W → W × A) → Device I W → A × Device I W
  perform log f d = let (w, a) = f d.world in (a, record d { world = w; calls = log a ∷ d.calls })

  -- A call that only reads.
  abbrev pub observe : {A : Type 0} → (W → W × A) → Device I W → A × Device I W
  observe f d = let (w, a) = f d.world in (a, record d { world = w })

  unfoldable pub new_device : Text → DeviceBackend I W → List Text → W → Device I W
  new_device id backend paths w = record {
    id = id;
    backend = backend;
    cleanup_paths = paths;
    status = preparing;
    info = none;
    activity = none;
    baseline = none;
    installs_ok = 0;
    installs_failed = 0;
    screen_blanked = false;
    world = w;
    calls = [];
  }

  unfoldable pub snapshot : Device I W → Snapshot I × Device I W
  snapshot d =
      let (port, d') = observe d.backend.remote_debug_port d in
      (
        record {
          id = d.id;
          status = d.status;
          info = d.info;
          stream_codec = d.backend.current_codec d.world;
          adb_port = port;
        },
        d',
      )

  abbrev pub set_audio : Bool → Device I W → Reply (Unit {0}) × Device I W
  set_audio on d = perform (λ r. audio on) (d.backend.set_audio_active on) d

  abbrev pub set_holder : Option Text → Device I W → Reply (Unit {0}) × Device I W
  set_holder r d = perform (λ a. reservation r) (d.backend.set_reservation r) d

  abbrev pub set_screen : Bool → Device I W → Reply (Unit {0}) × Device I W
  set_screen on d = perform (λ r. screen on (outcome_of r)) (d.backend.set_screen_awake on) d

  -- Failures are only warned of.
  unfoldable pub reconcile_session : Option Authorization → Device I W → Device I W
  reconcile_session auth d = (set_holder (reservation_of auth) (set_audio (is_some auth) d).1).1

  abbrev pub after_park : Reply (Unit {0}) × Device I W → Device I W
  after_park (ok u, d) = record d { screen_blanked = true }
  after_park (err (unsupported op), d) = record d { screen_blanked = true }
  after_park (err e, d) = d

  abbrev pub parked : Reply (Unit {0}) × Device I W → Option (Reply (Unit {0})) × Device I W
  parked (reply, d) = (some reply, d)

  -- `reconcile_screen` up to the call that parks the screen, and that call's answer; `on` is whether
  -- idle screens are parked at all, `status` what the poll found.
  unfoldable pub park :
      Bool
      → Option Authorization
      → DeviceStatus
      → Device I W
      → Option (Reply (Unit {0})) × Device I W
  park on auth status d =
      if not on
      then (none, d)
      else if not (is_ready status)
      then (none, record d { screen_blanked = false })
      else if is_some auth
      then (none, d)
      else if d.screen_blanked
      then (none, d)
      else parked (set_screen false d)

  abbrev pub after_parks : Option (Reply (Unit {0})) × Device I W → Device I W
  after_parks (none, d) = d
  after_parks (some reply, d) = after_park (reply, d)

  unfoldable pub reconcile_screen :
      Bool → Option Authorization → DeviceStatus → Device I W → Device I W
  reconcile_screen on auth status d = after_parks (park on auth status d)

  abbrev pub after_wake : Reply (Unit {0}) × Device I W → Device I W
  after_wake (ok u, d) = record d { screen_blanked = false }
  after_wake (err (unsupported op), d) = record d { screen_blanked = false }
  after_wake (err e, d) = record d { screen_blanked = true }

  unfoldable pub wake_screen : Device I W → Device I W
  wake_screen d = if d.screen_blanked then after_wake (set_screen true d) else d

  abbrev pub take_baseline : Text → Reply (List Text) × Device I W → Device I W
  take_baseline r (ok apps, d) = record d {
    baseline = some (record { reservation_id = r; apps = apps });
  }
  take_baseline r (err e, d) = record d { baseline = none }

  unfoldable pub snapshot_baseline : Text → Device I W → Device I W
  snapshot_baseline r d =
      if is_baseline_of r d.baseline then d else take_baseline r (observe d.backend.cleanup.apps d)

  abbrev pub claim_since : ℕ → Option ℕ → Device I W → Bool × Device I W
  claim_since now none d = (true, record d { activity = some now })
  claim_since now (some previous) d =
      if ltb (now - previous) 30 then (false, d) else (true, record d { activity = some now })

  -- `ActivityThrottle::claim`, on a clock in seconds.
  unfoldable pub claim : ℕ → Device I W → Bool × Device I W
  claim now d = claim_since now d.activity d

-- The status that a poll gives to a device.
unfoldable pub next_status : Bool → DeviceStatus → DeviceStatus
next_status false s = unhealthy
next_status true unhealthy = ready
next_status true preparing = ready
next_status true absent = ready
next_status true cleaning = cleaning
next_status true present = present
next_status true ready = ready
next_status true busy = busy

abbrev pub status_code : DeviceStatus → ℕ
status_code absent = 0
status_code present = 1
status_code preparing = 2
status_code ready = 3
status_code busy = 4
status_code cleaning = 5
status_code unhealthy = 6

abbrev pub same_status : DeviceStatus → DeviceStatus → Bool
same_status a b = status_code a == status_code b

module _ {I : Type 0} ⦃k : Key I⦄ where
  abbrev pub same_info : Option I → I → Bool
  same_info none i = false
  same_info (some j) i = k.eq j i

module _ {I W : Type 0} ⦃k : Key I⦄ where
  -- Whether the information changed, and the device that has it.
  abbrev pub hold_info : Reply I × Device I W → Bool × Device I W
  hold_info (ok i, d) = (not (same_info d.info i), record d { info = some i })
  hold_info (err e, d) = (false, d)

  -- The status that `refresh` read and the one that it goes by.
  abbrev pub look : Device I W → DeviceStatus × DeviceStatus × Device I W
  look d =
      let (healthy, d') = observe d.backend.is_healthy d in
      (d.status, next_status healthy d.status, d')

  -- What is pushed if anything moved, and the device.
  unfoldable pub inform :
      (previous next : DeviceStatus) → Device I W → Option (Snapshot I) × Device I W
  inform previous next d =
      let (changed, d2) = hold_info (observe d.backend.info d) in
      let moves : Bool = not (same_status next previous) in
      let d3 : Device I W = if moves then record d2 { status = next } else d2 in
      let (shot, d4) = snapshot d3 in if changed || moves then (some shot, d4) else (none, d3)

  -- `refresh` where nothing comes between its calls.
  unfoldable pub refresh :
      Bool → Option Authorization → Device I W → Option (Snapshot I) × Device I W
  refresh on auth d =
      let (previous, next, d1) = look d in
      let (shot, d2) = inform previous next d1 in
      (shot, reconcile_screen on auth next (reconcile_session auth d2))
