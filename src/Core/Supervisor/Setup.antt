-- ===== src/Core/Supervisor/Setup.antt =====
-- packages/provider/crates/provider-core/src/supervisor.rs: how a host comes to its devices and to the
-- coordinator, and what it does and tells at the start. A map of devices is gone through in the order
-- of its list.
use yard.Prelude.{Bool, true, false, List, [], ◌∷◌, Text, text_key, Key}
use yard.Core.Session.{Registry}
use yard.Core.Preload.{PreloadStore}
use yard.Core.Supervisor.Device.{Device, DeviceBackend, Snapshot, new_device, snapshot}
use yard.Core.Supervisor.Commands.{Host, put}
use yard.Core.Supervisor.Steps.{poll, Event, step}

-- What `add_with_cleanup_paths` is called with; `world` is the device behind the backend.
pub record Wiring (I W : Type 0) : Type 0 where
  pub id : Text
  pub backend : DeviceBackend I W
  pub cleanup_paths : List Text
  pub world : W

module _ {I W : Type 0} where
  unfoldable pub new : Registry → PreloadStore → Host I W
  new sessions preloads = record {
    devices = [];
    sessions = sessions;
    preloads = preloads;
    connected = false;
    blank_idle_screens = true;
    sent = [];
    cleanups = [];
    polls = [];
  }

  unfoldable pub set_blank_idle_screens : Bool → Host I W → Host I W
  set_blank_idle_screens on h = record h { blank_idle_screens = on }

  unfoldable pub attach_control : Host I W → Host I W
  attach_control h = record h { connected = true }

  unfoldable pub add : Wiring I W → Host I W → Host I W
  add x h = put x.id (new_device x.id x.backend x.cleanup_paths x.world) h

  abbrev pub add_each : List (Wiring I W) → Host I W → Host I W
  add_each [] h = h
  add_each (x ∷ xs) h = add_each xs (add x h)

  abbrev pub kept :
      Text
      → Snapshot I × Device I W
      → List (Snapshot I) × List (Text × Device I W)
      → List (Snapshot I) × List (Text × Device I W)
  kept id (s, d) (ss, ds) = (s ∷ ss, (id, d) ∷ ds)

  abbrev pub snapshot_each : List (Text × Device I W) → List (Snapshot I) × List (Text × Device I W)
  snapshot_each [] = ([], [])
  snapshot_each ((id, d) ∷ ds) = kept id (snapshot d) (snapshot_each ds)

  -- `inventory`.
  unfoldable pub inventory : Host I W → List (Snapshot I) × Host I W
  inventory h = let (ss, ds) = snapshot_each h.devices in (ss, record h { devices = ds })

abbrev pub ids {ℓ} : {A : Type ℓ} → List (Text × A) → List Text
ids [] = []
ids ((id, a) ∷ m) = id ∷ ids m

module _ {I W : Type 0} ⦃k : Key I⦄ where
  abbrev pub poll_each : List Text → Host I W → Host I W
  poll_each [] h = h
  poll_each (id ∷ is_) h = poll_each is_ (poll id h)

  -- `bootstrap`, with nothing between its calls; `run_poll_loop` starts the same polls, whose stages are
  -- events.
  unfoldable pub bootstrap : Host I W → Host I W
  bootstrap h = poll_each (ids h.devices) h

  -- The host behind the events, the newest first.
  unfoldable pub run : List (Event W) → Host I W → Host I W
  run [] h = h
  run (e ∷ es) h = step e (run es h)
