-- ===== src/Core/Control.antt =====
-- packages/provider/crates/provider-core/src/control.rs: the client of the control plane, a machine
-- whose events are what the coordinator, the socket, the clock and the rest of the process do; and
-- origins.rs, the origins that it adopts. `S` is the state of the command handler, `C` a command, `D`
-- its data, `V` an inventory and `P` a message to the coordinator. A heartbeat's interval that is not
-- positive is 0. Texts of errors are left out.
pub mod Registered
use yard.Prelude.{
  ℕ, ◌*◌, min, max, Bool, true, false, Option, none, some, List, [], ◌∷◌, ◌++◌, ◌==◌, if◌then◌else◌,
  Text, text_key, contains, Result, ok, err,
}
use yard.Core.AdbAuth.{AdbAuthDecision}

abbrev pub protocol_version : ℕ
protocol_version = 1

-- In seconds.
abbrev pub reconnect_min : ℕ
reconnect_min = 1

abbrev pub reconnect_max : ℕ
reconnect_max = 30

pub record CommandHandler (S C D V : Type 0) : Type 0 where
  pub handle : C → S → Result Text D × S
  pub inventory : S → V × S
  pub on_disconnected : S → S
  pub on_adb_auth_decision : AdbAuthDecision → S → S

pub data CoordinatorMessage (C : Type 0) : Type 0 where
  hello_ack : (version interval : ℕ) (jwks_url issuer : Text) → List Text → CoordinatorMessage C
  hello_reject : (reason : Text) → CoordinatorMessage C
  command : (id : Text) → C → CoordinatorMessage C
  adb_auth_decision : AdbAuthDecision → CoordinatorMessage C
  ping : CoordinatorMessage C

-- What goes out on a socket.
pub data Frame (D V P : Type 0) : Type 0 where
  hello : V → Frame D V P
  event : P → Frame D V P
  heartbeat : (at : ℕ) → Frame D V P
  command_result : (id : Text) → Result Text D → Frame D V P
  pong : Frame D V P

-- Between two connections, in one with the heartbeat that was agreed on, or waiting to dial again.
pub data Phase : Type 0 where
  dialling : Phase
  connected : Option ℕ → Phase
  sleeping : (delay : ℕ) → Phase

-- `wire` is what the last connection sent, the newest first.
pub record ControlClient (S D V P : Type 0) : Type 0 where
  pub handler : S
  pub registered : Bool
  pub web_origins : List Text
  pub issuer : Text
  pub backoff : ℕ
  pub phase : Phase
  pub queue : List P
  pub wire : List (Frame D V P)

pub data Event (C P : Type 0) : Type 0 where
  dials fails_to_dial : Event C P
  receives : CoordinatorMessage C → Event C P
  receives_garbled receives_ping closes breaks sends wakes : Event C P
  beats : (at : ℕ) → Event C P
  pushes : P → Event C P

-- `WebOrigins::allows`.
unfoldable pub allows : List Text → Text → Bool
allows origins origin = contains origins origin

module _ {S D V P : Type 0} where
  unfoldable pub new : S → Text → ControlClient S D V P
  new s issuer = record {
    handler = s;
    registered = false;
    web_origins = [];
    issuer = issuer;
    backoff = reconnect_min;
    phase = dialling;
    queue = [];
    wire = [];
  }

  -- `ControlSender::send`: into the channel, whatever the socket does.
  unfoldable pub send : P → ControlClient S D V P → ControlClient S D V P
  send m c = record c { queue = c.queue ++ m ∷ [] }

  abbrev pub put : Frame D V P → ControlClient S D V P → ControlClient S D V P
  put f c = record c { wire = f ∷ c.wire }

  -- The first message of the channel goes out.
  abbrev pub send_next : List P → ControlClient S D V P → Option (ControlClient S D V P)
  send_next [] c = none
  send_next (m ∷ ms) c = some (put (event m) (record c { queue = ms }))

module _ {S C D V P : Type 0} (h : CommandHandler S C D V) where
  -- Behind a connection that ended, cleanly or not.
  unfoldable pub disconnect : Bool → ControlClient S D V P → ControlClient S D V P
  disconnect clean c =
      let delay : ℕ = if clean then reconnect_min else c.backoff in
      record c {
        registered = false;
        handler = h.on_disconnected c.handler;
        backoff = delay;
        phase = sleeping delay;
      }

  unfoldable pub wake : ControlClient S D V P → ControlClient S D V P
  wake c = record c { backoff = min (c.backoff * 2) reconnect_max; phase = dialling }

  unfoldable pub dial : ControlClient S D V P → ControlClient S D V P
  dial c =
      let (v, s) = h.inventory c.handler in
      record c { handler = s; phase = connected none; wire = hello v ∷ [] }

  abbrev pub replied : Text → Result Text D × S → ControlClient S D V P → ControlClient S D V P
  replied id (r, s) c = put (command_result id r) (record c { handler = s })

  -- `on_message`; an error ends the connection.
  unfoldable pub on_message : CoordinatorMessage C → ControlClient S D V P → ControlClient S D V P
  on_message (hello_ack version interval jwks_url issuer origins) c =
      if version == protocol_version
      then record c {
        web_origins = origins;
        issuer = issuer;
        registered = true;
        phase = connected (some (max interval 1));
      }
      else disconnect false c
  on_message (hello_reject reason) c = disconnect false c
  on_message (command id p) c = replied id (h.handle p c.handler) c
  on_message (adb_auth_decision d) c = record c { handler = h.on_adb_auth_decision d c.handler }
  on_message ping c = c

  -- An event in a phase of the loop, where it can happen there.
  abbrev pub turn : Phase → Event C P → ControlClient S D V P → Option (ControlClient S D V P)
  turn phase (pushes m) c = some (send m c)
  turn dialling dials c = some (dial c)
  turn dialling fails_to_dial c = some (disconnect false c)
  turn (connected beat) (receives m) c = some (on_message m c)
  turn (connected beat) receives_garbled c = some (disconnect false c)
  turn (connected beat) receives_ping c = some (put pong c)
  turn (connected beat) closes c = some (disconnect true c)
  turn (connected beat) breaks c = some (disconnect false c)
  turn (connected beat) sends c = send_next c.queue c
  turn (connected (some interval)) (beats at) c = some (put (heartbeat at) c)
  turn (sleeping delay) wakes c = some (wake c)
  turn phase e c = none

  unfoldable pub step : Event C P → ControlClient S D V P → Option (ControlClient S D V P)
  step e c = turn c.phase e c

  -- The events, the newest first, where each can happen.
  unfoldable pub run : List (Event C P) → ControlClient S D V P → Option (ControlClient S D V P)
  run [] c = some c
  run (e ∷ es) c = elim (run es c) [ none ↦ none | some d ↦ step e d ]
