-- ===== src/Server/Viewer.antt =====
-- packages/provider/crates/provider-core/src/server.rs: `run_session`, one viewer, as a machine. An
-- event is what the loop's `select!` takes up next, and a moment is what the loop reads from outside
-- while it handles it. The device is not followed beyond the end of the session.
pub mod Feed
pub mod Withdrawn
use yard.Prelude.{
  ℕ, ◌+◌, Bool, true, false, not, ◌&&◌, Option, none, some, List, [], ◌∷◌, ◌++◌, is_empty, text_eq,
  Text, codes, Bytes, Result, ok, err, if◌then◌else◌, map,
}
use yard.Core.Session.{Registry, Revocation, SessionError, check}
use yard.Media.Scrcpy.{CodecDescription, AccessUnit}
use yard.Server.Frames.{
  AuKind, key, delta, key_with_reset, AudioStatus, pending, available, unavailable, AudioPacket,
  frame_au, frame_audio,
}
use yard.Server.Messages.{
  VideoGeometry, Display, ServerMessage, codec, display, audio_codec, audio_unavailable,
  clipboard_text, session_closed, error_message, Message, text, binary, ping, display_of,
  current_display,
}
use yard.Server.Client.{
  ClientMessage, Controls, Answer, silence, clipboard, error, is_interaction, handle_client_message,
  asks_keyframe,
}

pub record Moment (R C : Type 0) : Type 0 where
  pub sessions : Registry
  pub status : AudioStatus C
  pub current_codec : Option CodecDescription
  pub geometry : Option VideoGeometry
  pub info_display : Option (Display R)
  -- Whether the socket takes what is sent.
  pub takes : Bool

pub data Event (At : Type 0) : Type 0 where
  frame : AccessUnit → Event At
  frames_lag frames_closed : Event At
  packet : AudioPacket → Event At
  packets_lag packets_closed : Event At
  status_changed status_closed : Event At
  codec_changed codec_closed : Event At
  geometry_changed geometry_closed : Event At
  revocation : Revocation → Event At
  revocations_lag ping_due : Event At
  receives : ClientMessage At → Event At
  receives_garbled receives_other closes source_ends source_fails : Event At

-- `requests` counts the keyframes asked for, `uses` the activity noted; `has_packets` and
-- `has_status` are whether the audio's channels are still followed.
pub record Viewer (W : Type 0) : Type 0 where
  pub device_id : Text
  pub reservation_id : Text
  pub awaiting_keyframe : Bool
  pub audio_announced : Bool
  pub has_packets : Bool
  pub has_status : Bool
  pub requests : ℕ
  pub uses : ℕ
  pub world : W

-- How a turn ends: at the guard, by `continue`, or by `break`.
pub data Next (W : Type 0) : Type 0 where
  goes_on skips : Viewer W → Next W
  stops : Next W

abbrev pub is_available : {C : Type 0} → AudioStatus C → Bool
is_available (available c) = true
is_available s = false

module _ {R C : Type 0} where
  abbrev pub codec_message : CodecDescription → Moment R C → Message R C
  codec_message d m = text (codec d.codec d.description (current_display m.geometry m.info_display))

  -- `send_audio_status`: what is sent, and whether a codec was announced.
  unfoldable pub audio_message : AudioStatus C → ServerMessage R C × Bool
  audio_message (available c) = (audio_codec c, true)
  audio_message (unavailable reason) = (audio_unavailable reason, false)
  audio_message pending = (audio_unavailable (codes "Device audio is restarting"), false)

  abbrev pub answer_messages : Answer → List (Message R C)
  answer_messages silence = []
  answer_messages (clipboard t) = text (clipboard_text t) ∷ []
  answer_messages (error e) = text (error_message e) ∷ []

abbrev pub kind_of : Bool → AuKind
kind_of true = key
kind_of false = delta

module _ {W : Type 0} where
  abbrev pub request_keyframe : Viewer W → Viewer W
  request_keyframe v = record v { requests = v.requests + 1 }

  -- Everything up to the next keyframe is shed.
  abbrev pub shed : Viewer W → Viewer W
  shed v = request_keyframe (record v { awaiting_keyframe = true })

  abbrev pub used : Bool → Viewer W → Viewer W
  used true v = record v { uses = v.uses + 1 }
  used false v = v

  abbrev pub asked : Bool → Viewer W → Viewer W
  asked true v = request_keyframe v
  asked false v = v

module _ {R C W : Type 0} where
  -- By whether a keyframe is awaited and whether this is one.
  abbrev pub pass : (awaiting is_key : Bool) → Bytes → Viewer W → List (Message R C) × Next W
  pass true false bytes v = ([], skips v)
  pass true true bytes v = (
    binary (frame_au key_with_reset bytes) ∷ [],
    goes_on (record v { awaiting_keyframe = false }),
  )
  pass false is_key bytes v = (binary (frame_au (kind_of is_key) bytes) ∷ [], goes_on v)

  abbrev pub on_frame : AccessUnit → Viewer W → List (Message R C) × Next W
  on_frame au v = pass v.awaiting_keyframe au.is_key au.data_ v

  abbrev pub on_packet : AudioPacket → Moment R C → Viewer W → List (Message R C) × Next W
  on_packet p m v =
      if v.has_packets && (v.audio_announced && (v.has_status && is_available m.status))
      then (binary (frame_audio p.timestamp_us p.data_) ∷ [], goes_on v)
      else ([], goes_on v)

  abbrev pub on_status : Moment R C → Viewer W → List (Message R C) × Next W
  on_status m v =
      let (message, announced) = audio_message {R = R} m.status in
      if v.has_status
      then (text message ∷ [], goes_on (record v { audio_announced = announced }))
      else ([], goes_on v)

  abbrev pub on_codec :
      Option CodecDescription → Moment R C → Viewer W → List (Message R C) × Next W
  on_codec none m v = ([], skips v)
  on_codec (some next) m v = (codec_message next m ∷ [], goes_on (shed v))

  abbrev pub on_geometry : Option VideoGeometry → Viewer W → List (Message R C) × Next W
  on_geometry none v = ([], goes_on v)
  on_geometry (some g) v = (text (display (display_of g)) ∷ [], goes_on v)

  abbrev pub on_revocation : Revocation → Viewer W → List (Message R C) × Next W
  on_revocation r v =
      if text_eq r.device_id v.device_id
      then (text (session_closed r.reason) ∷ [], stops)
      else ([], goes_on v)

module _ {R C At W : Type 0} where
  abbrev pub on_client : Controls At W → ClientMessage At → Viewer W → List (Message R C) × Next W
  on_client c message v =
      let (w, answer) = handle_client_message c message v.world in
      (
        answer_messages answer,
        goes_on (
            asked (asks_keyframe message) (used (is_interaction message) (record v { world = w }))),
      )

  -- The arms of the `select!`.
  unfoldable pub react :
      Controls At W → Moment R C → Event At → Viewer W → List (Message R C) × Next W
  react c m (frame au) v = on_frame au v
  react c m frames_lag v = ([], goes_on (shed v))
  react c m frames_closed v = ([], stops)
  react c m (packet p) v = on_packet p m v
  react c m packets_lag v = ([], goes_on v)
  react c m packets_closed v = ([], goes_on (record v { has_packets = false }))
  react c m status_changed v = on_status m v
  react c m status_closed v = ([], goes_on (record v { has_status = false }))
  react c m codec_changed v = on_codec m.current_codec m v
  react c m codec_closed v = ([], stops)
  react c m geometry_changed v = on_geometry m.geometry v
  react c m geometry_closed v = ([], stops)
  react c m (revocation r) v = on_revocation r v
  react c m revocations_lag v = ([], goes_on v)
  react c m ping_due v = (ping ∷ [], goes_on v)
  react c m (receives message) v = on_client c message v
  react c m receives_garbled v = ([], goes_on v)
  react c m receives_other v = ([], goes_on v)
  react c m closes v = ([], stops)
  react c m source_ends v = ([], stops)
  react c m source_fails v = ([], stops)

abbrev pub is_ok {ℓ} : {A : Type ℓ} → Result SessionError A → Bool
is_ok (ok a) = true
is_ok (err e) = false

-- The check at the foot of the loop.
abbrev pub is_current : {W : Type 0} → Registry → Viewer W → Bool
is_current s v = is_ok (check v.device_id v.reservation_id s)

abbrev pub settle : {W : Type 0} → Registry → Next W → Option (Viewer W)
settle s (goes_on v) = if is_current s v then some v else none
settle s (skips v) = some v
settle s stops = none

module _ {R C W : Type 0} where
  -- A message that the socket does not take ends the session.
  abbrev pub delivered :
      Moment R C → List (Message R C) × Next W → List (Message R C) × Option (Viewer W)
  delivered m (ms, next) =
      if not m.takes && not (is_empty ms) then ([], none) else (ms, settle m.sessions next)

module _ {R C At W : Type 0} where
  unfoldable pub turn :
      Controls At W → Moment R C → Event At → Viewer W → List (Message R C) × Option (Viewer W)
  turn c m e v = delivered m (react c m e v)

-- A viewer whose handshake went out; `audio` is whether the device has sound at all.
unfoldable pub enter : {W : Type 0} → Text → Text → (audio announced : Bool) → W → Viewer W
enter device reservation audio announced w = record {
  device_id = device;
  reservation_id = reservation;
  awaiting_keyframe = false;
  audio_announced = announced;
  has_packets = audio;
  has_status = audio;
  requests = 1;
  uses = 0;
  world = w;
}

module _ {R C : Type 0} where
  -- The messages of the audio's part of the handshake.
  abbrev pub audio_handshake : Bool → AudioStatus C → List (Message R C) × Bool
  audio_handshake false s = ([], false)
  audio_handshake true s =
      let (message, announced) = audio_message {R = R} s in (text message ∷ [], announced)

module _ {R C W : Type 0} where
  -- Up to the loop; `found` is what the wait for the codec gives.
  unfoldable pub handshake :
      Text
      → Text
      → Bool
      → Option CodecDescription
      → Moment R C
      → W
      → List (Message R C) × Option (Viewer W)
  handshake device reservation audio none m w =
      ((if m.takes then text (error_message (codes "device is not streaming")) ∷ [] else []), none)
  handshake device reservation audio (some d) m w =
      let (ms, announced) = audio_handshake audio m.status in
      if m.takes
      then (codec_message d m ∷ ms, some (enter device reservation audio announced w))
      else ([], none)
