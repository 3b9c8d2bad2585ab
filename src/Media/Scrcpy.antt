-- ===== src/Media/Scrcpy.antt =====
-- packages/provider/crates/backend-android/src/scrcpy.rs: the video, audio and control sockets of
-- the server on an Android device. A socket is the list of bytes still to come. The control
-- messages stand in Scrcpy.Control.
pub mod Frames
pub mod Loop
pub mod Audio
pub mod ControlReader
pub mod Control
use yard.Prelude.{
  ℕ, zero, suc, ◌+◌, ◌*◌, ◌/◌, ◌%◌, ◌^◌, ◌≤◌, ◌<◌, Bool, true, false, Option, none, some, List, [],
  ◌∷◌, ◌++◌, ◌==◌, ltb, leb, if◌then◌else◌, Bytes, Text, text_eq, length, take, ◌&&◌, not, Result,
  ok, err, ◌>>=◌, ok_or,
}
use yard.Prelude.Words.{u32_mod, read_exact, read_u32}
use yard.Media.AnnexB.{ParameterSets, parse, codec_string, avcc, to_length_prefixed}

abbrev pub flag_config : ℕ
flag_config = 2 ^ 62

abbrev pub flag_key_frame : ℕ
flag_key_frame = 2 ^ 61

abbrev pub session_marker : ℕ
session_marker = 2 ^ 31

abbrev pub codec_h264 : ℕ
codec_h264 = 0x6832_3634

abbrev pub codec_opus : ℕ
codec_opus = 0x6f70_7573

-- The reasons a socket is given up for.
pub data ScrcpyError : Type 0 where
  eof : ScrcpyError
  wrong_codec : ℕ → ScrcpyError
  packet_in_handshake : ScrcpyError
  session_in_audio : ScrcpyError
  audio_unavailable : ScrcpyError
  audio_not_configured : ScrcpyError
  unknown_device_message : ℕ → ScrcpyError

pub data VideoFrame : Type 0 where
  session : (width height : ℕ) → VideoFrame
  packet :
      (is_config is_key : Bool) (presentation_time_us : Option ℕ) (payload : Bytes) → VideoFrame

-- `pts_and_flags & bit != 0`, for a bit that is a power of two.
abbrev pub has_flag : ℕ → ℕ → Bool
has_flag word bit = word / bit % 2 == 1

-- The packet that a header of these numbers describes.
abbrev pub packet_of : ℕ → Bytes → VideoFrame
packet_of flags payload =
    packet (has_flag flags flag_config) (has_flag flags flag_key_frame)
      (if has_flag flags flag_config then none else some (flags % flag_key_frame)) payload

unfoldable pub read_frame : Bytes → Result ScrcpyError (VideoFrame × Bytes)
read_frame bs = ok_or (read_u32 bs) eof >>= (λ first. ok_or (read_u32 first.1) eof >>= (λ second.
    ok_or (read_u32 second.1) eof >>= (λ third.
      if leb session_marker first.0
      then ok (session second.0 third.0, third.1)
      else ok_or (read_exact third.0 third.1) eof
        >>= (λ body. ok (packet_of (first.0 * u32_mod + second.0) body.0, body.1)))))

-- The name ends at its first zero byte.
abbrev pub until_nul : Bytes → Bytes
until_nul [] = []
until_nul (b ∷ bs) = if b == 0 then [] else b ∷ until_nul bs

pub record Handshake : Type 0 where
  pub device_name : Text
  pub width : ℕ
  pub height : ℕ

-- `lossy` is `String::from_utf8_lossy`.
unfoldable pub read_handshake : (Bytes → Text) → Bytes → Result ScrcpyError (Handshake × Bytes)
read_handshake lossy bs = ok_or (read_exact 1 bs) eof >>= (λ dummy.
    ok_or (read_exact 64 dummy.1) eof >>= (λ name. ok_or (read_u32 name.1) eof >>= (λ codec.
      if codec.0 == codec_h264
      then read_frame codec.1 >>= (λ frame. elim frame.0 [
        | session w h ↦
            ok (record { device_name = lossy (until_nul name.0); width = w; height = h }, frame.1)
        | packet _ _ _ _ ↦ err packet_in_handshake
      ])
      else err (wrong_codec codec.0))))

pub record CodecDescription : Type 0 where
  pub codec : Text
  pub description : Bytes

abbrev pub description_eq : CodecDescription → CodecDescription → Bool
description_eq a b = text_eq a.codec b.codec && text_eq a.description b.description

pub record AccessUnit : Type 0 where
  pub data_ : Bytes
  pub is_key : Bool

-- What the video pump does to the publisher and to the geometry's watchers.
pub data Event : Type 0 where
  resized : (width height : ℕ) → Event
  announced_codec : CodecDescription → Event
  published : AccessUnit → Event

-- The pump's own variable, the shared geometry, and the events, the newest first.
pub record Pump : Type 0 where
  pub announced : Option CodecDescription
  pub geometry : ℕ × ℕ
  pub events : List Event

-- `Geometry::set`: the watchers wake only on a change.
unfoldable pub set_geometry : Pump → ℕ → ℕ → Pump
set_geometry p w h =
    if (p.geometry.0 == w) && (p.geometry.1 == h)
    then p
    else record p { geometry = (w, h); events = resized w h ∷ p.events }

abbrev pub is_announced : Option CodecDescription → CodecDescription → Bool
is_announced none d = false
is_announced (some c) d = description_eq c d

unfoldable pub announce : Pump → CodecDescription → Pump
announce p d =
    if is_announced p.announced d
    then p
    else record p { announced = some d; events = announced_codec d ∷ p.events }

-- The description that a config packet carries, where it can be built.
unfoldable pub describe : Bytes → Option CodecDescription
describe config = elim (parse config) [
  | none ↦ none
  | some sets ↦ elim (codec_string sets) [
    | none ↦ none
    | some c ↦ elim (avcc sets) [
      | none ↦ none
      | some d ↦ some (record { codec = c; description = d })
    ]
  ]
]

-- A picture is dropped while nothing has been announced.
abbrev pub publish_to : Option CodecDescription → Pump → Bool → Bytes → Pump
publish_to none p key payload = p
publish_to (some d) p key payload = record p {
  events = published (record { data_ = to_length_prefixed payload; is_key = key }) ∷ p.events;
}

unfoldable pub publish : Pump → Bool → Bytes → Pump
publish p key payload = publish_to p.announced p key payload

-- One turn of the loop of `pump_video`, behind the read.
unfoldable pub on_frame : Pump → VideoFrame → Pump
on_frame p (session w h) = set_geometry p w h
on_frame p (packet true key pts payload) = elim (describe payload) [
  | none ↦ p
  | some d ↦ announce p d
]
on_frame p (packet false key pts payload) = publish p key payload

-- The loop, up to the error that ends it; `none` where the fuel is used up.
unfoldable pub pump_video : ℕ → Bytes → Pump → Option (Pump × ScrcpyError)
pump_video zero bs p = none
pump_video (suc fuel) bs p = elim (read_frame bs) [
  | err e ↦ some (p, e)
  | ok r ↦ pump_video fuel r.1 (on_frame p r.0)
]

pub record AudioPacket : Type 0 where
  pub data_ : Bytes
  pub timestamp_us : ℕ

-- One turn of the loop of `pump_audio`: the packets published so far, the newest first.
unfoldable pub on_audio : List AudioPacket → VideoFrame → Result ScrcpyError (List AudioPacket)
on_audio ps (session w h) = err session_in_audio
on_audio ps (packet true key pts payload) = ok ps
on_audio ps (packet false key none payload) = ok ps
on_audio ps (packet false key (some t) payload) =
    ok (record { data_ = payload; timestamp_us = t } ∷ ps)

unfoldable pub pump_audio : ℕ → Bytes → List AudioPacket → Option (List AudioPacket × ScrcpyError)
pump_audio zero bs ps = none
pump_audio (suc fuel) bs ps = elim (read_frame bs) [
  | err e ↦ some (ps, e)
  | ok r ↦ elim (on_audio ps r.0) [ err e ↦ some (ps, e) | ok qs ↦ pump_audio fuel r.1 qs ]
]

-- The answer of the audio socket, behind its timeout.
unfoldable pub read_audio_codec : Bytes → Result ScrcpyError Bytes
read_audio_codec bs = ok_or (read_u32 bs) eof >>= (λ codec.
    if codec.0 == codec_opus
    then ok codec.1
    else if codec.0 == 0
    then err audio_unavailable
    else if codec.0 == 1
    then err audio_not_configured
    else err (wrong_codec codec.0))
