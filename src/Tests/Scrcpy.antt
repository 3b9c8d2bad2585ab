-- ===== src/Tests/Scrcpy.antt =====
-- A short scrcpy session: a geometry, parameter sets twice, a picture, a rotation.
use yard.Prelude.{
  ℕ, zero, suc, ◌≡◌, refl, true, false, Option, none, some, List, [], ◌∷◌, ◌++◌, Bytes, arith, ok,
  codes, map, text_eq,
}
use yard.Prelude.Words.{be_bytes4, read_exact, read_u32}
use yard.Media.AnnexB.{
  nal_type, starts, units, split_annex_b, to_length_prefixed, frame, collect, parse, avcc,
  codec_string,
}
use yard.Media.Scrcpy.{
  read_frame, read_handshake, codec_h264, Pump, Event, resized, announced_codec, published,
  set_geometry, announce, publish, describe, on_frame, pump_video, eof, packet, ScrcpyError,
}
use yard.Media.Scrcpy.Frames.{Sent, size, config, picture, write, Fits, read_frame-write}
use yard.Media.Scrcpy.Loop.{
  Sound, last_codec, last_size, Ordered, pump_video-Sound, stream, turns, AllFit, pump_video-stream,
}
use yard.Media.Scrcpy.Control.{read_device_message}
use yard.Media.Scrcpy.ControlReader.{
  Control, tap, copied, encode, read_control, read_control-encode,
}
use yard.Media.Scrcpy.ControlReader

abbrev sets : Bytes
sets = 0 ∷ 0 ∷ 0 ∷ 1 ∷ 0x67 ∷ 0x64 ∷ 0 ∷ 0x20 ∷ 0 ∷ 0 ∷ 0 ∷ 1 ∷ 0x68 ∷ 0xee ∷ []

abbrev slice : Bytes
slice = 0 ∷ 0 ∷ 1 ∷ 0x65 ∷ 7 ∷ []

abbrev sent : List Sent
sent =
    picture true 0 slice
    ∷ size 1280 720
    ∷ config sets
    ∷ config sets
    ∷ picture true 40 slice
    ∷ size 720 1280
    ∷ []

abbrev idle : Pump
idle = record { announced = none; geometry = (0, 0); events = [] }

sent-AllFit : AllFit sent
unfolding AllFit Fits
sent-AllFit = ground arith

idle-Sound : Sound (0, 0) idle
unfolding last_codec last_size Ordered
idle-Sound = record { codec = refl; size = refl; order = tt }

abbrev codec_of : Event → Option Bytes
codec_of (announced_codec d) = some d.codec
codec_of (resized w h) = none
codec_of (published u) = some u.data_

-- The picture before the parameter sets is dropped, and the sets are announced once.
run_sent :
    map codec_of (turns idle sent).events
    ≡ none ∷ some (0 ∷ 0 ∷ 0 ∷ 2 ∷ 0x65 ∷ 7 ∷ []) ∷ some (codes "avc1.640020") ∷ none ∷ []
unfolding turns on_frame set_geometry announce publish describe parse avcc codec_string
    split_annex_b starts units collect nal_type to_length_prefixed frame text_eq
run_sent = refl

read_frame-write_example :
    read_frame (write (picture true 40 slice) ++ slice)
    ≡ ok (packet false true (some 40) slice, slice)
unfolding Fits
read_frame-write_example = read_frame-write (picture true 40 slice) slice (ground arith)

pump_video-Sound_example :
    (out : Pump × ScrcpyError) × (pump_video 200 (stream sent) idle ≡ some out) × Sound (0, 0) out.0
unfolding stream write
pump_video-Sound_example = pump_video-Sound 200 (stream sent) idle (omega arith) idle-Sound

pump_video-stream_example : pump_video 7 (stream sent) idle ≡ some (turns idle sent, eof)
pump_video-stream_example = pump_video-stream sent idle sent-AllFit

read_control-encode_example :
    read_control (encode (tap 1 7 600 20 1280 720) ++ encode (copied 3 slice true))
    ≡ some (tap 1 7 600 20 1280 720, encode (copied 3 slice true))
unfolding ControlReader.Fits
read_control-encode_example =
    read_control-encode (tap 1 7 600 20 1280 720) (encode (copied 3 slice true)) (ground arith)

-- A device name of three letters in its 64 bytes, behind the dummy byte.
abbrev padding : ℕ → Bytes
padding zero = []
padding (suc n) = 0 ∷ padding n

handshake_640 :
    read_handshake
      (λ bs. bs)
      (0 ∷ 83 ∷ 50 ∷ 53 ∷ (padding 61 ++ (be_bytes4 codec_h264 ++ write (size 640 480))))
    ≡ ok (record { device_name = 83 ∷ 50 ∷ 53 ∷ []; width = 640; height = 480 }, [])
unfolding read_handshake read_frame read_exact read_u32 write
handshake_640 = refl

clipboard_text :
    read_device_message (λ bs. bs) (0 ∷ (be_bytes4 2 ++ (65 ∷ 66 ∷ 1 ∷ [])))
    ≡ ok (some (65 ∷ 66 ∷ []), 1 ∷ [])
unfolding read_device_message read_u32 read_exact
clipboard_text = refl
