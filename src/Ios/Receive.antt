-- ===== src/Ios/Receive.antt =====
-- packages/provider/crates/backend-ios/src/media.rs: `receive_video`, from the RTP packets of the
-- device's socket, which a library parses, to the access units for the viewers. The rate limit of the
-- keyframe requests, the feedback reports and the clocks are left out.
pub mod Gaps
use yard.Prelude.{
  ℕ, ◌+◌, ◌-◌, ◌%◌, Bool, true, false, not, ◌&&◌, ◌||◌, ◌==◌, ltb, Option, none, some, List, [],
  ◌∷◌, ◌++◌, is_empty, if◌then◌else◌, Bytes, Text, length,
}
use yard.Prelude.Words.{u16_mod}
use yard.Media.Scrcpy.{CodecDescription, AccessUnit, description_eq}
use yard.Media.Hevc.{Depacketizer, reset_fragment, push, nal_type, is_key_nal, pack_access_unit}
use yard.Media.Hevc.Sets.{ParameterSets, observe, is_complete, description}

pub record RtpPacket : Type 0 where
  pub sequence_number : ℕ
  pub marker : Bool
  pub payload : Bytes

-- What the loop tells the publisher, and the keyframes it asks for behind a dropped unit.
pub data Told : Type 0 where
  shaped : (width height : ℕ) → Told
  announced : CodecDescription → Told
  published : AccessUnit → Told
  requested : Told

-- The loop's variables; what was told is kept with the newest first.
pub record Receiver : Type 0 where
  pub depacketizer : Depacketizer
  pub parameter_sets : ParameterSets
  pub last_codec : Option CodecDescription
  pub current_au : List Bytes
  pub au_is_key : Bool
  pub au_corrupt : Bool
  pub last_seq : Option ℕ
  pub is_streaming : Bool
  pub told : List Told

unfoldable pub start : Receiver
start = record {
  depacketizer = reset_fragment;
  parameter_sets = record {
    vps = none;
    sps = none;
    pps = none;
    codec_string = none;
    dimensions = none;
  };
  last_codec = none;
  current_au = [];
  au_is_key = false;
  au_corrupt = false;
  last_seq = none;
  is_streaming = false;
  told = [];
}

-- `previous.wrapping_add(1)`, and `wrapping_sub`.
abbrev pub next_seq : ℕ → ℕ
next_seq previous = (previous + 1) % u16_mod

abbrev pub seq_distance : ℕ → ℕ → ℕ
seq_distance seq previous = (seq + u16_mod - previous) % u16_mod

unfoldable pub is_gap : Option ℕ → ℕ → Bool
is_gap none seq = false
is_gap (some previous) seq = not (seq == next_seq previous)

-- Only forward.
unfoldable pub advance : Option ℕ → ℕ → Option ℕ
advance none seq = some seq
advance (some previous) seq =
    if ltb (seq_distance seq previous) 32768 then some seq else some previous

abbrev pub poison : Bool → Receiver → Receiver
poison true r = record r { depacketizer = reset_fragment; au_corrupt = true }
poison false r = r

abbrev pub shape : Option (ℕ × ℕ) → Receiver → Receiver
shape none r = r
shape (some (w, h)) r = record r { told = shaped w h ∷ r.told }

abbrev pub observed : Bool × ParameterSets → Receiver → Receiver
observed (true, sets) r = shape sets.dimensions (record r { parameter_sets = sets })
observed (false, sets) r = record r { parameter_sets = sets }

abbrev pub is_last : Option CodecDescription → CodecDescription → Bool
is_last none d = false
is_last (some c) d = description_eq c d

abbrev pub announce : Option (Text × Bytes) → Receiver → Receiver
announce none r = r
announce (some (codec, bytes)) r =
    let d : CodecDescription = record { codec = codec; description = bytes } in
    if is_last r.last_codec d
    then r
    else record r { last_codec = some d; told = announced d ∷ r.told }

abbrev pub announce_complete : Receiver → Receiver
announce_complete r =
    announce (if is_complete r.parameter_sets then description r.parameter_sets else none) r

abbrev pub keep_unit : Bytes → Receiver → Receiver
keep_unit nal r = record r {
  au_is_key = r.au_is_key || is_key_nal (nal_type nal);
  current_au = r.current_au ++ nal ∷ [];
}

unfoldable pub take_unit : Bytes → Receiver → Receiver
take_unit nal r =
    if ltb (length nal) 2
    then r
    else keep_unit nal (announce_complete (observed (observe r.parameter_sets nal) r))

unfoldable pub take_units : List Bytes → Receiver → Receiver
take_units [] r = r
take_units (nal ∷ nals) r = take_units nals (take_unit nal r)

abbrev pub depacketize : Depacketizer × List Bytes → Receiver → Receiver
depacketize (d, nals) r = take_units nals (record r { depacketizer = d })

-- A unit is over: it is dropped, or it goes out unless it is empty.
abbrev pub send : (corrupt empty : Bool) → Receiver → Receiver
send true empty r = record r { told = requested ∷ r.told }
send false true r = r
send false false r = record r {
  is_streaming = r.is_streaming || r.au_is_key;
  told =
      published (record { data_ = pack_access_unit r.current_au; is_key = r.au_is_key }) ∷ r.told;
}

abbrev pub clear : Receiver → Receiver
clear r = record r { current_au = []; au_is_key = false; au_corrupt = false }

unfoldable pub finish : Bool → Receiver → Receiver
finish false r = r
finish true r = clear (send r.au_corrupt (is_empty r.current_au) r)

-- One packet.
unfoldable pub receive : RtpPacket → Receiver → Receiver
receive p r =
    let r1 = poison (is_gap r.last_seq p.sequence_number) r in
    let r2 : Receiver = record r1 { last_seq = advance r.last_seq p.sequence_number } in
    finish p.marker (depacketize (push r2.depacketizer p.payload) r2)

-- The receiver behind the packets, the newest first.
unfoldable pub receive_all : List RtpPacket → Receiver
receive_all [] = start
receive_all (p ∷ ps) = receive p (receive_all ps)
