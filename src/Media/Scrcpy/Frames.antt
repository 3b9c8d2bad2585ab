-- ===== src/Media/Scrcpy/Frames.antt =====
-- The framing of the video and audio sockets, against the server's side of it.
use yard.Prelude.{
  ℕ, ◌+◌, ◌*◌, ◌/◌, ◌%◌, ◌^◌, ◌<◌, ◌≡◌, refl, Bool, true, false, none, some, ◌++◌, Bytes, length,
  arith, ok, if◌then◌else◌, leb,
}
use yard.Prelude.Words.{u32_mod, be_bytes4, read_u32-be_bytes4, read_exact-append}
use yard.Media.Scrcpy.{
  VideoFrame, session, packet, read_frame, session_marker, flag_config, flag_key_frame, packet_of,
  has_flag,
}

-- What the server sends: a geometry, parameter sets, or a picture with its time.
pub data Sent : Type 0 where
  size : (width height : ℕ) → Sent
  config : Bytes → Sent
  picture : (key : Bool) (time : ℕ) → Bytes → Sent

abbrev pub key_bit : Bool → ℕ
key_bit key = if key then flag_key_frame else 0

abbrev header : ℕ → Bytes → Bytes
header flags payload =
    be_bytes4 (flags / u32_mod)
    ++ (be_bytes4 (flags % u32_mod) ++ (be_bytes4 (length payload) ++ payload))

unfoldable pub write : Sent → Bytes
write (size w h) = be_bytes4 session_marker ++ (be_bytes4 w ++ be_bytes4 h)
write (config bs) = header flag_config bs
write (picture key t bs) = header (key_bit key + t) bs

unfoldable pub Fits : Sent → Type 0
Fits (size w h) = (w < u32_mod) × (h < u32_mod)
Fits (config bs) = length bs < u32_mod
Fits (picture key t bs) = (t < flag_key_frame) × (length bs < u32_mod)

abbrev pub received : Sent → VideoFrame
received (size w h) = session w h
received (config bs) = packet true false none bs
received (picture key t bs) = packet false key (some t) bs

read_session :
    (w h : ℕ) (rest : Bytes)
    → w < u32_mod
    → h < u32_mod
    → read_frame (be_bytes4 session_marker ++ (be_bytes4 w ++ (be_bytes4 h ++ rest)))
      ≡ ok (session w h, rest)
unfolding read_frame
read_session w h rest k l =
    rw (read_u32-be_bytes4 session_marker (be_bytes4 w ++ (be_bytes4 h ++ rest)) (omega arith))
      (rw (read_u32-be_bytes4 w (be_bytes4 h ++ rest) k) (rw (read_u32-be_bytes4 h rest l) refl))

upper : (flags : ℕ) → flags < 2 ^ 63 → leb session_marker (flags / u32_mod) ≡ false
upper flags h = ground arith

rejoin : (flags : ℕ) → flags / u32_mod * u32_mod + flags % u32_mod ≡ flags
rejoin flags = omega arith

read_packet :
    (flags : ℕ) (payload rest : Bytes)
    → flags < 2 ^ 63
    → length payload < u32_mod
    → read_frame (header flags payload ++ rest) ≡ ok (packet_of flags payload, rest)
unfolding read_frame
read_packet flags payload rest h k =
    let tail : Bytes = payload ++ rest in
    let low : Bytes = be_bytes4 (length payload) ++ tail in
    rw (read_u32-be_bytes4 (flags / u32_mod) (be_bytes4 (flags % u32_mod) ++ low) (omega arith)) (
      rw (read_u32-be_bytes4 (flags % u32_mod) low (omega arith)) (
        rw (read_u32-be_bytes4 (length payload) tail k) (
          rw (upper flags h)
            (rw (read_exact-append (length payload) payload rest refl) (rw (rejoin flags) refl)))))

below : (key : Bool) (t : ℕ) → t < flag_key_frame → key_bit key + t < flag_config
below true t h = omega arith
below false t h = omega arith

has_config : (flags : ℕ) → flags < flag_config → has_flag flags flag_config ≡ false
has_config flags h = ground arith

has_key :
    (key : Bool) (t : ℕ) → t < flag_key_frame → has_flag (key_bit key + t) flag_key_frame ≡ key
has_key true t h = ground arith
has_key false t h = ground arith

time_of : (key : Bool) (t : ℕ) → t < flag_key_frame → (key_bit key + t) % flag_key_frame ≡ t
time_of true t h = omega arith
time_of false t h = omega arith

-- Every block that the server sends is read back as the frame it describes, whatever follows it,
-- where its numbers fit their fields: a time below 2^61, a width, height or length below 2^32.
pub read_frame-write :
    (f : Sent) (rest : Bytes) → Fits f → read_frame (write f ++ rest) ≡ ok (received f, rest)
unfolding write Fits
read_frame-write (size w h) rest k = read_session w h rest k.0 k.1
read_frame-write (config bs) rest k = read_packet flag_config bs rest (omega arith) k
read_frame-write (picture key t bs) rest k =
    let b : key_bit key + t < flag_config = below key t k.0 in
    rw (read_packet (key_bit key + t) bs rest (omega arith) k.1)
      (rw (has_config (key_bit key + t) b, has_key key t k.0, time_of key t k.0) refl)
