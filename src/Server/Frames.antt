-- ===== src/Server/Frames.antt =====
-- packages/provider/crates/yard-protocol/src/lib.rs: the binary frames of a viewer, and the messages
-- that count as use. packages/provider/crates/provider-core/src/audio.rs: what an audio stream is.
use yard.Prelude.{ℕ, Option, none, some, ◌∷◌, ◌++◌, Text, Bytes, ◌==◌, if◌then◌else◌}
use yard.Prelude.Words.{be_bytes8}

pub data AuKind : Type 0 where
  key delta key_with_reset : AuKind

pub data AudioStatus (C : Type 0) : Type 0 where
  pending : AudioStatus C
  available : C → AudioStatus C
  unavailable : Text → AudioStatus C

pub record AudioPacket : Type 0 where
  pub data_ : Bytes
  pub timestamp_us : ℕ

abbrev pub au_key : ℕ
au_key = 0

abbrev pub au_delta : ℕ
au_delta = 1

abbrev pub au_key_reset : ℕ
au_key_reset = 2

abbrev pub audio_packet : ℕ
audio_packet = 3

unfoldable pub to_byte : AuKind → ℕ
to_byte key = au_key
to_byte delta = au_delta
to_byte key_with_reset = au_key_reset

unfoldable pub from_byte : ℕ → Option AuKind
from_byte b =
    if b == au_key
    then some key
    else if b == au_delta
    then some delta
    else if b == au_key_reset
    then some key_with_reset
    else none

unfoldable pub frame_au : AuKind → Bytes → Bytes
frame_au kind au = to_byte kind ∷ au

unfoldable pub frame_audio : ℕ → Bytes → Bytes
frame_audio timestamp_us packet = audio_packet ∷ (be_bytes8 timestamp_us ++ packet)
