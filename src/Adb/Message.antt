-- ===== src/Adb/Message.antt =====
-- packages/provider/crates/adb-bridge/src/message.rs: ADB's wire framing. A stream is the list of
-- bytes that are still to come; `read_exact` fails with `io` where it is too short.
pub mod RoundTrip
pub mod Bounds
use yard.Prelude.{
  ℕ, zero, suc, ◌+◌, ◌%◌, Bool, Option, none, some, List, [], ◌∷◌, ◌++◌, ◌==◌, ltb, if◌then◌else◌,
  Bytes, length, get_or, ◌≤◌, ◌<◌, Result, ok, err, ◌>>=◌, ok_or, not, Text, is_empty, ◌&&◌,
}
use yard.Prelude.Words.{u32_mod, le_bytes4, le_word, complement32, read_exact}

abbrev pub header_len : ℕ
header_len = 24

abbrev pub max_payload : ℕ
max_payload = 262144

abbrev pub version : ℕ
version = 0x0100_0000

pub data Command : Type 0 where
  cnxn auth open_ okay clse wrte stls sync : Command

unfoldable pub code : Command → ℕ
code sync = 0x434e_5953
code cnxn = 0x4e58_4e43
code open_ = 0x4e45_504f
code okay = 0x5941_4b4f
code clse = 0x4553_4c43
code wrte = 0x4554_5257
code auth = 0x4854_5541
code stls = 0x534c_5453

unfoldable pub from_code : ℕ → Option Command
from_code c =
    if c == 0x434e_5953
    then some sync
    else if c == 0x4e58_4e43
    then some cnxn
    else if c == 0x4e45_504f
    then some open_
    else if c == 0x5941_4b4f
    then some okay
    else if c == 0x4553_4c43
    then some clse
    else if c == 0x4554_5257
    then some wrte
    else if c == 0x4854_5541
    then some auth
    else if c == 0x534c_5453
    then some stls
    else none

-- `AUTH` argument 0.
abbrev pub auth_token : ℕ
auth_token = 1

abbrev pub auth_signature : ℕ
auth_signature = 2

abbrev pub auth_rsapublickey : ℕ
auth_rsapublickey = 3

pub record Message : Type 0 where
  pub command : Command
  pub arg0 : ℕ
  pub arg1 : ℕ
  pub payload : Bytes

pub data FrameError : Type 0 where
  io : FrameError
  unknown_command : ℕ → FrameError
  bad_magic : FrameError
  payload_too_large : ℕ → FrameError

abbrev pub new : Command → ℕ → ℕ → Bytes → Message
new c a b p = record { command = c; arg0 = a; arg1 = b; payload = p }

abbrev pub empty : Command → ℕ → ℕ → Message
empty c a b = new c a b []

-- `iter().fold(0, |sum, b| sum.wrapping_add(b))`.
unfoldable pub checksum_from : ℕ → Bytes → ℕ
checksum_from sum [] = sum
checksum_from sum (b ∷ bs) = checksum_from ((sum + b) % u32_mod) bs

unfoldable pub checksum : Bytes → ℕ
unfolding checksum_from
checksum payload = checksum_from 0 payload

-- The six words of the header.
unfoldable pub header : Command → ℕ → ℕ → ℕ → ℕ → Bytes
unfolding code
header c a b len sum =
    le_bytes4 (code c)
    ++ (le_bytes4 a
        ++ (le_bytes4 b ++ (le_bytes4 len ++ (le_bytes4 sum ++ le_bytes4 (complement32 (code c))))))

unfoldable pub encode : Message → Bytes
encode m =
    header m.command m.arg0 m.arg1 (length m.payload % u32_mod) (checksum m.payload) ++ m.payload

-- `u32::from_le_bytes(header[i..i + 4])`.
abbrev pub word : Bytes → ℕ → ℕ
word h i = le_word (get_or h i 0) (get_or h (i + 1) 0) (get_or h (i + 2) 0) (get_or h (i + 3) 0)

-- The guard on the length, and the payload behind it.
unfoldable pub read_payload : Command → ℕ → ℕ → ℕ → Bytes → Result FrameError (Message × Bytes)
read_payload command arg0 arg1 len rest =
    if ltb max_payload len then err (payload_too_large len) else do
      (payload, rest') ← ok_or (read_exact len rest) io
      ok (new command arg0 arg1 payload, rest')

-- The header's guards, in the order of the source. The checksum in bytes 16 to 20 is read past.
unfoldable pub read_header : Bytes → Bytes → Result FrameError (Message × Bytes)
read_header h rest = if not (word h 20 == complement32 (word h 0)) then err bad_magic else do
  command ← ok_or (from_code (word h 0)) (unknown_command (word h 0))
  read_payload command (word h 4) (word h 8) (word h 12) rest

-- The message, and the stream behind it.
unfoldable pub read : Bytes → Result FrameError (Message × Bytes)
read bs = do (h, rest) ← ok_or (read_exact header_len bs) io; read_header h rest

-- A message that can be sent: the arguments are `u32`, and the payload is within the limit.
pub record IsValid (m : Message) : Type 0 where
  pub arg0 : m.arg0 < u32_mod
  pub arg1 : m.arg1 < u32_mod
  pub payload : length m.payload ≤ max_payload

-- `trim_end_matches('\0')`.
abbrev pub trim_nul : Text → Text
trim_nul [] = []
trim_nul (c ∷ cs) = let rest = trim_nul cs in if (c == 0) && is_empty rest then [] else c ∷ rest

-- `lossy` is `String::from_utf8_lossy`.
unfoldable pub payload_str : (Bytes → Text) → Message → Text
payload_str lossy m = trim_nul (lossy m.payload)
