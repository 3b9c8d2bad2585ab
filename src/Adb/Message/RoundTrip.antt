-- ===== src/Adb/Message/RoundTrip.antt =====
-- `Message::read` of what `Message::encode` wrote.
use yard.Prelude.{ℕ, ◌%◌, ◌≤◌, ◌<◌, ◌≡◌, refl, some, ◌++◌, Bytes, length, ok, arith, ==_self}
use yard.Prelude.Words.{u32_mod, complement32, read_exact-append, le_word-le_bytes4}
use yard.Adb.Message.{
  Command, Message, header, checksum, code, from_code, encode, read, read_header, read_payload,
  IsValid, new,
}
use mathlib.Core.List.{append_assoc}

pub from_code-code : (c : Command) → from_code (code c) ≡ some c
unfolding from_code code
from_code-code Command.cnxn = refl
from_code-code Command.auth = refl
from_code-code Command.open_ = refl
from_code-code Command.okay = refl
from_code-code Command.clse = refl
from_code-code Command.wrte = refl
from_code-code Command.stls = refl
from_code-code Command.sync = refl

pub code-lt : (c : Command) → code c < u32_mod
unfolding code
code-lt c = ground arith

read_payload-append :
    (c : Command) (a b len : ℕ) (p rest : Bytes)
    → length p ≡ len
    → len ≤ 262144
    → read_payload c a b len (p ++ rest) ≡ ok (new c a b p, rest)
unfolding read_payload
read_payload-append c a b len p rest e h = ground (arith, read_exact-append len p rest e)

read_header-header :
    (c : Command) (a b len sum : ℕ) (p rest : Bytes)
    → a < u32_mod
    → b < u32_mod
    → length p ≡ len
    → len ≤ 262144
    → read_header (header c a b len sum) (p ++ rest) ≡ ok (new c a b p, rest)
unfolding read_header header
read_header-header c a b len sum p rest ha hb e hl =
    rw
      (
        le_word-le_bytes4 (code c) (code-lt c),
        le_word-le_bytes4 a ha,
        le_word-le_bytes4 b hb,
        le_word-le_bytes4 len (omega arith),
        le_word-le_bytes4 (complement32 (code c)) (omega arith),
        from_code-code c,
        ==_self (complement32 (code c)),
      )
      (read_payload-append c a b len p rest e hl)

pub length-header : (c : Command) (a b len sum : ℕ) → length (header c a b len sum) ≡ 24
unfolding header
length-header c a b len sum = refl

-- Reading back an encoded message gives the message, and leaves what follows it in the stream.
pub read-encode : (m : Message) (rest : Bytes) → IsValid m → read (encode m ++ rest) ≡ ok (m, rest)
unfolding read encode
read-encode m rest v =
    let c = m.command in
    let n = length m.payload % u32_mod in
    let sum = checksum m.payload in
    let h = header c m.arg0 m.arg1 n sum in
    rw
      (
        append_assoc h m.payload rest,
        read_exact-append 24 h (m.payload ++ rest) (length-header c m.arg0 m.arg1 n sum),
      )
      (read_header-header c m.arg0 m.arg1 n sum m.payload rest v.arg0 v.arg1 (omega arith)
        (omega arith))
