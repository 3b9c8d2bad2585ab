-- ===== src/Tests/Adb.antt =====
-- The ADB bridge on concrete messages.
use yard.Prelude.{◌+◌, ◌≤◌, ◌≡◌, refl, [], ◌∷◌, ◌++◌, length, ok, err, arith}
use yard.Prelude.Words.{read_exact}
use yard.Adb.Message.{
  wrte, okay, Message, new, header, code, checksum, encode, read, read_header, read_payload,
  from_code, IsValid, payload_too_large, max_payload,
}
use yard.Adb.Message.RoundTrip.{read-encode}
use yard.Adb.Message.Bounds.{read_bounds, read_oversized}

abbrev hello : Message
hello = new wrte 7 9 (104 ∷ 101 ∷ 108 ∷ 108 ∷ 111 ∷ [])

hello-IsValid : IsValid hello
hello-IsValid = omega arith

encoded_okay :
    encode (new okay 1 2 [])
    ≡ 0x4f ∷ 0x4b ∷ 0x41 ∷ 0x59 ∷ 1 ∷ 0 ∷ 0 ∷ 0 ∷ 2 ∷ 0 ∷ 0 ∷ 0 ∷ 0 ∷ 0 ∷ 0 ∷ 0 ∷ 0 ∷ 0 ∷ 0 ∷ 0
      ∷ 0xb0 ∷ 0xb4 ∷ 0xbe ∷ 0xa6 ∷ []
unfolding encode header code checksum
encoded_okay = refl

read-hello : read (encode hello) ≡ ok (hello, [])
unfolding encode header code checksum read read_exact read_header read_payload from_code
read-hello = refl

read-encode_example : read (encode hello ++ (1 ∷ 2 ∷ [])) ≡ ok (hello, 1 ∷ 2 ∷ [])
read-encode_example = read-encode hello (1 ∷ 2 ∷ []) hello-IsValid

read_bounds_example : (5 ≤ max_payload) × (length (encode hello) ≡ 24 + 5 + 0)
read_bounds_example = read_bounds (encode hello) {m = hello} {rest = []} read-hello

read_oversized_example :
    read (header wrte 0 0 0xffff_ffff 0 ++ []) ≡ err (payload_too_large 0xffff_ffff)
read_oversized_example = read_oversized wrte 0 0 0xffff_ffff 0 [] (omega arith) (omega arith)
