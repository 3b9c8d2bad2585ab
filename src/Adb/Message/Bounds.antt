-- ===== src/Adb/Message/Bounds.antt =====
-- What `Message::read` accepts and refuses, of any stream.
use yard.Prelude.{
  ℕ, ◌+◌, ◌≤◌, ◌<◌, ◌≡◌, ◌++◌, Option-cases, inl, inr, Bytes, length, ok, err, arith,
}
use yard.Prelude.Words.{
  u32_mod, complement32, read_exact, read_exact-append, length-read_exact, le_word-le_bytes4,
}
use yard.Adb.Message.{
  Command, Message, header, code, payload_too_large, read, read_header, read_payload, max_payload,
  word, from_code,
}
use yard.Adb.Message.RoundTrip.{from_code-code, code-lt, length-header}

read_payload-bounds :
    (c : Command) (a b len : ℕ) (bs : Bytes) {m : Message} {rest : Bytes}
    → read_payload c a b len bs ≡ ok (m, rest)
    → (length m.payload ≤ max_payload) × (length bs ≡ length m.payload + length rest)
unfolding read_payload
read_payload-bounds c a b len bs h = elim (Option-cases (read_exact len bs)) [
  | inl e ↦ ground arith
  | inr ((xs, ys), e) ↦ let l = length-read_exact len bs e in ground arith
]

read_header-bounds :
    (h bs : Bytes) {m : Message} {rest : Bytes}
    → read_header h bs ≡ ok (m, rest)
    → (length m.payload ≤ max_payload) × (length bs ≡ length m.payload + length rest)
unfolding read_header
read_header-bounds h bs {m} {rest} e = elim (Option-cases (from_code (word h 0))) [
  | inl f ↦ ground arith
  | inr (c, f) ↦
      read_payload-bounds c (word h 4) (word h 8) (word h 12) bs {m = m} {rest = rest}
        (ground arith)
]

-- A message that is read has a payload within the limit, and takes exactly its header and its
-- payload off the stream.
pub read_bounds :
    (bs : Bytes) {m : Message} {rest : Bytes}
    → read bs ≡ ok (m, rest)
    → (length m.payload ≤ max_payload) × (length bs ≡ 24 + length m.payload + length rest)
unfolding read
read_bounds bs e = elim (Option-cases (read_exact 24 bs)) [
  | inl f ↦ ground arith
  | inr ((xs, ys), f) ↦
      let l = length-read_exact 24 bs f in
      let b = read_header-bounds xs ys (rw (f, read) at e) in (b.0, omega arith)
]

read_header_oversized :
    (c : Command) (a b len sum : ℕ) (rest : Bytes)
    → max_payload < len
    → len < u32_mod
    → read_header (header c a b len sum) rest ≡ err (payload_too_large len)
unfolding read_header read_payload header
read_header_oversized c a b len sum rest h k =
    rw
      (
        le_word-le_bytes4 (code c) (code-lt c),
        le_word-le_bytes4 len k,
        le_word-le_bytes4 (complement32 (code c)) (omega arith),
        from_code-code c,
      )
      (ground arith)

-- A header whose length exceeds the limit is refused whatever follows it, nothing included: no
-- payload byte is waited for.
pub read_oversized :
    (c : Command) (a b len sum : ℕ) (rest : Bytes)
    → max_payload < len
    → len < u32_mod
    → read (header c a b len sum ++ rest) ≡ err (payload_too_large len)
unfolding read
read_oversized c a b len sum rest h k =
    rw (read_exact-append 24 (header c a b len sum) rest (length-header c a b len sum))
      (read_header_oversized c a b len sum rest h k)
