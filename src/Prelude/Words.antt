-- ===== src/Prelude/Words.antt =====
-- Fixed-width words as bytes: `to_le_bytes`, `from_le_bytes`, `to_be_bytes`, `from_be_bytes`, and
-- `read_exact` on a stream that is a list of bytes.
use yard.Prelude.Lists.{
  Bytes, length, take, drop, length-append, take-append, drop-append, length-take, length-drop,
}
use yard.Prelude.Tests.{leb, if◌then◌else◌}
use Prim.Native.Nat.{ℕ, ◌+◌, ◌-◌, ◌*◌, ◌/◌, ◌%◌, ◌^◌, ◌<◌}
use mathlib.Core.Path.{◌≡◌, ap}
use mathlib.Core.List.{[], ◌∷◌, ◌++◌}
use mathlib.Core.Option.{Option, none, some}
use native.Mathlib.Omega.{arith}

abbrev pub u16_mod : ℕ
u16_mod = 2 ^ 16

abbrev pub u32_mod : ℕ
u32_mod = 2 ^ 32

abbrev pub le_bytes4 : ℕ → Bytes
le_bytes4 n = n % 256 ∷ n / 256 % 256 ∷ n / 65536 % 256 ∷ n / 16777216 % 256 ∷ []

abbrev pub be_bytes4 : ℕ → Bytes
be_bytes4 n = n / 16777216 % 256 ∷ n / 65536 % 256 ∷ n / 256 % 256 ∷ n % 256 ∷ []

abbrev pub be_bytes2 : ℕ → Bytes
be_bytes2 n = n / 256 % 256 ∷ n % 256 ∷ []

-- `u32::from_le_bytes` and `u32::from_be_bytes`, of the four bytes in order.
abbrev pub le_word : ℕ → ℕ → ℕ → ℕ → ℕ
le_word a b c d = a + 256 * b + 65536 * c + 16777216 * d

abbrev pub be_word : ℕ → ℕ → ℕ → ℕ → ℕ
be_word a b c d = 16777216 * a + 65536 * b + 256 * c + d

-- `!n` on a `u32`.
abbrev pub complement32 : ℕ → ℕ
complement32 n = u32_mod - 1 - n

pub le_word-le_bytes4 :
    (n : ℕ)
    → n < u32_mod
    → le_word (n % 256) (n / 256 % 256) (n / 65536 % 256) (n / 16777216 % 256) ≡ n
le_word-le_bytes4 n h = omega arith

pub be_word-be_bytes4 :
    (n : ℕ)
    → n < u32_mod
    → be_word (n / 16777216 % 256) (n / 65536 % 256) (n / 256 % 256) (n % 256) ≡ n
be_word-be_bytes4 n h = omega arith

-- `read_exact` of `n` bytes: what was read and what is left; `none` where the stream ends before.
unfoldable pub read_exact : ℕ → Bytes → Option (Bytes × Bytes)
read_exact n bs = if leb n (length bs) then some (take n bs, drop n bs) else none

pub read_exact-append :
    (n : ℕ) (xs ys : Bytes) → length xs ≡ n → read_exact n (xs ++ ys) ≡ some (xs, ys)
unfolding read_exact
read_exact-append n xs ys h =
    rw (← h) (ground (arith, length-append xs ys, take-append xs ys, drop-append xs ys))

pub length-read_exact :
    (n : ℕ) (bs : Bytes) {xs ys : Bytes}
    → read_exact n bs ≡ some (xs, ys)
    → (length xs ≡ n) × (length bs ≡ n + length ys)
unfolding read_exact
length-read_exact n bs h = ground (arith, length-take n bs, length-drop n bs)

pub read_exact_short : (n : ℕ) (bs : Bytes) → length bs < n → read_exact n bs ≡ none
unfolding read_exact
read_exact_short n bs h = ground arith

-- Two digits in upper-case hexadecimal, `{:02X}`.
abbrev hex_digit : ℕ → ℕ
hex_digit d = if leb d 9 then 48 + d else 55 + d

abbrev pub hex2 : ℕ → Bytes
hex2 b = hex_digit (b / 16 % 16) ∷ hex_digit (b % 16) ∷ []

abbrev pub be_bytes8 : ℕ → Bytes
be_bytes8 n = be_bytes4 (n / u32_mod % u32_mod) ++ be_bytes4 (n % u32_mod)

-- `read_exact` of four bytes and `u32::from_be_bytes` of them.
unfoldable pub read_u32 : Bytes → Option (ℕ × Bytes)
read_u32 (a ∷ b ∷ c ∷ d ∷ bs) = some (be_word a b c d, bs)
read_u32 _ = none

pub read_u32-be_bytes4 :
    (n : ℕ) (bs : Bytes) → n < u32_mod → read_u32 (be_bytes4 n ++ bs) ≡ some (n, bs)
unfolding read_u32
read_u32-be_bytes4 n bs h = ap (λ k. some (k, bs)) (be_word-be_bytes4 n h)

pub length-read_u32 :
    (bs : Bytes) {n : ℕ} {ys : Bytes} → read_u32 bs ≡ some (n, ys) → length bs ≡ 4 + length ys
unfolding read_u32
length-read_u32 [] h = ground arith
length-read_u32 (a ∷ []) h = ground arith
length-read_u32 (a ∷ b ∷ []) h = ground arith
length-read_u32 (a ∷ b ∷ c ∷ []) h = ground arith
length-read_u32 (a ∷ b ∷ c ∷ d ∷ bs) h = ground arith
