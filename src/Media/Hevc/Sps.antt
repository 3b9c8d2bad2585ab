-- ===== src/Media/Hevc/Sps.antt =====
-- packages/provider/crates/backend-ios/src/hevc.rs: the bitstream of a sequence parameter set.
use yard.Prelude.{
  ℕ, zero, suc, ◌+◌, ◌-◌, ◌*◌, ◌/◌, ◌%◌, ◌^◌, Bool, true, false, ◌&&◌, ◌||◌, not, List, [], ◌∷◌,
  ◌++◌, ◌==◌, ltb, if◌then◌else◌, Bytes, Text, codes, length, get_or, Option, none, some, drop,
}
use yard.Prelude.Words.{hex2}

-- The loop of `rbsp`: emulation prevention taken out.
unfoldable pub unescape : Bytes → Bytes
unescape (a ∷ b ∷ c ∷ rest) = elim ((a == 0) && (b == 0) && (c == 3)) [
  | true ↦ a ∷ b ∷ unescape rest
  | false ↦ a ∷ unescape (b ∷ c ∷ rest)
]
unescape bs = bs

unfoldable pub rbsp : Bytes → Bytes
rbsp nal = unescape (drop 2 nal)

pub record BitReader : Type 0 where
  pub data_ : Bytes
  pub pos : ℕ

abbrev pub bit_at : Bytes → ℕ → ℕ
bit_at bs pos = get_or bs (pos / 8) 0 / 2 ^ (7 - pos % 8) % 2

-- The loop of `bits`, on a `u64`.
unfoldable pub bits_from : ℕ → ℕ → BitReader → ℕ × BitReader
bits_from zero value r = (value, r)
bits_from (suc n) value r =
    bits_from n ((value * 2 + bit_at r.data_ r.pos) % 2 ^ 64) (record r { pos = r.pos + 1 })

abbrev pub bits : ℕ → BitReader → ℕ × BitReader
bits n r = bits_from n 0 r

abbrev pub skip : ℕ → BitReader → BitReader
skip n r = (bits n r).1

abbrev pub overran : BitReader → Bool
overran r = ltb (length r.data_ * 8) r.pos

-- The loop of `ue`, `left` being what `leading` may still grow by: at 33 the source gives up.
unfoldable pub ue_from : ℕ → ℕ → BitReader → Option (ℕ × BitReader)
ue_from zero leading r = none
ue_from (suc left) leading r =
    let b : ℕ × BitReader = bits 1 r in
    let rest : Option (ℕ × BitReader) = ue_from left (leading + 1) b.1 in
    if b.0 == 0
    then if overran b.1 then none else rest
    else let v : ℕ × BitReader = bits leading b.1 in some (2 ^ leading - 1 + v.0, v.1)

unfoldable pub ue : BitReader → Option (ℕ × BitReader)
ue r = ue_from 33 0 r

-- The presence flags of `n` sub-layers, profile and level.
unfoldable pub sub_layers : ℕ → BitReader → List (Bool × Bool) × BitReader
sub_layers zero r = ([], r)
sub_layers (suc n) r =
    let p : ℕ × BitReader = bits 1 r in
    let l : ℕ × BitReader = bits 1 p.1 in
    let rest : List (Bool × Bool) × BitReader = sub_layers n l.1 in
    ((not (p.0 == 0), not (l.0 == 0)) ∷ rest.0, rest.1)

abbrev pub reserved : ℕ → BitReader → BitReader
reserved zero r = r
reserved (suc n) r = reserved n (skip 2 r)

abbrev pub skip_layers : List (Bool × Bool) → BitReader → BitReader
skip_layers [] r = r
skip_layers (f ∷ fs) r =
    let p : BitReader = if f.0 then skip 88 r else r in skip_layers fs (if f.1 then skip 8 p else p)

abbrev pub size_of : ℕ → ℕ → BitReader → Option (ℕ × ℕ)
size_of width height r =
    if overran r || (width == 0) || (height == 0) then none else some (width, height)

-- From the first Exp-Golomb field on.
abbrev pub dimensions_at : BitReader → Option (ℕ × ℕ)
dimensions_at r = elim (ue r) [
  | none ↦ none
  | some id ↦ elim (ue id.1) [
    | none ↦ none
    | some chroma ↦ elim (ue (if chroma.0 == 3 then skip 1 chroma.1 else chroma.1)) [
      | none ↦ none
      | some width ↦ elim (ue width.1) [
        | none ↦ none
        | some height ↦ size_of width.0 height.0 height.1
      ]
    ]
  ]
]

unfoldable pub dimensions_from_sps : Bytes → Option (ℕ × ℕ)
dimensions_from_sps sps =
    let start : BitReader = record { data_ = rbsp sps; pos = 0 } in
    let max_sub_layers_minus1 : ℕ × BitReader = bits 3 (skip 4 start) in
    let n : ℕ = max_sub_layers_minus1.0 in
    let general : BitReader =
      skip 8 (skip 48 (skip 32 (skip 8 (skip 1 max_sub_layers_minus1.1)))) in
    let flags : List (Bool × Bool) × BitReader = sub_layers n general in
    let padded : BitReader = if ltb 0 n then reserved (8 - n) flags.1 else flags.1 in
    dimensions_at (skip_layers flags.0 padded)

-- Decimal digits, of a number below 1000.
abbrev pub decimal : ℕ → Text
decimal n =
    if ltb n 10
    then (48 + n) ∷ []
    else if ltb n 100
    then (48 + n / 10) ∷ (48 + n % 10) ∷ []
    else (48 + n / 100) ∷ (48 + n / 10 % 10) ∷ (48 + n % 10) ∷ []

-- `{:X}`: no leading zero but that of zero itself.
abbrev pub trim_zeros : Text → Text
trim_zeros [] = []
trim_zeros (c ∷ []) = c ∷ []
trim_zeros (c ∷ d ∷ ds) = if c == 48 then trim_zeros (d ∷ ds) else c ∷ d ∷ ds

abbrev pub hex32 : ℕ → Text
hex32 n =
    hex2 (n / 16777216 % 256)
    ++ (hex2 (n / 65536 % 256) ++ (hex2 (n / 256 % 256) ++ hex2 (n % 256)))

abbrev pub reverse_bits : ℕ → ℕ → ℕ → ℕ
reverse_bits zero n acc = acc
reverse_bits (suc k) n acc = reverse_bits k (n / 2) (acc * 2 + n % 2)

-- The six constraint bytes in hexadecimal: trailing zero bytes go, but the first stays. The bytes
-- are the number's, the lowest first.
abbrev pub constraint_text : ℕ → ℕ → Text → Bool → Text
constraint_text zero n acc kept = acc
constraint_text (suc zero) n acc kept = hex2 (n % 256) ++ acc
constraint_text (suc (suc k)) n acc kept =
    if (n % 256 == 0) && not kept
    then constraint_text (suc k) (n / 256) acc false
    else constraint_text (suc k) (n / 256) (hex2 (n % 256) ++ acc) true

abbrev pub profile_space_text : ℕ → Text
profile_space_text s =
    if s == 0
    then []
    else if s == 1
    then codes "A"
    else if s == 2
    then codes "B"
    else if s == 3
    then codes "C"
    else codes "D"

unfoldable pub codec_string_from_sps : Bytes → Option Text
codec_string_from_sps sps =
    let start : BitReader = record { data_ = rbsp sps; pos = 0 } in
    let space : ℕ × BitReader = bits 2 (skip 1 (skip 3 (skip 4 start))) in
    let tier : ℕ × BitReader = bits 1 space.1 in
    let profile : ℕ × BitReader = bits 5 tier.1 in
    let pcf : ℕ × BitReader = bits 32 profile.1 in
    let cif : ℕ × BitReader = bits 48 pcf.1 in
    let level : ℕ × BitReader = bits 8 cif.1 in
    if overran level.1
    then none
    else some (
        codes "hev1."
        ++ (profile_space_text space.0
            ++ (decimal profile.0
                ++ (codes "."
                    ++ (trim_zeros (hex32 (reverse_bits 32 pcf.0 0))
                        ++ (codes "."
                            ++ ((if tier.0 == 0 then codes "L" else codes "H")
                                ++ (decimal level.0
                                    ++ (codes "." ++ constraint_text 6 cif.0 [] false)))))))))
