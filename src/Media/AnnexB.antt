-- ===== src/Media/AnnexB.antt =====
-- packages/provider/crates/backend-android/src/h264.rs: Annex-B to length-prefixed NAL units, and
-- the parameter sets with their avcC record.
pub mod Scan
pub mod Split
pub mod Framing
pub mod Sets
use yard.Prelude.{
  ℕ, zero, suc, ◌+◌, ◌-◌, ◌%◌, Bool, true, false, ◌&&◌, Option, none, some, List, [], ◌∷◌, ◌++◌,
  ◌==◌, ltb, if◌then◌else◌, Bytes, length, get_or, get_elem?, take, drop,
}
use yard.Prelude.Words.{be_bytes4, be_bytes2, u32_mod, u16_mod, hex2}
use yard.Prelude.{Text, codes}

abbrev pub nal_sps : ℕ
nal_sps = 7

abbrev pub nal_pps : ℕ
nal_pps = 8

-- The low five bits of the first byte; 0 for an empty unit.
unfoldable pub nal_type : Bytes → ℕ
nal_type [] = 0
nal_type (b ∷ bs) = b % 32

abbrev pub is_code : ℕ → ℕ → ℕ → Bool
is_code a b c = (a == 0) && (b == 0) && (c == 1)

-- The positions of the start codes at or behind position `i`, where the given bytes begin.
unfoldable pub starts : ℕ → Bytes → List ℕ
starts i (a ∷ b ∷ c ∷ rest) = elim (is_code a b c) [
  | true ↦ i ∷ starts (i + 3) rest
  | false ↦ starts (i + 1) (b ∷ c ∷ rest)
]
starts i _ = []

-- Where a unit ends that the start code at `next` follows: the extra zero of a four-byte code
-- belongs to the code.
abbrev pub unit_end : Bytes → ℕ → ℕ
unit_end bs next = if ltb 0 next && (get_or bs (next - 1) 0 == 0) then next - 1 else next

-- `(from < to).then(|| &data[from..to])`, before the units that follow.
abbrev pub push_slice : Bytes → ℕ → ℕ → List Bytes → List Bytes
push_slice bs from to rest = if ltb from to then take (to - from) (drop from bs) ∷ rest else rest

unfoldable pub units : Bytes → List ℕ → List Bytes
units bs [] = []
units bs (s ∷ []) = push_slice bs (s + 3) (length bs) []
units bs (s ∷ t ∷ ts) = push_slice bs (s + 3) (unit_end bs t) (units bs (t ∷ ts))

unfoldable pub split_annex_b : Bytes → List Bytes
split_annex_b bs = units bs (starts 0 bs)

-- Each unit behind its length, as four big-endian bytes.
unfoldable pub frame : List Bytes → Bytes
frame [] = []
frame (n ∷ ns) = be_bytes4 (length n % u32_mod) ++ (n ++ frame ns)

unfoldable pub to_length_prefixed : Bytes → Bytes
to_length_prefixed bs = frame (split_annex_b bs)

pub record ParameterSets : Type 0 where
  pub sps : Bytes
  pub pps : Bytes

-- The loop of `parse`: the last unit of each type is kept.
unfoldable pub collect : List Bytes → Option Bytes → Option Bytes → Option Bytes × Option Bytes
collect [] sps pps = (sps, pps)
collect (n ∷ ns) sps pps =
    collect ns (if nal_type n == nal_sps then some n else sps)
      (if nal_type n == nal_pps then some n else pps)

abbrev pub both : Option Bytes × Option Bytes → Option ParameterSets
both (some s, some p) = some (record { sps = s; pps = p })
both (some s, none) = none
both (none, p) = none

unfoldable pub parse : Bytes → Option ParameterSets
parse config = both (collect (split_annex_b config) none none)

abbrev pub record_bytes : ParameterSets → ℕ → ℕ → ℕ → Bytes
record_bytes sets profile constraints level =
    1
    ∷ profile
    ∷ constraints
    ∷ level
    ∷ 0xFF
    ∷ 0xE1
    ∷ (be_bytes2 (length sets.sps % u16_mod)
        ++ (sets.sps ++ (1 ∷ (be_bytes2 (length sets.pps % u16_mod) ++ sets.pps))))

-- The `AVCDecoderConfigurationRecord`.
unfoldable pub avcc : ParameterSets → Option Bytes
avcc sets = elim (get_elem? sets.sps 1) [
  | none ↦ none
  | some profile ↦ elim (get_elem? sets.sps 2) [
    | none ↦ none
    | some constraints ↦ elim (get_elem? sets.sps 3) [
      | none ↦ none
      | some level ↦ some (record_bytes sets profile constraints level)
    ]
  ]
]

-- `avc1.` and three bytes of the sequence parameter set in hexadecimal.
unfoldable pub codec_string : ParameterSets → Option Text
codec_string sets = elim (get_elem? sets.sps 1) [
  | none ↦ none
  | some profile ↦ elim (get_elem? sets.sps 2) [
    | none ↦ none
    | some constraints ↦ elim (get_elem? sets.sps 3) [
      | none ↦ none
      | some level ↦ some (codes "avc1." ++ (hex2 profile ++ (hex2 constraints ++ hex2 level)))
    ]
  ]
]
