-- ===== src/Media/Hevc/Sets.antt =====
-- packages/provider/crates/backend-ios/src/hevc.rs: the parameter sets seen so far, and the record
-- that describes the stream to a decoder (ISO/IEC 14496-15).
use yard.Prelude.{
  ℕ, ◌%◌, Bool, true, false, ◌&&◌, ◌∷◌, ◌++◌, ◌==◌, leb, if◌then◌else◌, Bytes, Text, length, take,
  drop, get_or, Option, none, some, is_some,
}
use yard.Prelude.Words.{be_bytes2, u16_mod}
use yard.Media.Hevc.{nal_type, nal_vps, nal_sps, nal_pps}
use yard.Media.Hevc.Sps.{rbsp, dimensions_from_sps, codec_string_from_sps}

pub record ParameterSets : Type 0 where
  pub vps : Option Bytes
  pub sps : Option Bytes
  pub pps : Option Bytes
  pub codec_string : Option Text
  pub dimensions : Option (ℕ × ℕ)

-- `if self.field.is_none() { self.field = found }`.
abbrev pub or_else {ℓ} : {A : Type ℓ} → Option A → Option A → Option A
or_else none found = found
or_else (some a) found = some a

unfoldable pub observe : ParameterSets → Bytes → Bool × ParameterSets
observe s nal =
    if nal_type nal == nal_vps
    then (true, record s { vps = some nal })
    else if nal_type nal == nal_pps
    then (true, record s { pps = some nal })
    else if nal_type nal == nal_sps
    then (
      true,
      record s {
        sps = some nal;
        dimensions = or_else s.dimensions (dimensions_from_sps nal);
        codec_string = or_else s.codec_string (codec_string_from_sps nal);
      },
    )
    else (false, s)

unfoldable pub is_complete : ParameterSets → Bool
is_complete s = is_some s.vps && is_some s.sps && is_some s.pps && is_some s.codec_string

-- One array of the record: its unit type, one unit, the unit's length, the unit.
abbrev pub array_of : ℕ → Bytes → Bytes
array_of type_ nal = type_ ∷ 0 ∷ 1 ∷ (be_bytes2 (length nal % u16_mod) ++ nal)

abbrev pub arrays : Bytes → Bytes → Bytes → Bytes
arrays vps sps pps = array_of nal_vps vps ++ (array_of nal_sps sps ++ array_of nal_pps pps)

-- `sps_rbsp.get(1..13)`.
abbrev pub profile_tier_level : Bytes → Option Bytes
profile_tier_level sps =
    if leb 13 (length (rbsp sps)) then some (take 12 (drop 1 (rbsp sps))) else none

unfoldable pub decoder_configuration_record : Bytes → Bytes → Bytes → Option Bytes
decoder_configuration_record vps sps pps = elim (profile_tier_level sps) [
  | none ↦ none
  | some ptl ↦ some (
      1
      ∷ get_or ptl 0 0
      ∷ (take 4 (drop 1 ptl)
          ++ (take 6 (drop 5 ptl)
              ++ (get_or ptl 11 0
                  ∷ 0xF0
                  ∷ 0x00
                  ∷ 0xFC
                  ∷ 0xFD
                  ∷ 0xF8
                  ∷ 0xF8
                  ∷ 0
                  ∷ 0
                  ∷ 0x0B
                  ∷ 3
                  ∷ arrays vps sps pps))))
]

unfoldable pub description : ParameterSets → Option (Text × Bytes)
description s = elim s.vps [
  | none ↦ none
  | some vps ↦ elim s.sps [
    | none ↦ none
    | some sps ↦ elim s.pps [
      | none ↦ none
      | some pps ↦ elim s.codec_string [
        | none ↦ none
        | some codec ↦ elim (decoder_configuration_record vps sps pps) [
          | none ↦ none
          | some r ↦ some (codec, r)
        ]
      ]
    ]
  ]
]
