-- ===== src/Media/Hevc/Hvcc.antt =====
-- A reader of the decoder configuration record, independent of its writer.
use yard.Prelude.{
  ℕ, ◌+◌, ◌*◌, ◌/◌, ◌%◌, ◌<◌, ◌≤◌, ◌≡◌, refl, ap, ◌∙◌, true, Option, none, some, [], ◌∷◌, ◌++◌,
  ◌==◌, if◌then◌else◌, Bytes, arith, length, take, drop, get_or, leb, ◌&&◌, sym, length-take,
  length-drop,
}
use yard.Prelude.Words.{u16_mod, read_exact, read_exact-append}
use mathlib.Core.List.{append-nil}
use yard.Media.Hevc.Sps.{rbsp}
use yard.Media.Hevc.Sets.{decoder_configuration_record, array_of, arrays}

-- What a decoder takes from the record: the twelve bytes of profile, tier and level, and the sets.
pub record Config : Type 0 where
  pub level : Bytes
  pub vps : Bytes
  pub sps : Bytes
  pub pps : Bytes

-- One array of a unit, of the given type.
unfoldable pub read_array : ℕ → Bytes → Option (Bytes × Bytes)
read_array type_ (t ∷ upper ∷ lower ∷ hi ∷ lo ∷ bs) =
    if (t == type_) && (upper == 0) && (lower == 1) then read_exact (256 * hi + lo) bs else none
read_array type_ _ = none

read_arrays : Bytes → Bytes → Option Config
read_arrays level bs = elim (read_array 32 bs) [
  | none ↦ none
  | some v ↦ elim (read_array 33 v.1) [
    | none ↦ none
    | some s ↦ elim (read_array 34 s.1) [
      | none ↦ none
      | some p ↦ some (record { level = level; vps = v.0; sps = s.0; pps = p.0 })
    ]
  ]
]

-- The version, the twelve bytes, nine more that are fixed, and the number of the arrays.
pub read_hvcc : Bytes → Option Config
read_hvcc [] = none
read_hvcc (version ∷ bs) =
    if (version == 1) && leb 22 (length bs) && (get_or bs 20 0 == 11) && (get_or bs 21 0 == 3)
    then read_arrays (take 12 bs) (drop 22 bs)
    else none

read_array-array_of :
    (t : ℕ) (n bs : Bytes) → length n < u16_mod → read_array t (array_of t n ++ bs) ≡ some (n, bs)
unfolding read_array
read_array-array_of t n bs h =
    let w : 256 * (length n % u16_mod / 256 % 256) + length n % u16_mod % 256 ≡ length n =
      omega arith in
    let s : (t == t) ≡ true = ground arith in rw (s, w) (read_exact-append (length n) n bs refl)

-- The record in front of its arrays, for the twelve bytes of profile, tier and level.
read_hvcc-profile :
    (ptl bs : Bytes)
    → length ptl ≡ 12
    → read_hvcc (
        1
        ∷ get_or ptl 0 0
        ∷ (take 4 (drop 1 ptl)
            ++ (take 6 (drop 5 ptl)
                ++ (get_or ptl 11 0
                    ∷ 0xF0
                    ∷ 0x00
                    ∷ 0xFC
                    ∷ 0xFD
                    ∷ 0xF8
                    ∷ 0xF8
                    ∷ 0
                    ∷ 0
                    ∷ 0x0B
                    ∷ 3
                    ∷ bs))))
      ≡ read_arrays ptl bs
unfolding read_hvcc
read_hvcc-profile [] bs q = absurd (omega arith)
read_hvcc-profile (a ∷ []) bs q = absurd (omega arith)
read_hvcc-profile (a ∷ b ∷ []) bs q = absurd (omega arith)
read_hvcc-profile (a ∷ b ∷ c ∷ []) bs q = absurd (omega arith)
read_hvcc-profile (a ∷ b ∷ c ∷ d ∷ []) bs q = absurd (omega arith)
read_hvcc-profile (a ∷ b ∷ c ∷ d ∷ e ∷ []) bs q = absurd (omega arith)
read_hvcc-profile (a ∷ b ∷ c ∷ d ∷ e ∷ f ∷ []) bs q = absurd (omega arith)
read_hvcc-profile (a ∷ b ∷ c ∷ d ∷ e ∷ f ∷ g ∷ []) bs q = absurd (omega arith)
read_hvcc-profile (a ∷ b ∷ c ∷ d ∷ e ∷ f ∷ g ∷ h ∷ []) bs q = absurd (omega arith)
read_hvcc-profile (a ∷ b ∷ c ∷ d ∷ e ∷ f ∷ g ∷ h ∷ i ∷ []) bs q = absurd (omega arith)
read_hvcc-profile (a ∷ b ∷ c ∷ d ∷ e ∷ f ∷ g ∷ h ∷ i ∷ j ∷ []) bs q = absurd (omega arith)
read_hvcc-profile (a ∷ b ∷ c ∷ d ∷ e ∷ f ∷ g ∷ h ∷ i ∷ j ∷ k ∷ []) bs q = absurd (omega arith)
read_hvcc-profile (a ∷ b ∷ c ∷ d ∷ e ∷ f ∷ g ∷ h ∷ i ∷ j ∷ k ∷ l ∷ []) bs q = ground arith
read_hvcc-profile (a ∷ b ∷ c ∷ d ∷ e ∷ f ∷ g ∷ h ∷ i ∷ j ∷ k ∷ l ∷ m ∷ rest) bs q =
    absurd (omega arith)

read_arrays-arrays :
    (level vps sps pps : Bytes)
    → length vps < u16_mod
    → length sps < u16_mod
    → length pps < u16_mod
    → read_arrays level (arrays vps sps pps)
      ≡ some (record { level = level; vps = vps; sps = sps; pps = pps })
unfolding read_arrays
read_arrays-arrays level vps sps pps h k l =
    let e : read_array 34 (array_of 34 pps) ≡ some (pps, []) =
      ap (read_array 34) (sym (append-nil (array_of 34 pps))) ∙ read_array-array_of 34 pps [] l in
    rw (read_array-array_of 32 vps (array_of 33 sps ++ array_of 34 pps) h, read_arrays)
      (rw (read_array-array_of 33 sps (array_of 34 pps) k, read_arrays) (rw (e, read_arrays) refl))

-- Where the payload of the SPS has thirteen bytes the record is built, and a reader of it gets the
-- profile, tier and level that the SPS has and all three sets, each shorter than 64 KiB.
pub read_hvcc-decoder_configuration_record :
    (vps sps pps : Bytes)
    → 13 ≤ length (rbsp sps)
    → length vps < u16_mod
    → length sps < u16_mod
    → length pps < u16_mod
    → (r : Bytes) × (decoder_configuration_record vps sps pps ≡ some r)
      × (read_hvcc r
          ≡ some (record { level = take 12 (drop 1 (rbsp sps)); vps = vps; sps = sps; pps = pps }))
unfolding decoder_configuration_record
read_hvcc-decoder_configuration_record vps sps pps h k l m =
    let ptl : Bytes = take 12 (drop 1 (rbsp sps)) in
    let long : leb 13 (length (rbsp sps)) ≡ true = ground arith in
    let twelve : length ptl ≡ 12 =
      omega (arith, length-take 12 (drop 1 (rbsp sps)), length-drop 1 (rbsp sps)) in
    (
      _,
      rw (long, decoder_configuration_record) refl,
      read_hvcc-profile ptl (arrays vps sps pps) twelve ∙ read_arrays-arrays ptl vps sps pps k l m,
    )
