-- ===== src/Tests/Media.antt =====
-- The config packet of a Galaxy S25+, as the source's tests have it.
use yard.Prelude.{◌≡◌, refl, true, false, some, List, [], ◌∷◌, Bytes, arith, map}
use yard.Media.AnnexB.{nal_type, starts, units, split_annex_b, collect, ParameterSets, parse}
use yard.Media.AnnexB.Split.{CodedUnit, AllNals, annex_b, split_annex_b-annex_b}

abbrev sps : Bytes
sps =
    0x67 ∷ 0x64 ∷ 0x00 ∷ 0x20 ∷ 0xac ∷ 0xb4 ∷ 0x0f ∷ 0x01 ∷ 0x03 ∷ 0xcb ∷ 0xcd ∷ 0x41 ∷ 0x41 ∷ 0x81
    ∷ 0x41 ∷ 0xb4 ∷ 0x28 ∷ 0x4d ∷ 0x40 ∷ []

abbrev pps : Bytes
pps = 0x68 ∷ 0xee ∷ 0x06 ∷ 0xf2 ∷ 0xc0 ∷ []

abbrev config : List CodedUnit
config = record { long = true; nal = sps } ∷ record { long = false; nal = pps } ∷ []

abbrev sets : ParameterSets
sets = record { sps = sps; pps = pps }

config-AllNals : AllNals config
config-AllNals = ground arith

split_config : split_annex_b (annex_b config) ≡ sps ∷ pps ∷ []
unfolding split_annex_b starts units
split_config = refl

parse-config : parse (annex_b config) ≡ some sets
unfolding parse split_annex_b starts units collect nal_type
parse-config = refl

split_annex_b-annex_b_example : split_annex_b (annex_b config) ≡ map (λ u. u.nal) config
split_annex_b-annex_b_example = split_annex_b-annex_b config config-AllNals
