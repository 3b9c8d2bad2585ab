-- ===== src/Media/AnnexB/Sets.antt =====
-- The parameter sets of a config packet, and the avcC record made of them.
use yard.Prelude.{
  ℕ, ◌+◌, ◌*◌, ◌/◌, ◌≤◌, ◌<◌, ◌%◌, ◌≡◌, refl, ◌∙◌, Option, none, some, List, [], ◌∷◌, ◌++◌, Bytes,
  length, arith, ◌==◌, if◌then◌else◌,
}
use mathlib.Core.List.{append-nil}
use yard.Prelude.Words.{u16_mod, be_bytes2, read_exact, read_exact-append}
use yard.Media.AnnexB.{
  nal_type, nal_sps, nal_pps, ParameterSets, collect, both, parse, avcc, record_bytes,
}
use yard.Media.AnnexB.Split.{CodedUnit, AllNals, annex_b, split_annex_b-annex_b}
use yard.Media.AnnexB.Framing.{nals}

-- The last unit of a type.
abbrev pub last_of : ℕ → List Bytes → Option Bytes
last_of t [] = none
last_of t (n ∷ ns) = elim (last_of t ns) [
  | some m ↦ some m
  | none ↦ if nal_type n == t then some n else none
]

abbrev or_else : Option Bytes → Option Bytes → Option Bytes
or_else (some m) o = some m
or_else none o = o

collect-last_of :
    (ns : List Bytes) (s p : Option Bytes)
    → collect ns s p ≡ (or_else (last_of nal_sps ns) s, or_else (last_of nal_pps ns) p)
unfolding collect
collect-last_of [] s p = refl
collect-last_of (n ∷ ns) s p = collect-last_of ns _ _ ∙ ground arith

or_else-none : (o : Option Bytes) → or_else o none ≡ o
or_else-none none = refl
or_else-none (some m) = refl

-- A config packet yields its last SPS with its last PPS, and nothing unless it has both.
parse-annex_b :
    (us : List CodedUnit)
    → AllNals us
    → parse (annex_b us) ≡ both (last_of nal_sps (nals us), last_of nal_pps (nals us))
unfolding parse
parse-annex_b us h = rw (
  split_annex_b-annex_b us h,
  collect-last_of (nals us) none none,
  or_else-none (last_of nal_sps (nals us)),
  or_else-none (last_of nal_pps (nals us)),
)

-- The reader's side of the record, independent of the writer.
read_sets : Bytes → Option (Bytes × Bytes)
read_sets (a ∷ b ∷ bs) = read_exact (256 * a + b) bs
read_sets _ = none

read_pps : Bytes → Bytes → Option ParameterSets
read_pps sps (count ∷ bs) = elim (read_sets bs) [
  | none ↦ none
  | some (pps, rest) ↦ some (record { sps = sps; pps = pps })
]
read_pps sps [] = none

pub read_avcc : Bytes → Option ParameterSets
read_avcc (v ∷ profile ∷ constraints ∷ level ∷ lengths ∷ count ∷ bs) = elim (read_sets bs) [
  | none ↦ none
  | some (sps, rest) ↦ read_pps sps rest
]
read_avcc _ = none

read_sets-append :
    (xs ys : Bytes)
    → length xs < u16_mod
    → read_sets (be_bytes2 (length xs % u16_mod) ++ (xs ++ ys)) ≡ some (xs, ys)
unfolding read_sets
read_sets-append xs ys h =
    let w : 256 * (length xs % u16_mod / 256 % 256) + length xs % u16_mod % 256 ≡ length xs =
      omega arith in
    rw w (read_exact-append (length xs) xs ys refl)

length-four :
    {A : Type 0} (xs : List A)
    → 4 ≤ length xs
    → (a b c d : A) × (rest : List A) × (xs ≡ a ∷ b ∷ c ∷ d ∷ rest)
length-four [] h = absurd (omega arith)
length-four (a ∷ []) h = absurd (omega arith)
length-four (a ∷ b ∷ []) h = absurd (omega arith)
length-four (a ∷ b ∷ c ∷ []) h = absurd (omega arith)
length-four (a ∷ b ∷ c ∷ d ∷ rest) h = (a, b, c, d, rest, refl)

read_pps_lem :
    (sets : ParameterSets)
    → length sets.pps < u16_mod
    → read_pps sets.sps (1 ∷ (be_bytes2 (length sets.pps % u16_mod) ++ sets.pps)) ≡ some sets
unfolding read_pps
read_pps_lem sets h = ground (arith, read_sets-append sets.pps [] h, append-nil sets.pps)

read_avcc-record_bytes :
    (sets : ParameterSets) (a b c : ℕ)
    → length sets.sps < u16_mod
    → length sets.pps < u16_mod
    → read_avcc (record_bytes sets a b c) ≡ some sets
unfolding read_avcc
read_avcc-record_bytes sets a b c hs hp =
    let tail = be_bytes2 (length sets.pps % u16_mod) ++ sets.pps in
    let e = read_sets-append sets.sps (1 ∷ tail) hs in ground (arith, e, read_pps_lem sets hp)

-- From an SPS of at least four bytes the record is built, and a reader of it gets both sets back,
-- where each is shorter than 64 KiB.
read_avcc-avcc :
    (sets : ParameterSets)
    → 4 ≤ length sets.sps
    → length sets.sps < u16_mod
    → length sets.pps < u16_mod
    → (r : Bytes) × (avcc sets ≡ some r) × (read_avcc r ≡ some sets)
unfolding avcc
read_avcc-avcc sets h hs hp =
    let (a, b, c, d, rest, e) = length-four sets.sps h in
    (record_bytes sets b c d, rw e, read_avcc-record_bytes sets b c d hs hp)
