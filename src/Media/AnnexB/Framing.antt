-- ===== src/Media/AnnexB/Framing.antt =====
-- What a decoder reads out of the length-prefixed form.
use yard.Prelude.{
  ℕ, suc, ◌<◌, ◌%◌, ◌≡◌, refl, Option, none, some, List, [], ◌∷◌, Bytes, length, arith, map,
}
use yard.Prelude.Words.{be_word, u32_mod, read_exact, read_exact-append, be_word-be_bytes4}
use yard.Media.AnnexB.{frame, to_length_prefixed}
use yard.Media.AnnexB.Split.{CodedUnit, AllNals, annex_b, split_annex_b-annex_b}

-- The decoder's side of the format, independent of the encoder: a four-byte big-endian length, then
-- so many bytes, up to the end. Fuel bounds the units.
pub deframe : ℕ → Bytes → Option (List Bytes)
deframe fuel [] = some []
deframe (suc fuel) (a ∷ b ∷ c ∷ d ∷ bs) = elim (read_exact (be_word a b c d) bs) [
  | none ↦ none
  | some (n, rest) ↦ elim (deframe fuel rest) [ none ↦ none | some ns ↦ some (n ∷ ns) ]
]
deframe fuel bs = none

abbrev pub Short : List Bytes → Type 0
Short [] = Unit {0}
Short (n ∷ ns) = (length n < u32_mod) × Short ns

deframe-frame : (ns : List Bytes) → Short ns → deframe (length ns) (frame ns) ≡ some ns
unfolding deframe frame
deframe-frame [] h = refl
deframe-frame (n ∷ ns) h =
    let w : length n % u32_mod ≡ length n = omega arith in
    rw (w, be_word-be_bytes4 (length n) h.0, deframe)
      (rw (read_exact-append (length n) n (frame ns) refl, deframe)
        (rw (deframe-frame ns h.1, deframe)))

abbrev pub nals : List CodedUnit → List Bytes
nals us = map (λ u. u.nal) us

-- The units of an Annex-B stream come back from its length-prefixed form, each shorter than 4 GiB.
deframe-to_length_prefixed :
    (us : List CodedUnit)
    → AllNals us
    → Short (nals us)
    → deframe (length (nals us)) (to_length_prefixed (annex_b us)) ≡ some (nals us)
unfolding to_length_prefixed
deframe-to_length_prefixed us h k = rw (split_annex_b-annex_b us h) (deframe-frame (nals us) k)
