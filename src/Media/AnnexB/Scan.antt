-- ===== src/Media/AnnexB/Scan.antt =====
-- Where the start codes of a well-formed Annex-B stream are found.
use yard.Prelude.{ℕ, ◌+◌, ◌≡◌, refl, ap, ◌∙◌, false, [], ◌∷◌, ◌++◌, Bytes, length, arith}
use yard.Media.AnnexB.{is_code, starts}

-- No start code lies inside.
abbrev pub NoCode : Bytes → Type 0
NoCode (a ∷ b ∷ c ∷ rest) = (is_code a b c ≡ false) × NoCode (b ∷ c ∷ rest)
NoCode _ = Unit {0}

starts_skip :
    (i a b c : ℕ) (rest : Bytes)
    → is_code a b c ≡ false
    → starts i (a ∷ b ∷ c ∷ rest) ≡ starts (i + 1) (b ∷ c ∷ rest)
unfolding starts
starts_skip i a b c rest h = rw (h, starts)

pub starts_code : (i : ℕ) (rest : Bytes) → starts i (0 ∷ 0 ∷ 1 ∷ rest) ≡ i ∷ starts (i + 3) rest
unfolding starts
starts_code i rest = refl

pub starts_code4 :
    (i : ℕ) (rest : Bytes) → starts i (0 ∷ 0 ∷ 0 ∷ 1 ∷ rest) ≡ (i + 1) ∷ starts (i + 4) rest
starts_code4 i rest =
    starts_skip i 0 0 0 (1 ∷ rest) refl
    ∙ starts_code (i + 1) rest
    ∙ ap (λ k. (i + 1) ∷ starts k rest) (omega arith)

not_code : (a b : ℕ) → is_code a b 0 ≡ false
not_code a b = ground arith

-- Scanning runs through a unit without a start code up to the zeros of the next one.
pub starts-append :
    (i : ℕ) (n rest : Bytes)
    → NoCode n
    → starts i (n ++ (0 ∷ 0 ∷ rest)) ≡ starts (i + length n) (0 ∷ 0 ∷ rest)
starts-append i [] rest h = ap (λ k. starts k (0 ∷ 0 ∷ rest)) (omega arith)
starts-append i (a ∷ []) rest h = starts_skip i a 0 0 rest (not_code a 0)
starts-append i (a ∷ b ∷ []) rest h =
    starts_skip i a b 0 (0 ∷ rest) (not_code a b)
    ∙ starts-append (i + 1) (b ∷ []) rest tt
    ∙ ap (λ k. starts k (0 ∷ 0 ∷ rest)) (omega arith)
starts-append i (a ∷ b ∷ c ∷ n) rest h =
    starts_skip i a b c (n ++ (0 ∷ 0 ∷ rest)) h.0
    ∙ starts-append (i + 1) (b ∷ c ∷ n) rest h.1
    ∙ ap (λ k. starts k (0 ∷ 0 ∷ rest)) (omega arith)

pub starts_none : (i : ℕ) (n : Bytes) → NoCode n → starts i n ≡ []
unfolding starts
starts_none i [] h = refl
starts_none i (a ∷ []) h = refl
starts_none i (a ∷ b ∷ []) h = refl
starts_none i (a ∷ b ∷ c ∷ n) h = starts_skip i a b c n h.0 ∙ starts_none (i + 1) (b ∷ c ∷ n) h.1
