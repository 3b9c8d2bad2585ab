-- ===== src/Media/Hevc/Escape.antt =====
-- Emulation prevention: the encoder's side of it, taken out again.
use yard.Prelude.{
  ℕ, zero, suc, ◌≡◌, refl, ap, ◌∙◌, true, false, [], ◌∷◌, ◌==◌, leb, Bytes, arith, Bool-cases, inl,
  inr,
}
use yard.Media.Hevc.Sps.{unescape, rbsp}

-- H.265 7.4.2: behind two zero bytes a byte of at most 3 gets a 3 before it.
unfoldable pub escape : Bytes → Bytes
escape (zero ∷ zero ∷ b ∷ bs) = elim (leb b 3) [
  | true ↦ 0 ∷ 0 ∷ 3 ∷ escape (b ∷ bs)
  | false ↦ 0 ∷ 0 ∷ b ∷ escape bs
]
escape (a ∷ bs) = a ∷ escape bs
escape [] = []

unescape_other : (a : ℕ) (bs : Bytes) → (a == 0) ≡ false → unescape (a ∷ bs) ≡ a ∷ unescape bs
unfolding unescape
unescape_other a [] h = refl
unescape_other a (b ∷ []) h = refl
unescape_other a (b ∷ c ∷ bs) h = rw (h, unescape) refl

unescape_one_zero :
    (b : ℕ) (bs : Bytes) → (b == 0) ≡ false → unescape (0 ∷ b ∷ bs) ≡ 0 ∷ b ∷ unescape bs
unfolding unescape
unescape_one_zero b [] h = refl
unescape_one_zero b (c ∷ bs) h = rw (h, unescape) (ap (◌∷◌ 0) (unescape_other b (c ∷ bs) h))

unescape_two_zeros :
    (b : ℕ) (bs : Bytes) → leb b 3 ≡ false → unescape (0 ∷ 0 ∷ b ∷ bs) ≡ 0 ∷ 0 ∷ b ∷ unescape bs
unfolding unescape
unescape_two_zeros b bs h =
    let three : (b == 3) ≡ false = ground arith in
    let none_ : (b == 0) ≡ false = ground arith in
    rw (three, unescape) (ap (◌∷◌ 0) (unescape_one_zero b bs none_))

unescape_emulated : (bs : Bytes) → unescape (0 ∷ 0 ∷ 3 ∷ bs) ≡ 0 ∷ 0 ∷ unescape bs
unfolding unescape
unescape_emulated bs = refl

unescape-escape : (bs : Bytes) → unescape (escape bs) ≡ bs
unfolding escape unescape
unescape-escape [] = refl
unescape-escape (suc a ∷ bs) =
    unescape_other (suc a) (escape bs) (ground arith) ∙ ap (◌∷◌ (suc a)) (unescape-escape bs)
unescape-escape (zero ∷ []) = refl
unescape-escape (zero ∷ suc c ∷ bs) =
    unescape_one_zero (suc c) (escape bs) (ground arith)
    ∙ ap (λ xs. 0 ∷ suc c ∷ xs) (unescape-escape bs)
unescape-escape (zero ∷ zero ∷ []) = refl
unescape-escape (zero ∷ zero ∷ b ∷ bs) = elim (Bool-cases (leb b 3)) [
  | inl h ↦
      rw (h, escape)
        (unescape_emulated (escape (b ∷ bs)) ∙ ap (λ xs. 0 ∷ 0 ∷ xs) (unescape-escape (b ∷ bs)))
  | inr h ↦
      rw (h, escape)
        (unescape_two_zeros b (escape bs) h ∙ ap (λ xs. 0 ∷ 0 ∷ b ∷ xs) (unescape-escape bs))
]

-- A unit with its two header bytes, its payload protected as the standard says, gives back that
-- payload.
pub rbsp-escape : (first second : ℕ) (bs : Bytes) → rbsp (first ∷ second ∷ escape bs) ≡ bs
unfolding rbsp
rbsp-escape first second bs = unescape-escape bs
