-- ===== src/Media/AnnexB/Split.antt =====
-- `split_annex_b` of a stream that an encoder writes.
use yard.Prelude.{
  ℕ, zero, suc, ◌+◌, ◌-◌, ◌<◌, ◌≡◌, ◌≢◌, refl, sym, ap, ◌∙◌, Bool, true, false, List, [], ◌∷◌, ◌++◌,
  Bytes, length, get_or, arith, length-append, get_or-append, drop-append, take-append, map,
}
use yard.Media.AnnexB.{starts, units, unit_end, push_slice, split_annex_b}
use yard.Media.AnnexB.Scan.{NoCode, starts_code, starts_code4, starts-append, starts_none}
use mathlib.Core.List.{append_assoc, append-nil}

-- A unit and the length of the start code before it: four bytes, or three.
pub record CodedUnit : Type 0 where
  pub long : Bool
  pub nal : Bytes

-- The last byte is not zero, which also says that there is one.
abbrev pub EndsNonzero : Bytes → Type 0
EndsNonzero [] = ⊥
EndsNonzero (a ∷ []) = a ≢ 0
EndsNonzero (a ∷ b ∷ r) = EndsNonzero (b ∷ r)

abbrev pub IsNal : Bytes → Type 0
IsNal n = NoCode n × EndsNonzero n

abbrev pub AllNals : List CodedUnit → Type 0
AllNals [] = Unit {0}
AllNals (u ∷ us) = IsNal u.nal × AllNals us

abbrev pub start_code : Bool → Bytes → Bytes
start_code true rest = 0 ∷ 0 ∷ 0 ∷ 1 ∷ rest
start_code false rest = 0 ∷ 0 ∷ 1 ∷ rest

abbrev pub annex_b : List CodedUnit → Bytes
annex_b [] = []
annex_b (u ∷ us) = start_code u.long (u.nal ++ annex_b us)

abbrev extra : Bool → ℕ
extra true = 1
extra false = 0

-- The positions of the codes in `annex_b us`, placed at `i`.
abbrev codes : ℕ → List CodedUnit → List ℕ
codes i [] = []
codes i (u ∷ us) = (i + extra u.long) ∷ codes (i + extra u.long + 3 + length u.nal) us

starts-start_code :
    (i : ℕ) (long : Bool) (rest : Bytes)
    → starts i (start_code long rest) ≡ (i + extra long) ∷ starts (i + extra long + 3) rest
starts-start_code i true rest =
    starts_code4 i rest ∙ ap (λ k. (i + 1) ∷ starts k rest) (omega arith)
starts-start_code i false rest =
    starts_code i rest ∙ ap (λ k. k ∷ starts (k + 3) rest) (omega arith)

starts_nal :
    (i : ℕ) (n : Bytes) (us : List CodedUnit)
    → NoCode n
    → starts i (n ++ annex_b us) ≡ starts (i + length n) (annex_b us)
starts_nal i n [] h = rw append-nil (starts_none i n h ∙ sym (starts_none (i + length n) [] tt))
starts_nal i n (u ∷ us) h = go u.long u.nal
  where
    go :
        (long : Bool) (m : Bytes)
        → starts i (n ++ start_code long (m ++ annex_b us))
          ≡ starts (i + length n) (start_code long (m ++ annex_b us))
    go true m = starts-append i n (0 ∷ 1 ∷ (m ++ annex_b us)) h
    go false m = starts-append i n (1 ∷ (m ++ annex_b us)) h

starts-annex_b : (i : ℕ) (us : List CodedUnit) → AllNals us → starts i (annex_b us) ≡ codes i us
starts-annex_b i [] h = starts_none i [] tt
starts-annex_b i (u ∷ us) h =
    starts-start_code i u.long (u.nal ++ annex_b us)
    ∙ ap (◌∷◌ (i + extra u.long)) (
        starts_nal (i + extra u.long + 3) u.nal us h.0.0
        ∙ starts-annex_b (i + extra u.long + 3 + length u.nal) us h.1)

code_bytes : Bool → Bytes
code_bytes true = 0 ∷ 0 ∷ 0 ∷ 1 ∷ []
code_bytes false = 0 ∷ 0 ∷ 1 ∷ []

start_code-append : (long : Bool) (rest : Bytes) → start_code long rest ≡ code_bytes long ++ rest
unfolding code_bytes
start_code-append true rest = refl
start_code-append false rest = refl

length-code_bytes : (long : Bool) → length (code_bytes long) ≡ 3 + extra long
unfolding code_bytes
length-code_bytes true = refl
length-code_bytes false = refl

EndsNonzero-length : (n : Bytes) → EndsNonzero n → 0 < length n
EndsNonzero-length [] h = absurd h
EndsNonzero-length (a ∷ n) h = omega arith

get_or_last : (n r : Bytes) (i : ℕ) → EndsNonzero n → suc i ≡ length n → get_or (n ++ r) i 0 ≢ 0
get_or_last [] r i h e = absurd h
get_or_last (a ∷ []) r zero h e = h
get_or_last (a ∷ []) r (suc i) h e = absurd (omega arith)
get_or_last (a ∷ b ∷ n) r zero h e = absurd (omega arith)
get_or_last (a ∷ b ∷ n) r (suc i) h e = get_or_last (b ∷ n) r i h (omega arith)

push_slice_lem :
    (p n r : Bytes) (from to : ℕ) (rest : List Bytes)
    → length p ≡ from
    → to ≡ from + length n
    → 0 < length n
    → push_slice (p ++ (n ++ r)) from to rest ≡ n ∷ rest
push_slice_lem p n r from to rest e f h =
    rw (← e, f, ← e, drop-append p (n ++ r))
      (let w : length p + length n - length p ≡ length n = omega arith in
        rw (w, take-append n r) (ground arith))

unit_end_lem :
    (p n rest : Bytes) (long : Bool) (to : ℕ)
    → EndsNonzero n
    → to ≡ length p + length n
    → unit_end (p ++ (n ++ start_code long rest)) (to + extra long) ≡ to
unit_end_lem p n rest true to h e =
    let z = get_or-append p (n ++ (0 ∷ 0 ∷ 0 ∷ 1 ∷ rest)) to (length n) 0 e in
    let y = get_or-append n (0 ∷ 0 ∷ 0 ∷ 1 ∷ rest) (length n) 0 0 (omega arith) in
    let x : to + 1 - 1 ≡ to = omega arith in rw (x, z, y) (ground arith)
unit_end_lem p n rest false to h e =
    let l = EndsNonzero-length n h in
    let z = get_or-append p (n ++ (0 ∷ 0 ∷ 1 ∷ rest)) (to - 1) (length n - 1) 0 (omega arith) in
    let y = get_or_last n (0 ∷ 0 ∷ 1 ∷ rest) (length n - 1) h (omega arith) in
    let x : to + 0 ≡ to = omega arith in rw (x, z) (ground arith)

behind_code :
    (pre : Bytes) (long : Bool) (rest : Bytes)
    → pre ++ start_code long rest ≡ (pre ++ code_bytes long) ++ rest
behind_code pre long rest =
    rw (start_code-append long rest) (sym (append_assoc pre (code_bytes long) rest))

length-behind_code :
    (pre : Bytes) (long : Bool) {i : ℕ}
    → length pre ≡ i
    → length (pre ++ code_bytes long) ≡ i + extra long + 3
length-behind_code pre long e =
    omega (arith, length-append pre (code_bytes long), length-code_bytes long)

-- Cutting at the positions of the codes gives the units back, behind any prefix.
units-codes :
    (pre : Bytes) (i : ℕ) (us : List CodedUnit)
    → length pre ≡ i
    → AllNals us
    → units (pre ++ annex_b us) (codes i us) ≡ map (λ u. u.nal) us
unfolding units
units-codes pre i [] e h = refl
units-codes pre i (u ∷ []) e h =
    let p = pre ++ code_bytes u.long in
    let lp = length-behind_code pre u.long e in
    rw (behind_code pre u.long (u.nal ++ [])) (
      push_slice_lem p u.nal [] _ (length (p ++ (u.nal ++ []))) [] lp
        (omega (arith, length-append p (u.nal ++ []), length-append u.nal []))
        (EndsNonzero-length u.nal h.0.1))
units-codes pre i (u ∷ v ∷ us) e h =
    let p = pre ++ code_bytes u.long in
    let lp = length-behind_code pre u.long e in
    let tail = annex_b (v ∷ us) in
    let to = i + extra u.long + 3 + length u.nal in
    rw (behind_code pre u.long (u.nal ++ tail)) (
      rw (unit_end_lem p u.nal (v.nal ++ annex_b us) v.long to h.0.1 (omega arith)) (
        push_slice_lem p u.nal tail _ _ _ lp refl (EndsNonzero-length u.nal h.0.1)
        ∙ ap (λ d. u.nal ∷ units d (codes to (v ∷ us)))
            (behind_code pre u.long (u.nal ++ tail) ∙ sym (append_assoc p u.nal tail))
        ∙ ap (◌∷◌ u.nal)
            (units-codes (p ++ u.nal) to (v ∷ us) (omega (arith, length-append p u.nal)) h.1)))

-- Splitting what an encoder wrote gives its units back, whichever of the two start codes stands
-- before each: units that hold no start code and do not end in a zero byte.
pub split_annex_b-annex_b :
    (us : List CodedUnit) → AllNals us → split_annex_b (annex_b us) ≡ map (λ u. u.nal) us
unfolding split_annex_b
split_annex_b-annex_b us h = rw (starts-annex_b 0 us h) (units-codes [] 0 us refl h)
