-- ===== src/Media/Hevc/Aggregates.antt =====
-- Aggregation packets, the device's trailer, and the sample format.
use yard.Prelude.{
  ℕ, zero, suc, ◌+◌, ◌-◌, ◌*◌, ◌/◌, ◌%◌, ◌<◌, ◌≤◌, ◌≡◌, refl, ap, min, true, List, [], ◌∷◌, ◌++◌,
  ◌==◌, Bytes, arith, length, take-append, drop-append, length-append, ltb, leb, text_eq_iff, map,
}
use yard.Prelude.Words.{be_bytes2}
use yard.Media.Hevc.{Depacketizer, push, aggregate, strip_trailer, nal_trailer, pack_access_unit}
use yard.Media.AnnexB.{frame}

-- A unit without the device's trailer is what `strip_trailer` leaves of it.
pub strip_trailer-append : (n : Bytes) → strip_trailer (n ++ nal_trailer) ≡ n
unfolding strip_trailer
strip_trailer-append n =
    let l : length (n ++ nal_trailer) ≡ length n + 14 = length-append n nal_trailer in
    let k : length (n ++ nal_trailer) - 14 ≡ length n = omega (arith, l) in
    let m : leb 14 (length (n ++ nal_trailer)) ≡ true = ground (arith, l) in
    rw (m, k, drop-append n nal_trailer, (text_eq_iff nal_trailer nal_trailer).1 refl)
      (take-append n nal_trailer)

-- The units behind one another, each behind its size.
unfoldable pub sized : List Bytes → Bytes
sized [] = []
sized (n ∷ ns) = be_bytes2 (length n) ++ (n ++ sized ns)

-- A packet with the header bytes `first` and `second`, its type 48.
unfoldable pub ap_payload : ℕ → ℕ → List Bytes → Bytes
ap_payload first second ns = (first / 128 * 128 + 96 + first % 2) ∷ second ∷ sized ns

unfoldable pub AllSized : List Bytes → Type 0
AllSized [] = Unit {0}
AllSized (n ∷ ns) = (0 < length n) × (length n < 65536) × AllSized ns

aggregate-sized :
    (fuel : ℕ) (ns : List Bytes)
    → AllSized ns
    → length (sized ns) ≤ fuel
    → aggregate fuel (sized ns) ≡ map strip_trailer ns
unfolding aggregate sized AllSized
aggregate-sized zero [] h k = refl
aggregate-sized (suc fuel) [] h k = refl
aggregate-sized zero (n ∷ ns) h k = absurd (omega arith)
aggregate-sized (suc fuel) (n ∷ ns) (p, q, r) k =
    let tail : Bytes = sized ns in
    let size : 256 * (length n / 256 % 256) + length n % 256 ≡ length n = omega arith in
    let l : length (n ++ tail) ≡ length n + length tail = length-append n tail in
    let m : ltb 0 (min (length n) (length (n ++ tail))) ≡ true = ground (arith, l) in
    rw (size, aggregate)
      (rw (drop-append n tail, take-append n tail)
        (rw (m, aggregate-sized fuel ns r (omega (arith, l))) refl))

-- An aggregation packet gives each of its units, in order and without its trailer, and leaves a
-- fragment that is under way alone, where no unit is empty and each is shorter than 64 KiB.
pub push-ap_payload :
    (d : Depacketizer) (first second : ℕ) (ns : List Bytes)
    → AllSized ns
    → push d (ap_payload first second ns) ≡ (d, map strip_trailer ns)
unfolding push ap_payload
push-ap_payload d first second ns h =
    let t : ((first / 128 * 128 + 96 + first % 2) / 2 % 64 == 48) ≡ true = ground arith in
    rw t (ap (λ us. (d, us)) (aggregate-sized (length (sized ns)) ns h (omega arith)))

pub pack_access_unit-frame : (ns : List Bytes) → pack_access_unit ns ≡ frame ns
unfolding pack_access_unit frame
pack_access_unit-frame [] = refl
pack_access_unit-frame (n ∷ ns) = rw (pack_access_unit-frame ns) refl
