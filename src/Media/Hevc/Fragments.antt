-- ===== src/Media/Hevc/Fragments.antt =====
-- Fragmentation units: a sender's fragments, and what the depacketizer makes of them.
use yard.Prelude.{
  ℕ, ◌+◌, ◌*◌, ◌/◌, ◌%◌, ◌<◌, ◌≡◌, refl, true, false, List, [], ◌∷◌, ◌++◌, ◌==◌, Bytes, arith,
}
use yard.Media.Hevc.{Depacketizer, reset_fragment, push, fragment, original_header, strip_trailer}

-- The payloads in the order they come: the depacketizer behind them, and every unit completed.
unfoldable pub push_all : Depacketizer → List Bytes → Depacketizer × List Bytes
push_all d [] = (d, [])
push_all d (p ∷ ps) =
    let r : Depacketizer × List Bytes = push d p in
    let s : Depacketizer × List Bytes = push_all r.0 ps in (s.0, r.1 ++ s.1)

-- One payload of a unit with the header bytes `first` and `second`, after RFC 7798: the unit type in
-- the header becomes 49, and moves behind the flags, of which 128 starts the unit and 64 ends it.
abbrev pub fu_payload : ℕ → ℕ → ℕ → Bytes → Bytes
fu_payload first second flags chunk =
    (first / 128 * 128 + 98 + first % 2) ∷ second ∷ (flags + first / 2 % 64) ∷ chunk

-- The payloads behind the first.
unfoldable pub later : ℕ → ℕ → Bytes → List Bytes → List Bytes
later first second c [] = fu_payload first second 64 c ∷ []
later first second c (d ∷ ds) = fu_payload first second 0 c ∷ later first second d ds

unfoldable pub fragments : ℕ → ℕ → Bytes → Bytes → List Bytes → List Bytes
fragments first second c d ds = fu_payload first second 128 c ∷ later first second d ds

unfoldable pub joined : Bytes → List Bytes → Bytes
joined c [] = c
joined c (d ∷ ds) = joined (c ++ d) ds

module _ (first second : ℕ) (bound : first < 256) where
  abbrev head_byte : ℕ
  head_byte = first / 128 * 128 + 98 + first % 2

  not_ap : (head_byte / 2 % 64 == 48) ≡ false
  not_ap = ground arith

  is_fu : (head_byte / 2 % 64 == 49) ≡ true
  is_fu = ground arith

  header_back : original_header head_byte (128 + first / 2 % 64) ≡ first
  header_back = omega arith

  bit_start : ((128 + first / 2 % 64) / 128 % 2 == 1) ≡ true
  bit_start = ground arith

  bit_start_end : ((128 + first / 2 % 64) / 64 % 2 == 1) ≡ false
  bit_start_end = ground arith

  bit_middle : ((0 + first / 2 % 64) / 128 % 2 == 1) ≡ false
  bit_middle = ground arith

  bit_middle_end : ((0 + first / 2 % 64) / 64 % 2 == 1) ≡ false
  bit_middle_end = ground arith

  bit_last : ((64 + first / 2 % 64) / 128 % 2 == 1) ≡ false
  bit_last = ground arith

  bit_last_end : ((64 + first / 2 % 64) / 64 % 2 == 1) ≡ true
  bit_last_end = ground arith

  push_start :
      (d : Depacketizer) (c : Bytes)
      → push d (fu_payload first second 128 c)
        ≡ (record { fu_buffer = first ∷ second ∷ c; fu_active = true }, [])
  unfolding push fragment
  push_start d c = rw (not_ap, is_fu, bit_start, bit_start_end, header_back) refl

  push_middle :
      (b c : Bytes)
      → push (record { fu_buffer = b; fu_active = true }) (fu_payload first second 0 c)
        ≡ (record { fu_buffer = b ++ c; fu_active = true }, [])
  unfolding push fragment
  push_middle b c = rw (not_ap, is_fu, bit_middle, bit_middle_end) refl

  push_last :
      (b c : Bytes)
      → push (record { fu_buffer = b; fu_active = true }) (fu_payload first second 64 c)
        ≡ (reset_fragment, strip_trailer (b ++ c) ∷ [])
  unfolding push fragment
  push_last b c = rw (not_ap, is_fu, bit_last, bit_last_end) refl

  push_all-later :
      (b c : Bytes) (ds : List Bytes)
      → push_all (record { fu_buffer = b; fu_active = true }) (later first second c ds)
        ≡ (reset_fragment, strip_trailer (joined (b ++ c) ds) ∷ [])
  unfolding push_all later joined
  push_all-later b c [] = rw (push_last b c) refl
  push_all-later b c (d ∷ ds) = rw (push_middle b c) (push_all-later (b ++ c) d ds)

-- The fragments of a unit give that unit and no other, without its trailer, whatever the depacketizer
-- held before, and leave nothing behind, where its first header byte is below 256.
pub push_all-fragments :
    (first second : ℕ) (c d : Bytes) (ds : List Bytes) (p : Depacketizer)
    → first < 256
    → push_all p (fragments first second c d ds)
      ≡ (reset_fragment, strip_trailer (joined (first ∷ second ∷ (c ++ d)) ds) ∷ [])
unfolding push_all fragments
push_all-fragments first second c d ds p h =
    rw (push_start first second h p c) (push_all-later first second h (first ∷ second ∷ c) d ds)

-- A fragment that does not start its unit.
abbrev pub Continuation : Bytes → Type 0
Continuation (a ∷ b ∷ fu ∷ body) = (a / 2 % 64 ≡ 49) × (fu / 128 % 2 ≡ 0)
Continuation _ = ⊥

unfoldable pub AllContinuations : List Bytes → Type 0
AllContinuations [] = Unit {0}
AllContinuations (p ∷ ps) = Continuation p × AllContinuations ps

push-Continuation : (p : Bytes) → Continuation p → push reset_fragment p ≡ (reset_fragment, [])
unfolding push fragment
push-Continuation [] h = absurd h
push-Continuation (a ∷ []) h = absurd h
push-Continuation (a ∷ b ∷ []) h = absurd h
push-Continuation (a ∷ b ∷ fu ∷ body) h = rw (h.0, h.1) refl

-- Behind a reset no fragment of a unit whose start is lost reaches the output, and the next unit
-- with its start, whose first header byte is below 256, comes alone and without its trailer.
pub push_all-Continuations :
    (ps : List Bytes) (first second : ℕ) (c d : Bytes) (ds : List Bytes)
    → AllContinuations ps
    → first < 256
    → push_all reset_fragment (ps ++ fragments first second c d ds)
      ≡ (reset_fragment, strip_trailer (joined (first ∷ second ∷ (c ++ d)) ds) ∷ [])
unfolding push_all AllContinuations
push_all-Continuations [] first second c d ds h k =
    push_all-fragments first second c d ds reset_fragment k
push_all-Continuations (p ∷ ps) first second c d ds h k =
    rw (push-Continuation p h.0) (push_all-Continuations ps first second c d ds h.1 k)
