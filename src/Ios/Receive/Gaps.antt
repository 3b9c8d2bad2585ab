-- ===== src/Ios/Receive/Gaps.antt =====
-- No access unit with a gap goes out.
use yard.Prelude.{
  not, ◌==◌, ◌%◌, ◌-◌, ◌+◌, ℕ, ◌≡◌, refl, ap, subst, ◌∙◌, Bool, true, false, ◌||◌, Option, none,
  some, List, [], ◌∷◌, Bytes, Text, length, ltb, if◌then◌else◌, is_empty, Bool-cases, inl, inr,
  arith, ◌⊎◌,
}
use yard.Media.Scrcpy.{AccessUnit}
use yard.Media.Hevc.{Depacketizer, push, pack_access_unit}
use yard.Media.Hevc.Sets.{ParameterSets, observe, is_complete, description}
use yard.Ios.Receive.{
  RtpPacket, Told, shaped, announced, published, requested, Receiver, start, is_gap, advance,
  poison, shape, observed, announce, announce_complete, take_unit, take_units, depacketize, send,
  finish, receive, receive_all, is_last,
}

-- Sequence numbers are 16 bits wide: whether one is the next behind another, and whether it is ahead
-- of it, by less than half of the circle.
abbrev pub succeeds : ℕ → ℕ → Bool
succeeds seq previous = seq == (previous + 1) % 65536

abbrev pub is_ahead : ℕ → ℕ → Bool
is_ahead seq previous = ltb ((seq + 65536 - previous) % 65536) 32768

abbrev pub newer : Option ℕ → ℕ → ℕ
newer none seq = seq
newer (some previous) seq = if is_ahead seq previous then seq else previous

-- The newest sequence number of a history.
abbrev pub newest : List RtpPacket → Option ℕ
newest [] = none
newest (p ∷ ps) = some (newer (newest ps) p.sequence_number)

-- A number is missing, or comes late, behind the newest one.
abbrev pub misses : Option ℕ → ℕ → Bool
misses none seq = false
misses (some previous) seq = not (succeeds seq previous)

-- Whether the unit that a history is in the middle of has met a gap.
abbrev pub is_broken : List RtpPacket → Bool
is_broken [] = false
is_broken (p ∷ ps) =
    if p.marker then false else is_broken ps || misses (newest ps) p.sequence_number

is_gap-misses : (o : Option ℕ) (seq : ℕ) → is_gap o seq ≡ misses o seq
unfolding is_gap
is_gap-misses none seq = refl
is_gap-misses (some previous) seq = refl

advance-newer : (o : Option ℕ) (seq : ℕ) → advance o seq ≡ some (newer o seq)
unfolding advance
advance-newer none seq = refl
advance-newer (some previous) seq = ground arith

-- The units that went out, the newest first.
abbrev pub units : List Told → List AccessUnit
units [] = []
units (published au ∷ ts) = au ∷ units ts
units (shaped w h ∷ ts) = units ts
units (announced d ∷ ts) = units ts
units (requested ∷ ts) = units ts

-- What taking up a unit leaves alone.
abbrev Same : Receiver → Receiver → Type 0
Same r s = (s.last_seq ≡ r.last_seq) × (s.au_corrupt ≡ r.au_corrupt) × (units s.told ≡ units r.told)

Same-trans : (r s t : Receiver) → Same r s → Same s t → Same r t
Same-trans r s t h k = (k.0 ∙ h.0, k.1 ∙ h.1, k.2 ∙ h.2)

shape-Same : (o : Option (ℕ × ℕ)) (r : Receiver) → Same r (shape o r)
shape-Same none r = (refl, refl, refl)
shape-Same (some (w, h)) r = (refl, refl, refl)

observed-Same : (x : Bool × ParameterSets) (r : Receiver) → Same r (observed x r)
observed-Same (true, sets) r = shape-Same sets.dimensions (record r { parameter_sets = sets })
observed-Same (false, sets) r = (refl, refl, refl)

announce-Same : (o : Option (Text × Bytes)) (r : Receiver) → Same r (announce o r)
announce-Same none r = (refl, refl, refl)
announce-Same (some (codec, bytes)) r =
    elim (Bool-cases (is_last r.last_codec (record { codec = codec; description = bytes }))) [
      | inl q ↦ rw q (refl, refl, refl)
      | inr q ↦ rw q (refl, refl, refl)
    ]

take_unit-Same : (nal : Bytes) (r : Receiver) → Same r (take_unit nal r)
unfolding take_unit
take_unit-Same nal r = elim (Bool-cases (ltb (length nal) 2)) [
  | inl q ↦ rw (q, take_unit) (refl, refl, refl)
  | inr q ↦
      rw (q, take_unit)
        (let s = observed (observe r.parameter_sets nal) r in
          Same-trans r s (announce_complete s) (observed-Same (observe r.parameter_sets nal) r) (
            announce-Same
              (if is_complete s.parameter_sets then description s.parameter_sets else none) s))
]

take_units-Same : (nals : List Bytes) (r : Receiver) → Same r (take_units nals r)
unfolding take_units
take_units-Same [] r = (refl, refl, refl)
take_units-Same (nal ∷ nals) r =
    Same-trans r (take_unit nal r) (take_units nals (take_unit nal r)) (take_unit-Same nal r)
      (take_units-Same nals (take_unit nal r))

depacketize-Same : (x : Depacketizer × List Bytes) (r : Receiver) → Same r (depacketize x r)
depacketize-Same (d, nals) r = take_units-Same nals (record r { depacketizer = d })

poison_lem :
    (b : Bool) (r : Receiver)
    → ((poison b r).au_corrupt ≡ (r.au_corrupt || b)) × (units (poison b r).told ≡ units r.told)
poison_lem true r = (ground arith, refl)
poison_lem false r = (ground arith, refl)

-- The packet's units are taken up, and what a marker makes of it is left.
abbrev collected : RtpPacket → Receiver → Receiver
collected p r =
    let r1 = poison (is_gap r.last_seq p.sequence_number) r in
    let r2 : Receiver = record r1 { last_seq = advance r.last_seq p.sequence_number } in
    depacketize (push r2.depacketizer p.payload) r2

collected_lem :
    (p : RtpPacket) (r : Receiver)
    → ((collected p r).last_seq ≡ advance r.last_seq p.sequence_number)
      × ((collected p r).au_corrupt ≡ (r.au_corrupt || is_gap r.last_seq p.sequence_number))
      × (units (collected p r).told ≡ units r.told)
collected_lem p r =
    let r1 = poison (is_gap r.last_seq p.sequence_number) r in
    let r2 : Receiver = record r1 { last_seq = advance r.last_seq p.sequence_number } in
    let s = depacketize-Same (push r2.depacketizer p.payload) r2 in
    let q = poison_lem (is_gap r.last_seq p.sequence_number) r in (s.0, s.1 ∙ q.0, s.2 ∙ q.1)

finish_lem :
    (marker : Bool) (r : Receiver)
    → ((finish marker r).last_seq ≡ r.last_seq)
      × ((finish marker r).au_corrupt ≡ (if marker then false else r.au_corrupt))
unfolding finish
finish_lem false r = (refl, refl)
finish_lem true r = (sent r.au_corrupt (is_empty r.current_au), refl)
  where
    sent : (corrupt empty : Bool) → (send corrupt empty r).last_seq ≡ r.last_seq
    sent true empty = refl
    sent false true = refl
    sent false false = refl

-- The receiver's variables are the history's.
receive_all_lem :
    (ps : List RtpPacket)
    → ((receive_all ps).last_seq ≡ newest ps) × ((receive_all ps).au_corrupt ≡ is_broken ps)
unfolding receive_all receive start
receive_all_lem [] = (refl, refl)
receive_all_lem (p ∷ ps) =
    let h = receive_all_lem ps in
    let r = receive_all ps in
    let c = collected_lem p r in
    let f = finish_lem p.marker (collected p r) in
    (
      f.0
          ∙ c.0
          ∙ ap (λ o. advance o p.sequence_number) h.0
          ∙ advance-newer (newest ps) p.sequence_number,
      f.1
          ∙ ap (λ b. if p.marker then false else b)
              (c.1
                ∙ ap (λ b. b || is_gap r.last_seq p.sequence_number) h.1
                ∙ ap (λ o. is_broken ps || is_gap o p.sequence_number) h.0
                ∙ ap (λ b. is_broken ps || b) (is_gap-misses (newest ps) p.sequence_number)),
    )

-- What a turn did, by whether its packet has the marker and whether the unit met a gap: without a
-- marker no unit went out; behind a gap none, and a keyframe was asked for; else at most one.
abbrev pub Moves : (marker broken : Bool) → List Told → List Told → Type 0
Moves false broken before after = units after ≡ units before
Moves true true before after =
    (rest : List Told) × (after ≡ requested ∷ rest) × (units rest ≡ units before)
Moves true false before after =
    (units after ≡ units before) ⊎ ((au : AccessUnit) × (units after ≡ au ∷ units before))

send-Moves :
    (corrupt empty : Bool) (before : List Told) (r : Receiver)
    → units r.told ≡ units before
    → Moves true corrupt before (send corrupt empty r).told
send-Moves true empty before r e = (r.told, refl, e)
send-Moves false true before r e = inl e
send-Moves false false before r e =
    let au : AccessUnit = record { data_ = pack_access_unit r.current_au; is_key = r.au_is_key } in
    inr (au, ap (λ us. au ∷ us) e)

finish-Moves :
    (marker : Bool) (before : List Told) (r : Receiver)
    → units r.told ≡ units before
    → Moves marker r.au_corrupt before (finish marker r).told
unfolding finish
finish-Moves false before r e = e
finish-Moves true before r e = send-Moves r.au_corrupt (is_empty r.current_au) before r e

-- For every packet behind every history: an access unit goes out only at its marker, at most one, and
-- only if each packet since the last marker, itself included, had the number behind the newest one
-- before it; where one had not, the marker asks for a keyframe and no unit goes out.
pub units-receive_all :
    (p : RtpPacket) (ps : List RtpPacket)
    → Moves p.marker
        (is_broken ps || misses (newest ps) p.sequence_number)
        (receive_all ps).told
        (receive_all (p ∷ ps)).told
unfolding receive_all receive
units-receive_all p ps =
    let r = receive_all ps in
    let h = receive_all_lem ps in
    let c = collected_lem p r in
    subst (λ b. Moves p.marker b r.told (finish p.marker (collected p r)).told)
      (c.1
        ∙ ap (λ b. b || is_gap r.last_seq p.sequence_number) h.1
        ∙ ap (λ o. is_broken ps || is_gap o p.sequence_number) h.0
        ∙ ap (λ b. is_broken ps || b) (is_gap-misses (newest ps) p.sequence_number))
      (finish-Moves p.marker r.told (collected p r) c.2)
