-- ===== src/Tests/Receivers.antt =====
-- Three packets of a phone's stream, the second of them lost.
use yard.Prelude.{◌≡◌, refl, true, false, ◌||◌, [], ◌∷◌}
use yard.Media.Hevc.{push, strip_trailer, is_key_nal, pack_access_unit}
use yard.Media.Hevc.Sets.{observe, is_complete}
use yard.Ios.Receive.{
  RtpPacket, published, requested, start, is_gap, advance, take_unit, take_units, finish, receive,
  receive_all,
}
use yard.Ios.Receive.Gaps.{newest, misses, is_broken, Moves, units-receive_all}

-- One slice of a key picture, which is a unit of its own.
abbrev first : RtpPacket
first = record { sequence_number = 65535; marker = true; payload = 38 ∷ 1 ∷ 7 ∷ [] }

abbrev third : RtpPacket
third = record { sequence_number = 1; marker = true; payload = 2 ∷ 1 ∷ 8 ∷ [] }

-- The numbers wrap around.
abbrev fourth : RtpPacket
fourth = record { sequence_number = 2; marker = true; payload = 2 ∷ 1 ∷ 9 ∷ [] }

received :
    (receive_all (fourth ∷ third ∷ first ∷ [])).told
    ≡ published (record { data_ = 0 ∷ 0 ∷ 0 ∷ 3 ∷ 2 ∷ 1 ∷ 9 ∷ []; is_key = false })
      ∷ requested
      ∷ published (record { data_ = 0 ∷ 0 ∷ 0 ∷ 3 ∷ 38 ∷ 1 ∷ 7 ∷ []; is_key = true })
      ∷ []
unfolding receive_all receive start finish take_unit take_units is_gap advance push strip_trailer
    observe is_complete is_key_nal pack_access_unit
received = refl

units-receive_all_example :
    Moves true
      (is_broken (first ∷ []) || misses (newest (first ∷ [])) 1)
      (receive_all (first ∷ [])).told
      (receive_all (third ∷ first ∷ [])).told
units-receive_all_example = units-receive_all third (first ∷ [])
