-- ===== src/Tests/Hevc.antt =====
-- Small HEVC streams: a slice in three fragments, an aggregation, and the sets of the source's tests.
use yard.Prelude.{
  ◌≡◌, refl, true, some, List, [], ◌∷◌, ◌++◌, Bytes, arith, codes, text_eq, map, take, drop, ap,
  length,
}
use yard.Media.Hevc.{fragment, Depacketizer, reset_fragment, push, strip_trailer, nal_trailer}
use yard.Media.Hevc.Fragments.{
  push_all, fragments, later, joined, AllContinuations, push_all-fragments, push_all-Continuations,
  fu_payload,
}
use yard.Media.Hevc.Aggregates.{AllSized, ap_payload, push-ap_payload}
use yard.Media.Hevc.Sps.{
  unescape, rbsp, bits_from, ue_from, ue, sub_layers, dimensions_from_sps, codec_string_from_sps,
}
use yard.Media.Hevc.Escape.{escape, rbsp-escape}
use yard.Media.Hevc.Sets.{decoder_configuration_record}
use yard.Media.Hevc.Hvcc.{read_hvcc, read_hvcc-decoder_configuration_record}

abbrev busy : Depacketizer
busy = record { fu_buffer = 1 ∷ 2 ∷ []; fu_active = true }

-- A CRA slice: its header bytes are 42 and 1.
abbrev slice : List Bytes
slice = fragments 42 1 (7 ∷ 8 ∷ []) (9 ∷ []) ((10 ∷ nal_trailer) ∷ [])

push_slice : push_all busy slice ≡ (reset_fragment, (42 ∷ 1 ∷ 7 ∷ 8 ∷ 9 ∷ 10 ∷ []) ∷ [])
unfolding push_all fragments later push fragment strip_trailer text_eq
push_slice = refl

push_all-fragments_example : push_all busy slice ≡ (
  reset_fragment,
  strip_trailer (joined (42 ∷ 1 ∷ 7 ∷ 8 ∷ 9 ∷ []) ((10 ∷ nal_trailer) ∷ [])) ∷ [],
)
push_all-fragments_example =
    push_all-fragments 42 1 (7 ∷ 8 ∷ []) (9 ∷ []) ((10 ∷ nal_trailer) ∷ []) busy (omega arith)

abbrev lost : List Bytes
lost = fu_payload 42 1 0 (3 ∷ []) ∷ fu_payload 42 1 64 (4 ∷ []) ∷ []

lost-AllContinuations : AllContinuations lost
unfolding AllContinuations
lost-AllContinuations = omega arith

push_all-Continuations_example :
    push_all reset_fragment (lost ++ fragments 42 1 (7 ∷ []) (9 ∷ []) [])
    ≡ (reset_fragment, strip_trailer (joined (42 ∷ 1 ∷ 7 ∷ 9 ∷ []) []) ∷ [])
push_all-Continuations_example =
    push_all-Continuations lost 42 1 (7 ∷ []) (9 ∷ []) [] lost-AllContinuations (omega arith)

abbrev pair : List Bytes
pair = (64 ∷ 1 ∷ 5 ∷ []) ∷ (68 ∷ 1 ∷ 6 ∷ 7 ∷ []) ∷ []

push-ap_payload_example : push busy (ap_payload 64 1 pair) ≡ (busy, map strip_trailer pair)
unfolding AllSized
push-ap_payload_example = push-ap_payload busy 64 1 pair (omega arith)

-- The profile, tier and level of the source's tests, and behind them a size of 4 by 2.
abbrev payload : Bytes
payload = 0x01 ∷ 0x01 ∷ 0x60 ∷ 0 ∷ 0 ∷ 0 ∷ 0x90 ∷ 0 ∷ 0 ∷ 0 ∷ 0 ∷ 0 ∷ 0x78 ∷ 0xA2 ∷ 0xB0 ∷ []

rbsp-escape_example : rbsp (66 ∷ 1 ∷ escape payload) ≡ payload
rbsp-escape_example = rbsp-escape 66 1 payload

codec_string_payload : codec_string_from_sps (66 ∷ 1 ∷ payload) ≡ some (codes "hev1.1.6.L120.90")
unfolding codec_string_from_sps rbsp unescape bits_from
codec_string_payload = refl

dimensions_payload : dimensions_from_sps (66 ∷ 1 ∷ payload) ≡ some (4, 2)
unfolding dimensions_from_sps rbsp unescape bits_from sub_layers ue ue_from
dimensions_payload = refl

rbsp_payload : rbsp (66 ∷ 1 ∷ payload) ≡ payload
unfolding rbsp unescape
rbsp_payload = refl

read_hvcc-decoder_configuration_record_example :
    (r : Bytes) × (decoder_configuration_record (64 ∷ []) (66 ∷ 1 ∷ payload) (68 ∷ []) ≡ some r)
    × (read_hvcc r
        ≡ some (record {
          level = take 12 (drop 1 (rbsp (66 ∷ 1 ∷ payload)));
          vps = 64 ∷ [];
          sps = 66 ∷ 1 ∷ payload;
          pps = 68 ∷ [];
        }))
read_hvcc-decoder_configuration_record_example =
    read_hvcc-decoder_configuration_record (64 ∷ []) (66 ∷ 1 ∷ payload) (68 ∷ [])
      (omega (arith, ap length rbsp_payload)) (omega arith) (omega arith) (omega arith)
