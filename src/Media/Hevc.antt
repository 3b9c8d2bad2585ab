-- ===== src/Media/Hevc.antt =====
-- packages/provider/crates/backend-ios/src/hevc.rs: NAL units out of RTP payloads (RFC 7798), and the
-- sample format of the browser. The parameter sets stand in Hevc.Sets, their bitstream in Hevc.Sps.
pub mod Fragments
pub mod Aggregates
pub mod Sps
pub mod Escape
pub mod Sets
pub mod Hvcc
use yard.Prelude.{
  ℕ, zero, suc, ◌+◌, ◌-◌, ◌*◌, ◌/◌, ◌%◌, min, Bool, true, false, ◌&&◌, ◌||◌, List, [], ◌∷◌, ◌++◌,
  ◌==◌, ltb, leb, if◌then◌else◌, Bytes, length, take, drop, text_eq,
}
use yard.Prelude.Words.{be_bytes4, u32_mod}

abbrev pub nal_idr_w_radl : ℕ
nal_idr_w_radl = 19

abbrev pub nal_idr_n_lp : ℕ
nal_idr_n_lp = 20

abbrev pub nal_cra : ℕ
nal_cra = 21

abbrev pub nal_vps : ℕ
nal_vps = 32

abbrev pub nal_sps : ℕ
nal_sps = 33

abbrev pub nal_pps : ℕ
nal_pps = 34

abbrev pub nal_ap : ℕ
nal_ap = 48

abbrev pub nal_fu : ℕ
nal_fu = 49

abbrev pub nal_trailer : Bytes
nal_trailer =
    0x04 ∷ 0xf0 ∷ 0x0a ∷ 0xc0 ∷ 0x00 ∷ 0x00 ∷ 0x03 ∷ 0x00 ∷ 0x00 ∷ 0x04 ∷ 0xec ∷ 0x0a ∷ 0xb0 ∷ 0x03
    ∷ []

-- The source indexes the first byte: every caller has at least two.
abbrev pub nal_type : Bytes → ℕ
nal_type [] = 0
nal_type (b ∷ bs) = b / 2 % 64

unfoldable pub is_key_nal : ℕ → Bool
is_key_nal t = (t == nal_idr_w_radl) || (t == nal_idr_n_lp) || (t == nal_cra)

abbrev pub ends_with : Bytes → Bytes → Bool
ends_with bs tail =
    leb (length tail) (length bs) && text_eq (drop (length bs - length tail) bs) tail

unfoldable pub strip_trailer : Bytes → Bytes
strip_trailer nal =
    if ends_with nal nal_trailer then take (length nal - length nal_trailer) nal else nal

pub record Depacketizer : Type 0 where
  pub fu_buffer : Bytes
  pub fu_active : Bool

-- The depacketizer behind `new` and `reset_fragment`.
abbrev pub reset_fragment : Depacketizer
reset_fragment = record { fu_buffer = []; fu_active = false }

-- The loop over an aggregation packet; a size beyond the payload takes what is there. Each turn
-- takes two bytes, so the bytes' number is fuel enough.
unfoldable pub aggregate : ℕ → Bytes → List Bytes
aggregate (suc fuel) (hi ∷ lo ∷ bs) =
    let size : ℕ = 256 * hi + lo in
    let rest : List Bytes = aggregate fuel (drop size bs) in
    if ltb 0 (min size (length bs)) then strip_trailer (take size bs) ∷ rest else rest
aggregate _ _ = []

-- A payload's fragment joins the buffer, and the last one empties it.
abbrev pub extend : Bytes → Bool → Bytes → Depacketizer × List Bytes
extend buffer last body =
    if last
    then (reset_fragment, strip_trailer (buffer ++ body) ∷ [])
    else (record { fu_buffer = buffer ++ body; fu_active = true }, [])

-- `(payload[0] & 0x81) | (original_nal_type << 1)`.
abbrev pub original_header : ℕ → ℕ → ℕ
original_header first fu = first / 128 % 2 * 128 + fu % 64 * 2 + first % 2

unfoldable pub fragment : Depacketizer → ℕ → ℕ → ℕ → Bytes → Depacketizer × List Bytes
fragment d first second fu body =
    if fu / 128 % 2 == 1
    then extend (original_header first fu ∷ second ∷ []) (fu / 64 % 2 == 1) body
    else if d.fu_active
    then extend d.fu_buffer (fu / 64 % 2 == 1) body
    else (d, [])

abbrev pub fragment_of : Depacketizer → ℕ → ℕ → Bytes → Depacketizer × List Bytes
fragment_of d first second [] = (d, [])
fragment_of d first second (fu ∷ body) = fragment d first second fu body

-- One RTP payload: the depacketizer behind it, and the units it completes.
unfoldable pub push : Depacketizer → Bytes → Depacketizer × List Bytes
push d (first ∷ second ∷ bs) =
    if first / 2 % 64 == nal_ap
    then (d, aggregate (length bs) bs)
    else if first / 2 % 64 == nal_fu
    then fragment_of d first second bs
    else (d, strip_trailer (first ∷ second ∷ bs) ∷ [])
push d _ = (d, [])

unfoldable pub pack_access_unit : List Bytes → Bytes
pack_access_unit [] = []
pack_access_unit (n ∷ ns) = be_bytes4 (length n % u32_mod) ++ (n ++ pack_access_unit ns)
