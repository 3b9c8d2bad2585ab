-- ===== src/Server/Viewer/Feed.antt =====
-- What a viewer's decoder is fed, as the browser sees it on the socket.
use yard.Prelude.{
  text_eq, ◌≡◌, refl, sym, subst, Bool, true, false, not, ◌&&◌, Bool-cases, inl, inr, Option, none,
  some, List, [], ◌∷◌, is_empty, if◌then◌else◌, Bytes,
}
use yard.Core.Session.{Registry, Revocation}
use yard.Media.Scrcpy.{CodecDescription}
use yard.Server.Frames.{
  AuKind, key_with_reset, AudioPacket, from_byte, to_byte, frame_au, frame_audio, AudioStatus,
  available, unavailable, pending,
}
use yard.Server.Client.{
  Controls, Answer, silence, clipboard, error, handle_client_message, is_interaction, asks_keyframe,
}
use yard.Server.Messages.{session_closed, VideoGeometry, codec, Message, text, binary, ping}
use yard.Server.Viewer.{
  is_available, Moment, Event, frame, frames_lag, frames_closed, packet, packets_lag,
  packets_closed, status_changed, status_closed, codec_changed, codec_closed, geometry_changed,
  geometry_closed, revocation, revocations_lag, ping_due, receives, receives_garbled,
  receives_other, closes, source_ends, source_fails, Viewer, Next, goes_on, skips, stops, pass,
  on_packet, on_codec, on_geometry, on_revocation, react, settle, is_current, delivered, turn, used,
  asked, audio_message, answer_messages,
}

-- What a message is to the decoder: a new configuration, a video frame, or nothing.
pub data Mark : Type 0 where
  configures : Mark
  feeds : AuKind → Mark
  neutral : Mark

abbrev pub mark_kind : Option AuKind → Mark
mark_kind none = neutral
mark_kind (some k) = feeds k

-- A turn of the trace: whether the viewer fell behind in it, and what was sent.
pub record Turn (R C : Type 0) : Type 0 where
  pub lagged : Bool
  pub sent : List (Message R C)

abbrev pub is_lag : {At : Type 0} → Event At → Bool
is_lag frames_lag = true
is_lag e = false

-- The decoder: whether it waits for a reset, or that it was fed wrongly.
abbrev pub feed : Mark → Bool → Option Bool
feed configures waiting = some true
feed (feeds key_with_reset) true = some false
feed (feeds k) true = none
feed (feeds key_with_reset) false = none
feed (feeds k) false = some false
feed neutral waiting = some waiting

module _ {R C : Type 0} where
  -- By the type byte of a binary frame.
  unfoldable pub mark : Message R C → Mark
  mark (text (codec c d s)) = configures
  mark (text m) = neutral
  mark (binary []) = neutral
  mark (binary (b ∷ bs)) = mark_kind (from_byte b)
  mark ping = neutral

  abbrev pub feed_all : List (Message R C) → Option Bool → Option Bool
  feed_all ms none = none
  feed_all [] (some waiting) = some waiting
  feed_all (m ∷ ms) (some waiting) = feed_all ms (feed (mark m) waiting)

  abbrev pub feed_turn : Turn R C → Option Bool → Option Bool
  feed_turn t none = none
  feed_turn t (some waiting) = feed_all t.sent (some (if t.lagged then true else waiting))

  -- The decoder over a session, from its first turn on.
  abbrev pub feed_turns : List (Turn R C) → Option Bool → Option Bool
  feed_turns [] o = o
  feed_turns (t ∷ ts) o = feed_turns ts (feed_turn t o)

module _ {R C At W : Type 0} (c : Controls At W) where
  -- The turns of a session; nothing follows its end.
  unfoldable pub session : List (Moment R C × Event At) → Option (Viewer W) → List (Turn R C)
  session ts none = []
  session [] (some v) = []
  session ((m, e) ∷ ts) (some v) =
      let (ms, next) = turn c m e v in record { lagged = is_lag e; sent = ms } ∷ session ts next

abbrev pub is_well_fed : Option Bool → Bool
is_well_fed none = false
is_well_fed (some waiting) = true

-- What a turn left: the decoder waits just where the viewer does, or the session ended with the
-- decoder fed well.
abbrev Agrees : {W : Type 0} → Option Bool → Option (Viewer W) → Type 0
Agrees none o = ⊥
Agrees (some waiting) none = Unit {0}
Agrees (some waiting) (some v) = waiting ≡ v.awaiting_keyframe

abbrev AgreesNext : {W : Type 0} → Option Bool → Next W → Type 0
AgreesNext none n = ⊥
AgreesNext (some waiting) (goes_on v) = waiting ≡ v.awaiting_keyframe
AgreesNext (some waiting) (skips v) = waiting ≡ v.awaiting_keyframe
AgreesNext (some waiting) stops = Unit {0}

module _ {W : Type 0} where
  settle-Agrees :
      (s : Registry) (o : Option Bool) (n : Next W) → AgreesNext o n → Agrees o (settle s n)
  settle-Agrees s none n h = absurd h
  settle-Agrees s (some w) (goes_on v) h = elim (Bool-cases (is_current s v)) [
    | inl yes_ ↦ rw yes_ h
    | inr no_ ↦ rw no_ tt
  ]
  settle-Agrees s (some w) (skips v) h = h
  settle-Agrees s (some w) stops h = tt

module _ (R C : Type 0) where
  -- A reaction that sends `ms` and leads to `n`, from a viewer that awaits a keyframe or not.
  abbrev Keeps : {W : Type 0} → Bool → List (Message R C) × Next W → Type 0
  Keeps waiting (ms, n) = AgreesNext (feed_all ms (some waiting)) n

  pass-Keeps :
      {W : Type 0}
      → (b is_key : Bool) (bytes : Bytes) (v : Viewer W) → b ≡ v.awaiting_keyframe
      → Keeps b (pass b is_key bytes v)
  unfolding mark frame_au to_byte from_byte
  pass-Keeps true false bytes v e = e
  pass-Keeps true true bytes v e = refl
  pass-Keeps false true bytes v e = e
  pass-Keeps false false bytes v e = e

  either-Keeps :
      {W : Type 0}
      → (b c : Bool) (x y : List (Message R C) × Next W) → Keeps b x
      → Keeps b y
      → Keeps b (if c then x else y)
  either-Keeps b true x y h k = h
  either-Keeps b false x y h k = k

module _ {W : Type 0} (R C : Type 0) where
  on_packet-Keeps :
      (p : AudioPacket) (m : Moment R C) (v : Viewer W)
      → Keeps R C v.awaiting_keyframe (on_packet p m v)
  unfolding mark frame_audio from_byte
  on_packet-Keeps p m v =
      either-Keeps R C v.awaiting_keyframe
        (v.has_packets && (v.audio_announced && (v.has_status && is_available m.status)))
        (binary (frame_audio p.timestamp_us p.data_) ∷ [], goes_on v) ([], goes_on v) refl refl

  -- The audio's status, by whether its channel is followed.
  status-Keeps :
      (b : Bool) (s : AudioStatus C) (v : Viewer W)
      → Keeps R C v.awaiting_keyframe (
          if b
          then (
            text (audio_message {R = R} s).0 ∷ [],
            goes_on (record v { audio_announced = (audio_message {R = R} s).1 }),
          )
          else ([], goes_on v))
  unfolding mark audio_message
  status-Keeps true pending v = refl
  status-Keeps true (available c) v = refl
  status-Keeps true (unavailable r) v = refl
  status-Keeps false s v = refl

  on_codec-Keeps :
      (o : Option CodecDescription) (m : Moment R C) (v : Viewer W)
      → Keeps R C v.awaiting_keyframe (on_codec o m v)
  unfolding mark
  on_codec-Keeps none m v = refl
  on_codec-Keeps (some d) m v = refl

  on_geometry-Keeps :
      (o : Option VideoGeometry) (v : Viewer W) → Keeps R C v.awaiting_keyframe (on_geometry o v)
  unfolding mark
  on_geometry-Keeps none v = refl
  on_geometry-Keeps (some g) v = refl

  on_revocation-Keeps :
      (r : Revocation) (v : Viewer W) → Keeps R C v.awaiting_keyframe (on_revocation r v)
  unfolding mark
  on_revocation-Keeps r v =
      either-Keeps R C v.awaiting_keyframe (text_eq r.device_id v.device_id)
        (text (session_closed r.reason) ∷ [], stops) ([], goes_on v) tt refl

  -- What a client's message is answered with configures nothing.
  answer-Keeps :
      (a : Answer) (b is_asked is_used : Bool) (v : Viewer W)
      → b ≡ v.awaiting_keyframe
      → Keeps R C b (answer_messages a, goes_on (asked is_asked (used is_used v)))
  unfolding mark
  answer-Keeps silence b true true v h = h
  answer-Keeps silence b true false v h = h
  answer-Keeps silence b false true v h = h
  answer-Keeps silence b false false v h = h
  answer-Keeps (clipboard t) b true true v h = h
  answer-Keeps (clipboard t) b true false v h = h
  answer-Keeps (clipboard t) b false true v h = h
  answer-Keeps (clipboard t) b false false v h = h
  answer-Keeps (error e) b true true v h = h
  answer-Keeps (error e) b true false v h = h
  answer-Keeps (error e) b false true v h = h
  answer-Keeps (error e) b false false v h = h

-- What the viewer waits for once it fell behind, or as before.
abbrev waits : Bool → Bool → Bool
waits lagged waiting = if lagged then true else waiting

module _ {R C At W : Type 0} (c : Controls At W) (m : Moment R C) where
  react-Keeps :
      (e : Event At) (v : Viewer W)
      → Keeps R C (waits (is_lag e) v.awaiting_keyframe) (react c m e v)
  unfolding react mark
  react-Keeps (frame au) v = pass-Keeps R C v.awaiting_keyframe au.is_key au.data_ v refl
  react-Keeps frames_lag v = refl
  react-Keeps frames_closed v = tt
  react-Keeps (packet p) v = on_packet-Keeps R C p m v
  react-Keeps packets_lag v = refl
  react-Keeps packets_closed v = refl
  react-Keeps status_changed v = status-Keeps R C v.has_status m.status v
  react-Keeps status_closed v = refl
  react-Keeps codec_changed v = on_codec-Keeps R C m.current_codec m v
  react-Keeps codec_closed v = tt
  react-Keeps geometry_changed v = on_geometry-Keeps R C m.geometry v
  react-Keeps geometry_closed v = tt
  react-Keeps (revocation r) v = on_revocation-Keeps R C r v
  react-Keeps revocations_lag v = refl
  react-Keeps ping_due v = refl
  react-Keeps (receives message) v =
      answer-Keeps R C (handle_client_message c message v.world).1 v.awaiting_keyframe
        (asks_keyframe message) (is_interaction message)
        (record v { world = (handle_client_message c message v.world).0 }) refl
  react-Keeps receives_garbled v = refl
  react-Keeps receives_other v = refl
  react-Keeps closes v = tt
  react-Keeps source_ends v = tt
  react-Keeps source_fails v = tt

module _ {R C W : Type 0} where
  -- A turn that the socket cut short sent nothing.
  delivered-Agrees :
      (m : Moment R C) (b : Bool) (x : List (Message R C) × Next W)
      → Keeps R C b x
      → Agrees (feed_all (delivered m x).0 (some b)) (delivered m x).1
  delivered-Agrees m b x h = elim (Bool-cases (not m.takes && not (is_empty x.0))) [
    | inl yes_ ↦ rw yes_ tt
    | inr no_ ↦ rw no_ (settle-Agrees m.sessions (feed_all x.0 (some b)) x.1 h)
  ]

module _ {R C At W : Type 0} (c : Controls At W) where
  turn-Agrees :
      (m : Moment R C) (e : Event At) (v : Viewer W)
      → Agrees
          (feed_turn
            (record { lagged = is_lag e; sent = (turn c m e v).0 })
            (some v.awaiting_keyframe))
          (turn c m e v).1
  unfolding turn
  turn-Agrees m e v =
      delivered-Agrees m (waits (is_lag e) v.awaiting_keyframe) (react c m e v)
        (react-Keeps c m e v)

  feed_turns-fed :
      (ts : List (Moment R C × Event At)) (o : Option Bool) (v : Option (Viewer W))
      → Agrees o v
      → is_well_fed (feed_turns (session c ts v) o) ≡ true
  unfolding session
  feed_turns-fed ts none none h = absurd h
  feed_turns-fed ts none (some v) h = absurd h
  feed_turns-fed ts (some w) none h = refl
  feed_turns-fed [] (some w) (some v) h = refl
  feed_turns-fed ((m, e) ∷ ts) (some w) (some v) h =
      subst (λ b. is_well_fed (feed_turns (session c ((m, e) ∷ ts) (some v)) (some b)) ≡ true)
        (sym h)
        (feed_turns-fed ts
          (feed_turn (record { lagged = is_lag e; sent = (turn c m e v).0 })
            (some v.awaiting_keyframe))
          (turn c m e v).1 (turn-Agrees m e v))

  -- Whatever events a session meets and whatever it reads from outside at each, from a viewer in
  -- any state on, the browser's decoder is never fed wrongly: after a codec message, and after the
  -- viewer fell behind, the first video frame sent is a keyframe marked with a reset, and such a
  -- frame is sent at no other time. The decoder starts out waiting just if the viewer awaits a
  -- keyframe.
  pub feed_turns-session :
      (ts : List (Moment R C × Event At)) (v : Viewer W)
      → is_well_fed (feed_turns (session c ts (some v)) (some v.awaiting_keyframe)) ≡ true
  feed_turns-session ts v = feed_turns-fed ts (some v.awaiting_keyframe) (some v) refl
