-- ===== src/Server/Viewer/Withdrawn.antt =====
-- What a viewer is sent once its reservation is gone.
use yard.Prelude.{
  ◌≡◌, refl, ap, ◌∙◌, Bool, true, false, not, ◌&&◌, Bool-cases, inl, inr, Option, none, some, List,
  [], ◌∷◌, is_empty, if◌then◌else◌, arith, ℕ, ◌≤◌, ◌+◌, Text, Bytes, text_eq,
}
use yard.Core.Session.{Registry, Revocation, check}
use yard.Media.Scrcpy.{CodecDescription}
use yard.Server.Frames.{AudioPacket, frame_audio}
use yard.Server.Client.{Controls, handle_client_message, is_interaction, asks_keyframe}
use yard.Server.Messages.{VideoGeometry, Message, text, binary, session_closed}
use yard.Server.Viewer.{
  is_available, audio_message, Moment, Event, frame, frames_lag, frames_closed, packet, packets_lag,
  packets_closed, status_changed, status_closed, codec_changed, codec_closed, geometry_changed,
  geometry_closed, revocation, revocations_lag, ping_due, receives, receives_garbled,
  receives_other, closes, source_ends, source_fails, Viewer, Next, goes_on, skips, stops, pass,
  on_packet, on_status, on_codec, on_geometry, on_revocation, react, settle, is_current, is_ok,
  delivered, turn, used, asked,
}
use yard.Server.Viewer.Feed.{Turn, session}

module _ {R C : Type 0} where
  abbrev pub one_if_sent : List (Message R C) → ℕ
  one_if_sent [] = 0
  one_if_sent (m ∷ ms) = 1

  -- How many turns sent something.
  abbrev pub sending_turns : List (Turn R C) → ℕ
  sending_turns [] = 0
  sending_turns (t ∷ ts) = one_if_sent t.sent + sending_turns ts

  -- At every moment the device is free or another reservation's.
  abbrev pub IsWithdrawn : {At : Type 0} → Text → Text → List (Moment R C × Event At) → Type 0
  IsWithdrawn device reservation [] = Unit {0}
  IsWithdrawn device reservation ((m, e) ∷ ts) =
      (is_ok (check device reservation m.sessions) ≡ false) × IsWithdrawn device reservation ts

  one_if_sent_lem : (ms : List (Message R C)) → one_if_sent ms ≤ 1
  one_if_sent_lem [] = ground arith
  one_if_sent_lem (m ∷ ms) = ground arith

abbrev Same : {W : Type 0} → Viewer W → Viewer W → Type 0
Same v w = (w.device_id ≡ v.device_id) × (w.reservation_id ≡ v.reservation_id)

module _ (R C : Type 0) where
  -- A reaction keeps whose viewer it is, and one that skips the check sends nothing.
  abbrev Stays : {W : Type 0} → Viewer W → List (Message R C) × Next W → Type 0
  Stays v (ms, goes_on w) = Same v w
  Stays v (ms, skips w) = Same v w × (ms ≡ [])
  Stays v (ms, stops) = Unit {0}

  pass-Stays :
      {W : Type 0} (b is_key : Bool) (bytes : Bytes) (v : Viewer W)
      → Stays v (pass b is_key bytes v)
  pass-Stays true false bytes v = ((refl, refl), refl)
  pass-Stays true true bytes v = (refl, refl)
  pass-Stays false is_key bytes v = (refl, refl)

  either-Stays :
      {W : Type 0} (c : Bool) (v : Viewer W) (x y : List (Message R C) × Next W)
      → Stays v x
      → Stays v y
      → Stays v (if c then x else y)
  either-Stays true v x y h k = h
  either-Stays false v x y h k = k

module _ {W : Type 0} (R C : Type 0) where
  on_packet-Stays :
      (p : AudioPacket) (m : Moment R C) (v : Viewer W) → Stays R C v (on_packet p m v)
  on_packet-Stays p m v =
      either-Stays R C
        (v.has_packets && (v.audio_announced && (v.has_status && is_available m.status))) v
        (binary (frame_audio p.timestamp_us p.data_) ∷ [], goes_on v) ([], goes_on v) (refl, refl)
        (refl, refl)

  on_status-Stays : (m : Moment R C) (v : Viewer W) → Stays R C v (on_status m v)
  on_status-Stays m v =
      either-Stays R C v.has_status v
        (
          text (audio_message {R = R} m.status).0 ∷ [],
          goes_on (record v { audio_announced = (audio_message {R = R} m.status).1 }),
        )
        ([], goes_on v) (refl, refl) (refl, refl)

  on_codec-Stays :
      (o : Option CodecDescription) (m : Moment R C) (v : Viewer W) → Stays R C v (on_codec o m v)
  on_codec-Stays none m v = ((refl, refl), refl)
  on_codec-Stays (some d) m v = (refl, refl)

  on_geometry-Stays : (o : Option VideoGeometry) (v : Viewer W) → Stays R C v (on_geometry o v)
  on_geometry-Stays none v = (refl, refl)
  on_geometry-Stays (some g) v = (refl, refl)

  on_revocation-Stays : (r : Revocation) (v : Viewer W) → Stays R C v (on_revocation r v)
  on_revocation-Stays r v =
      either-Stays R C (text_eq r.device_id v.device_id) v
        (text (session_closed r.reason) ∷ [], stops) ([], goes_on v) tt (refl, refl)

module _ {W : Type 0} where
  asked-Same : (is_asked is_used : Bool) (v : Viewer W) → Same v (asked is_asked (used is_used v))
  asked-Same true true v = (refl, refl)
  asked-Same true false v = (refl, refl)
  asked-Same false true v = (refl, refl)
  asked-Same false false v = (refl, refl)

module _ {R C At W : Type 0} (c : Controls At W) where
  react-Stays : (m : Moment R C) (e : Event At) (v : Viewer W) → Stays R C v (react c m e v)
  unfolding react
  react-Stays m (frame au) v = pass-Stays R C v.awaiting_keyframe au.is_key au.data_ v
  react-Stays m frames_lag v = (refl, refl)
  react-Stays m frames_closed v = tt
  react-Stays m (packet p) v = on_packet-Stays R C p m v
  react-Stays m packets_lag v = (refl, refl)
  react-Stays m packets_closed v = (refl, refl)
  react-Stays m status_changed v = on_status-Stays R C m v
  react-Stays m status_closed v = (refl, refl)
  react-Stays m codec_changed v = on_codec-Stays R C m.current_codec m v
  react-Stays m codec_closed v = tt
  react-Stays m geometry_changed v = on_geometry-Stays R C m.geometry v
  react-Stays m geometry_closed v = tt
  react-Stays m (revocation r) v = on_revocation-Stays R C r v
  react-Stays m revocations_lag v = (refl, refl)
  react-Stays m ping_due v = (refl, refl)
  react-Stays m (receives message) v =
      asked-Same (asks_keyframe message) (is_interaction message)
        (record v { world = (handle_client_message c message v.world).0 })
  react-Stays m receives_garbled v = (refl, refl)
  react-Stays m receives_other v = (refl, refl)
  react-Stays m closes v = tt
  react-Stays m source_ends v = tt
  react-Stays m source_fails v = tt

module _ (R C : Type 0) where
  -- A turn under a withdrawn reservation: the session ended, or nothing was sent.
  abbrev Ends : {W : Type 0} → Viewer W → List (Message R C) × Option (Viewer W) → Type 0
  Ends v (ms, none) = Unit {0}
  Ends v (ms, some w) = Same v w × (ms ≡ [])

  settled-Ends :
      {W : Type 0} (v : Viewer W) (s : Registry) (x : List (Message R C) × Next W)
      → is_ok (check v.device_id v.reservation_id s) ≡ false
      → Stays R C v x
      → Ends v (x.0, settle s x.1)
  settled-Ends v s (ms, goes_on w) h k =
      let gone : is_current s w ≡ false =
        ap (λ d. is_ok (check d w.reservation_id s)) k.0
        ∙ ap (λ r. is_ok (check v.device_id r s)) k.1
        ∙ h in
      rw gone tt
  settled-Ends v s (ms, skips w) h k = k
  settled-Ends v s (ms, stops) h k = tt

  delivered-Ends :
      {W : Type 0} (v : Viewer W) (m : Moment R C) (x : List (Message R C) × Next W)
      → is_ok (check v.device_id v.reservation_id m.sessions) ≡ false
      → Stays R C v x
      → Ends v (delivered m x)
  delivered-Ends v m x h k = elim (Bool-cases (not m.takes && not (is_empty x.0))) [
    | inl yes_ ↦ rw yes_ tt
    | inr no_ ↦ rw no_ (settled-Ends v m.sessions x h k)
  ]

module _ {R C At W : Type 0} (c : Controls At W) where
  turn-Ends :
      (m : Moment R C) (e : Event At) (v : Viewer W)
      → is_ok (check v.device_id v.reservation_id m.sessions) ≡ false
      → Ends R C v (turn c m e v)
  unfolding turn
  turn-Ends m e v h = delivered-Ends R C v m (react c m e v) h (react-Stays c m e v)

  -- The rest of the session after a turn that sent `ms`.
  session-rest :
      (v : Viewer W) (ts : List (Moment R C × Event At))
      (x : List (Message R C) × Option (Viewer W))
      → Ends R C v x
      → ((w : Viewer W) → Same v w → sending_turns (session c ts (some w)) ≤ 1)
      → one_if_sent x.0 + sending_turns (session c ts x.1) ≤ 1
  unfolding session
  session-rest v ts (ms, none) h k = let l = one_if_sent_lem ms in ground arith
  session-rest v ts (ms, some w) h k =
      let l = k w h.0 in let z : one_if_sent ms ≡ 0 = ap one_if_sent h.1 in ground arith

  sending_turns-session_from :
      (ts : List (Moment R C × Event At)) (device reservation : Text) (v : Viewer W)
      → v.device_id ≡ device
      → v.reservation_id ≡ reservation
      → IsWithdrawn device reservation ts
      → sending_turns (session c ts (some v)) ≤ 1
  unfolding session
  sending_turns-session_from [] device reservation v d r h = ground arith
  sending_turns-session_from ((m, e) ∷ ts) device reservation v d r h =
      session-rest v ts (turn c m e v)
        (turn-Ends m e v (
          ap (λ x. is_ok (check x v.reservation_id m.sessions)) d
          ∙ ap (λ x. is_ok (check device x m.sessions)) r
          ∙ h.0))
        (λ w same. sending_turns-session_from ts device reservation w (same.0 ∙ d) (same.1 ∙ r) h.1)

  -- From when the registry no longer gives the device to the viewer's reservation, whatever events
  -- the session meets, a viewer is sent messages in at most one more turn of its loop.
  pub sending_turns-session :
      (ts : List (Moment R C × Event At)) (v : Viewer W)
      → IsWithdrawn v.device_id v.reservation_id ts
      → sending_turns (session c ts (some v)) ≤ 1
  sending_turns-session ts v h =
      sending_turns-session_from ts v.device_id v.reservation_id v refl refl h
