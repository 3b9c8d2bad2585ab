-- ===== src/Media/Scrcpy/Loop.antt =====
-- The loop of the video socket: what a viewer sees of it, and that it ends.
use yard.Prelude.{
  ℕ, zero, suc, ◌+◌, ◌*◌, ◌≤◌, ◌⊎◌, if◌then◌else◌, ◌>>=◌, subst, ◌<◌, ◌≡◌, ◌≢◌, refl, ap, sym, ◌∙◌,
  Bool, true, false, Option, none, some, List, [], ◌∷◌, ◌++◌, Bytes, length, arith, Result, ok, err,
  ok_or, Option-cases, Bool-cases, inl, inr, leb, ◌&&◌, ◌==◌, text_eq_iff,
}
use yard.Prelude.Words.{u32_mod, read_u32, read_exact, length-read_u32, length-read_exact}
use yard.Media.Scrcpy.{
  VideoFrame, session, packet, read_frame, session_marker, Pump, Event, resized, announced_codec,
  published, CodecDescription, set_geometry, announce, publish, publish_to, describe, on_frame,
  pump_video, is_announced, ScrcpyError, eof, packet_of,
}
use yard.Media.Scrcpy.Frames.{Sent, write, Fits, received, read_frame-write}

-- The codec and the size that a viewer knows after the given events.
unfoldable pub last_codec : List Event → Option CodecDescription
last_codec [] = none
last_codec (resized w h ∷ es) = last_codec es
last_codec (announced_codec d ∷ es) = some d
last_codec (published u ∷ es) = last_codec es

unfoldable pub last_size : ℕ × ℕ → List Event → ℕ × ℕ
last_size s [] = s
last_size s (resized w h ∷ es) = (w, h)
last_size s (announced_codec d ∷ es) = last_size s es
last_size s (published u ∷ es) = last_size s es

-- Each announcement is of a change, and each picture comes behind a codec.
unfoldable pub Ordered : ℕ × ℕ → List Event → Type 0
Ordered s [] = Unit {0}
Ordered s (resized w h ∷ es) = (last_size s es ≢ (w, h)) × Ordered s es
Ordered s (announced_codec d ∷ es) = (last_codec es ≢ some d) × Ordered s es
Ordered s (published u ∷ es) = (last_codec es ≢ none) × Ordered s es

-- The pump's variables agree with its events.
pub record Sound (s : ℕ × ℕ) (p : Pump) : Type 0 where
  pub codec : p.announced ≡ last_codec p.events
  pub size : p.geometry ≡ last_size s p.events
  pub order : Ordered s p.events

same : (d : CodecDescription) → is_announced (some d) d ≡ true
same d =
    rw ((text_eq_iff d.codec d.codec).1 refl, (text_eq_iff d.description d.description).1 refl) refl

differs :
    (c : Option CodecDescription) (d : CodecDescription) → is_announced c d ≡ false → c ≢ some d
differs c d h e = ground (arith, same d, ap (λ o. is_announced o d) e)

moved : (s : ℕ × ℕ) (w h : ℕ) → ((s.0 == w) && (s.1 == h)) ≡ false → s ≢ (w, h)
moved s w h k e = ground (arith, ap (λ q. q.0) e, ap (λ q. q.1) e)

set_geometry-Sound : {s : ℕ × ℕ} (p : Pump) (w h : ℕ) → Sound s p → Sound s (set_geometry p w h)
unfolding set_geometry last_codec last_size Ordered
set_geometry-Sound p w h k = elim (Bool-cases ((p.geometry.0 == w) && (p.geometry.1 == h))) [
  | inl e ↦ rw e k
  | inr e ↦ rw e record {
    codec = k.codec;
    size = refl;
    order = (λ q. moved p.geometry w h e (k.size ∙ q), k.order);
  }
]

announce-Sound : {s : ℕ × ℕ} (p : Pump) (d : CodecDescription) → Sound s p → Sound s (announce p d)
unfolding announce last_codec last_size Ordered
announce-Sound p d k = elim (Bool-cases (is_announced p.announced d)) [
  | inl e ↦ rw e k
  | inr e ↦ rw e record {
    codec = refl;
    size = k.size;
    order = (λ q. differs p.announced d e (k.codec ∙ q), k.order);
  }
]

publish_to-Sound :
    {s : ℕ × ℕ} (o : Option CodecDescription) (p : Pump) (key : Bool) (bs : Bytes)
    → p.announced ≡ o
    → Sound s p
    → Sound s (publish_to o p key bs)
unfolding last_codec last_size Ordered
publish_to-Sound none p key bs e k = k
publish_to-Sound (some d) p key bs e k = record {
  codec = k.codec;
  size = k.size;
  order = (λ q. ground (arith, sym e ∙ (k.codec ∙ q)), k.order);
}

publish-Sound :
    {s : ℕ × ℕ} (p : Pump) (key : Bool) (bs : Bytes) → Sound s p → Sound s (publish p key bs)
unfolding publish
publish-Sound p key bs k = publish_to-Sound p.announced p key bs refl k

on_frame-Sound : {s : ℕ × ℕ} (p : Pump) (f : VideoFrame) → Sound s p → Sound s (on_frame p f)
unfolding on_frame
on_frame-Sound p (session w h) k = set_geometry-Sound p w h k
on_frame-Sound p (packet true key t bs) k = elim (Option-cases (describe bs)) [
  | inl e ↦ rw (e, on_frame) k
  | inr (d, e) ↦ rw (e, on_frame) (announce-Sound p d k)
]
on_frame-Sound p (packet false key t bs) k = publish-Sound p key bs k

-- What a read leaves of `n` bytes: a block is twelve bytes at least.
abbrev Leaves : ℕ → Result ScrcpyError (VideoFrame × Bytes) → Type 0
Leaves n (ok r) = length r.1 + 12 ≤ n
Leaves n (err e) = Unit {0}

read_body-Leaves :
    (n a b c : ℕ) (cs : Bytes)
    → length cs + 12 ≤ n
    → Leaves n (
        if leb session_marker a
        then ok (session b c, cs)
        else ok_or (read_exact c cs) eof
          >>= (λ body. ok (packet_of (a * u32_mod + b) body.0, body.1)))
read_body-Leaves n a b c cs h = elim (Bool-cases (leb session_marker a)) [
  | inl e ↦ rw e h
  | inr e ↦ rw e (elim (Option-cases (read_exact c cs)) [
    | inl i ↦ rw i tt
    | inr ((body, rest), i) ↦ rw i (omega (arith, length-read_exact c cs i))
  ])
]

read_frame-Leaves : (bs : Bytes) → Leaves (length bs) (read_frame bs)
unfolding read_frame
read_frame-Leaves bs = elim (Option-cases (read_u32 bs)) [
  | inl e ↦ rw e tt
  | inr ((a, xs), e) ↦ rw e (elim (Option-cases (read_u32 xs)) [
    | inl i ↦ rw i tt
    | inr ((b, ys), i) ↦ rw i (elim (Option-cases (read_u32 ys)) [
      | inl j ↦ rw j tt
      | inr ((c, zs), j) ↦ rw j (
          read_body-Leaves (length bs) a b c zs
            (omega (arith, length-read_u32 bs e, length-read_u32 xs i, length-read_u32 ys j)))
    ])
  ])
]

Result-cases :
    (r : Result ScrcpyError (VideoFrame × Bytes))
    → ((e : ScrcpyError) × (r ≡ err e)) ⊎ ((x : VideoFrame × Bytes) × (r ≡ ok x))
Result-cases (err e) = inl (e, refl)
Result-cases (ok x) = inr (x, refl)

-- The video loop ends, with as much fuel as the stream has bytes and one more. If at its start the
-- pump's variables agree with its events, they do at its end, every announcement was of another codec
-- or size than the one before, and no picture went out before a codec.
pub pump_video-Sound :
    {s : ℕ × ℕ} (fuel : ℕ) (bs : Bytes) (p : Pump)
    → length bs < fuel
    → Sound s p
    → (out : Pump × ScrcpyError) × (pump_video fuel bs p ≡ some out) × Sound s out.0
unfolding pump_video
pump_video-Sound zero bs p h k = absurd (omega arith)
pump_video-Sound (suc fuel) bs p h k = elim (Result-cases (read_frame bs)) [
  | inl (e, i) ↦ ((p, e), rw (i, pump_video) refl, k)
  | inr ((f, rest), i) ↦
      let l : length rest + 12 ≤ length bs = subst (Leaves (length bs)) i (read_frame-Leaves bs) in
      let out : (o : Pump × ScrcpyError) × (pump_video fuel rest (on_frame p f) ≡ some o)
          × Sound _ o.0 =
        pump_video-Sound fuel rest (on_frame p f) (omega arith) (on_frame-Sound p f k) in
      (out.0, rw (i, pump_video) out.1, out.2)
]

-- The blocks one after another, and the turns they make.
unfoldable pub stream : List Sent → Bytes
stream [] = []
stream (f ∷ fs) = write f ++ stream fs

unfoldable pub turns : Pump → List Sent → Pump
turns p [] = p
turns p (f ∷ fs) = turns (on_frame p (received f)) fs

unfoldable pub AllFit : List Sent → Type 0
AllFit [] = Unit {0}
AllFit (f ∷ fs) = Fits f × AllFit fs

pub read_frame_empty : read_frame [] ≡ err eof
unfolding read_frame read_u32
read_frame_empty = refl

-- The loop takes the server's blocks one by one, in order, and ends where the stream does, where the
-- blocks' numbers fit their fields.
pub pump_video-stream :
    (fs : List Sent) (p : Pump)
    → AllFit fs
    → pump_video (suc (length fs)) (stream fs) p ≡ some (turns p fs, eof)
unfolding pump_video stream turns AllFit
pump_video-stream [] p h = rw (read_frame_empty, pump_video) refl
pump_video-stream (f ∷ fs) p h =
    rw (read_frame-write f (stream fs) h.0, pump_video)
      (pump_video-stream fs (on_frame p (received f)) h.1)
