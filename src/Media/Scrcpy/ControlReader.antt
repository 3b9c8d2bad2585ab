-- ===== src/Media/Scrcpy/ControlReader.antt =====
-- The server's side of the control socket, and the messages read back by it.
use yard.Prelude.{
  ℕ, ◌+◌, ◌*◌, ◌<◌, ◌^◌, ◌%◌, ◌/◌, ◌≡◌, refl, ap, Bool, true, false, Option, none, some, [], ◌∷◌,
  ◌++◌, ◌==◌, ==_self, ◌&&◌, if◌then◌else◌, Bytes, length, arith,
}
use yard.Prelude.Words.{
  be_bytes2, be_bytes4, be_bytes8, u16_mod, u32_mod, read_exact, read_u32, read_u32-be_bytes4,
  read_exact-append,
}
use yard.Media.Scrcpy.Control.{
  touch, keycode, text, set_clipboard, get_clipboard, set_display_power, rotate_device,
  back_or_screen_on, request_keyframe, bool_byte, touch_up, pressure_max,
}

-- What the server is told.
pub data Control : Type 0 where
  tap : (action pointer_id x y width height : ℕ) → Control
  key : (action code : ℕ) → Control
  typed : Bytes → Control
  copied : (sequence : ℕ) → Bytes → (paste : Bool) → Control
  ask power_off power_on rotate keyframe : Control
  back : (action : ℕ) → Control

abbrev and_then : {A B : Type 0} → Option A → (A → Option B) → Option B
and_then none f = none
and_then (some a) f = f a

read_u16 : Bytes → Option (ℕ × Bytes)
read_u16 (a ∷ b ∷ bs) = some (256 * a + b, bs)
read_u16 _ = none

read_u64 : Bytes → Option (ℕ × Bytes)
read_u64 bs =
    and_then (read_u32 bs) (λ a. and_then (read_u32 a.1) (λ b. some (a.0 * u32_mod + b.0, b.1)))

read_flag : Bytes → Option (Bool × Bytes)
read_flag [] = none
read_flag (b ∷ bs) = if b == 0 then some (false, bs) else if b == 1 then some (true, bs) else none

read_counted : Bytes → Option (Bytes × Bytes)
read_counted bs = and_then (read_u32 bs) (λ n. read_exact n.0 n.1)

-- A finger: full pressure while it is down, none once it is up, and no button.
read_touch : Bytes → Option (Control × Bytes)
read_touch [] = none
read_touch (action ∷ bs) = and_then (read_u64 bs) (λ id. and_then (read_u32 id.1) (λ x.
    and_then (read_u32 x.1) (λ y. and_then (read_u16 y.1) (λ w. and_then (read_u16 w.1) (λ h.
      and_then (read_u16 h.1) (λ pressure. and_then (read_u64 pressure.1) (λ buttons.
        if (pressure.0 == (if action == 1 then 0 else 65535)) && (buttons.0 == 0)
        then some (tap action id.0 x.0 y.0 w.0 h.0, buttons.1)
        else none)))))))

read_keycode : Bytes → Option (Control × Bytes)
read_keycode [] = none
read_keycode (action ∷ bs) = and_then (read_u32 bs) (λ code.
    and_then (read_u64 code.1)
      (λ unused. if unused.0 == 0 then some (key action code.0, unused.1) else none))

read_action : Bytes → Option (Control × Bytes)
read_action [] = none
read_action (action ∷ bs) = some (back action, bs)

pub read_control : Bytes → Option (Control × Bytes)
read_control [] = none
read_control (kind ∷ bs) =
    if kind == 0
    then read_keycode bs
    else if kind == 1
    then and_then (read_counted bs) (λ t. some (typed t.0, t.1))
    else if kind == 2
    then read_touch bs
    else if kind == 4
    then read_action bs
    else if kind == 8
    then and_then (read_flag bs) (λ copy_key. if copy_key.0 then none else some (ask, copy_key.1))
    else if kind == 9
    then and_then (read_u64 bs) (λ n.
      and_then (read_flag n.1)
        (λ paste. and_then (read_counted paste.1) (λ t. some (copied n.0 t.0 paste.0, t.1))))
    else if kind == 10
    then and_then (read_flag bs) (λ on. some (if on.0 then power_on else power_off, on.1))
    else if kind == 11
    then some (rotate, bs)
    else if kind == 17
    then some (keyframe, bs)
    else none

-- The source's message for each.
unfoldable pub encode : Control → Bytes
encode (tap action id x y w h) = touch action id x y w h
encode (key action code) = keycode action code
encode (typed t) = text t
encode (copied n t paste) = set_clipboard n t paste
encode ask = get_clipboard
encode power_off = set_display_power false
encode power_on = set_display_power true
encode rotate = rotate_device
encode keyframe = request_keyframe
encode (back action) = back_or_screen_on action

unfoldable pub Fits : Control → Type 0
Fits (tap action id x y w h) =
    (id < 2 ^ 64) × (x < u32_mod) × (y < u32_mod) × (w < u16_mod) × (h < u16_mod)
Fits (key action code) = code < u32_mod
Fits (typed t) = length t < u32_mod
Fits (copied n t paste) = (n < 2 ^ 64) × (length t < u32_mod)
Fits _ = Unit {0}

read_u16-be_bytes2 :
    (n : ℕ) (bs : Bytes) → n < u16_mod → read_u16 (be_bytes2 n ++ bs) ≡ some (n, bs)
unfolding read_u16
read_u16-be_bytes2 n bs h = ap (λ k. some (k, bs)) (omega arith)

read_u64-be_bytes8 : (n : ℕ) (bs : Bytes) → n < 2 ^ 64 → read_u64 (be_bytes8 n ++ bs) ≡ some (n, bs)
unfolding read_u64
read_u64-be_bytes8 n bs h =
    let low : ℕ = n % u32_mod in
    rw (read_u32-be_bytes4 (n / u32_mod % u32_mod) (be_bytes4 low ++ bs) (omega arith))
      (rw (read_u32-be_bytes4 low bs (omega arith)) (ap (λ k. some (k, bs)) (omega arith)))

read_counted-be_bytes4 :
    (t bs : Bytes)
    → length t < u32_mod
    → read_counted (be_bytes4 (length t % u32_mod) ++ (t ++ bs)) ≡ some (t, bs)
unfolding read_counted
read_counted-be_bytes4 t bs h =
    let w : length t % u32_mod ≡ length t = omega arith in
    rw w (rw (read_u32-be_bytes4 (length t) (t ++ bs) h) (read_exact-append (length t) t bs refl))

read_flag-bool_byte : (b : Bool) (bs : Bytes) → read_flag (bool_byte b ∷ bs) ≡ some (b, bs)
unfolding read_flag
read_flag-bool_byte true bs = refl
read_flag-bool_byte false bs = refl

zeros : (bs : Bytes) → read_u64 (be_bytes4 0 ++ (be_bytes4 0 ++ bs)) ≡ some (0, bs)
zeros bs = read_u64-be_bytes8 0 bs (omega arith)

read_touch-touch :
    (action id x y w h : ℕ) (bs : Bytes)
    → Fits (tap action id x y w h)
    → read_control (touch action id x y w h ++ bs) ≡ some (tap action id x y w h, bs)
unfolding read_control read_touch touch Fits
read_touch-touch action id x y w h bs (i, j, k, l, m) =
    let c : w % u16_mod ≡ w = omega arith in
    let d : h % u16_mod ≡ h = omega arith in
    let p : ℕ = if action == touch_up then 0 else pressure_max in
    let q : p < u16_mod = ground arith in
    rw (c, d)
      (rw (read_u64-be_bytes8 id _ i) (
        rw (read_u32-be_bytes4 x _ j) (
          rw (read_u32-be_bytes4 y _ k) (
            rw (read_u16-be_bytes2 w _ l) (
              rw (read_u16-be_bytes2 h _ m)
                (rw (read_u16-be_bytes2 p _ q) (rw (zeros bs) (rw (==_self p) refl))))))))

read_keycode-keycode :
    (action code : ℕ) (bs : Bytes)
    → code < u32_mod
    → read_control (keycode action code ++ bs) ≡ some (key action code, bs)
unfolding read_control read_keycode keycode
read_keycode-keycode action code bs h = rw (read_u32-be_bytes4 code _ h) (rw (zeros bs) refl)

read_set_clipboard :
    (n : ℕ) (t : Bytes) (paste : Bool) (bs : Bytes)
    → n < 2 ^ 64
    → length t < u32_mod
    → read_control (set_clipboard n t paste ++ bs) ≡ some (copied n t paste, bs)
unfolding read_control set_clipboard
read_set_clipboard n t paste bs h k =
    rw (read_u64-be_bytes8 n _ h)
      (rw (read_flag-bool_byte paste _) (rw (read_counted-be_bytes4 t bs k) refl))

-- The server's reader gets every message of the control socket back from its bytes, whatever follows
-- them, where its numbers fit their fields and its text is shorter than 4 GiB: a touch comes with a
-- pressure that agrees with its action and no button.
pub read_control-encode :
    (c : Control) (bs : Bytes) → Fits c → read_control (encode c ++ bs) ≡ some (c, bs)
unfolding encode Fits read_control read_flag read_action text get_clipboard set_display_power
    rotate_device request_keyframe back_or_screen_on
read_control-encode (tap action id x y w h) bs k = read_touch-touch action id x y w h bs k
read_control-encode (key action code) bs k = read_keycode-keycode action code bs k
read_control-encode (typed t) bs k = rw (read_counted-be_bytes4 t bs k) refl
read_control-encode (copied n t paste) bs k = read_set_clipboard n t paste bs k.0 k.1
read_control-encode ask bs k = refl
read_control-encode power_off bs k = refl
read_control-encode power_on bs k = refl
read_control-encode rotate bs k = refl
read_control-encode keyframe bs k = refl
read_control-encode (back action) bs k = refl
