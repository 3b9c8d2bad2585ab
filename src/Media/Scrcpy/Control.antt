-- ===== src/Media/Scrcpy/Control.antt =====
-- packages/provider/crates/backend-android/src/scrcpy.rs: the messages of the control socket. A
-- text stands for its UTF-8 bytes, an `i32` for its two's complement bit pattern.
use yard.Prelude.{
  ℕ, ◌%◌, Bool, Option, none, some, [], ◌∷◌, ◌++◌, ◌==◌, if◌then◌else◌, Bytes, length, Text, Result,
  ok, err, ◌>>=◌, ok_or,
}
use yard.Prelude.Words.{be_bytes2, be_bytes4, be_bytes8, u16_mod, u32_mod, read_exact, read_u32}
use yard.Media.Scrcpy.{ScrcpyError, eof, unknown_device_message}

abbrev pub inject_keycode : ℕ
inject_keycode = 0

abbrev pub inject_text : ℕ
inject_text = 1

abbrev pub inject_touch_event : ℕ
inject_touch_event = 2

abbrev pub back_or_screen_on_ : ℕ
back_or_screen_on_ = 4

abbrev pub get_clipboard_ : ℕ
get_clipboard_ = 8

abbrev pub set_clipboard_ : ℕ
set_clipboard_ = 9

abbrev pub set_display_power_ : ℕ
set_display_power_ = 10

abbrev pub rotate_device_ : ℕ
rotate_device_ = 11

abbrev pub reset_video : ℕ
reset_video = 17

abbrev pub touch_up : ℕ
touch_up = 1

abbrev pub pressure_max : ℕ
pressure_max = 0xFFFF

abbrev pub bool_byte : Bool → ℕ
bool_byte b = if b then 1 else 0

unfoldable pub touch : ℕ → ℕ → ℕ → ℕ → ℕ → ℕ → Bytes
touch action pointer_id x y width height =
    inject_touch_event
    ∷ action
    ∷ (be_bytes8 pointer_id
        ++ (be_bytes4 x
            ++ (be_bytes4 y
                ++ (be_bytes2 (width % u16_mod)
                    ++ (be_bytes2 (height % u16_mod)
                        ++ (be_bytes2 (if action == touch_up then 0 else pressure_max)
                            ++ (be_bytes4 0 ++ be_bytes4 0)))))))

unfoldable pub keycode : ℕ → ℕ → Bytes
keycode action key = inject_keycode ∷ action ∷ (be_bytes4 key ++ (be_bytes4 0 ++ be_bytes4 0))

unfoldable pub text : Bytes → Bytes
text bytes = inject_text ∷ (be_bytes4 (length bytes % u32_mod) ++ bytes)

unfoldable pub set_clipboard : ℕ → Bytes → Bool → Bytes
set_clipboard sequence bytes paste =
    set_clipboard_
    ∷ (be_bytes8 sequence ++ (bool_byte paste ∷ (be_bytes4 (length bytes % u32_mod) ++ bytes)))

unfoldable pub get_clipboard : Bytes
get_clipboard = get_clipboard_ ∷ 0 ∷ []

unfoldable pub set_display_power : Bool → Bytes
set_display_power on = set_display_power_ ∷ bool_byte on ∷ []

unfoldable pub rotate_device : Bytes
rotate_device = rotate_device_ ∷ []

unfoldable pub back_or_screen_on : ℕ → Bytes
back_or_screen_on action = back_or_screen_on_ ∷ action ∷ []

unfoldable pub request_keyframe : Bytes
request_keyframe = reset_video ∷ []

abbrev pub clipboard : ℕ
clipboard = 0

abbrev pub ack_clipboard : ℕ
ack_clipboard = 1

-- One message from the device: the clipboard's text, if it was that, and what is left.
unfoldable pub read_device_message :
    (Bytes → Text) → Bytes → Result ScrcpyError (Option Text × Bytes)
read_device_message lossy [] = err eof
read_device_message lossy (kind ∷ bs) =
    if kind == clipboard
    then ok_or (read_u32 bs) eof
      >>= (λ n. ok_or (read_exact n.0 n.1) eof >>= (λ body. ok (some (lossy body.0), body.1)))
    else if kind == ack_clipboard
    then ok_or (read_exact 8 bs) eof >>= (λ sequence. ok (none, sequence.1))
    else err (unknown_device_message kind)
