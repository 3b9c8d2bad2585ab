-- ===== src/Server/Client.antt =====
-- packages/provider/crates/provider-core/src/server.rs: `handle_client_message`, what a viewer's
-- messages do to the device. `At` stands for a pointer's id with its point.
use yard.Prelude.{ℕ, Bool, true, false, Option, Text, ok, err}
use yard.Core.Cleanup.{Reply, describe}

pub data ClientMessage (At : Type 0) : Type 0 where
  pointer_down pointer_move pointer_up : At → ClientMessage At
  key : Text → (down : Bool) → ClientMessage At
  text : Text → ClientMessage At
  clipboard_get : ClientMessage At
  clipboard_set : Text → ClientMessage At
  rotate : (degrees : ℕ) → ClientMessage At
  keyframe : ClientMessage At
  pong : (at : ℕ) → ClientMessage At

pub data InputEvent (At : Type 0) : Type 0 where
  pointer_down pointer_move pointer_up : At → InputEvent At
  key : Text → (down : Bool) → InputEvent At
  text : Text → InputEvent At

-- What a viewer's messages need of a backend.
pub record Controls (At W : Type 0) : Type 0 where
  pub input : InputEvent At → W → W × Reply (Unit {0})
  pub clipboard_get : W → W × Reply (Option Text)
  pub clipboard_set : Text → W → W × Reply (Unit {0})
  pub rotate : ℕ → W → W × Reply (Unit {0})

-- What is sent back, if anything.
pub data Answer : Type 0 where
  silence : Answer
  clipboard : Option Text → Answer
  error : Text → Answer

-- The yard-protocol's `is_interaction`.
unfoldable pub is_interaction : {At : Type 0} → ClientMessage At → Bool
is_interaction ClientMessage.keyframe = false
is_interaction (ClientMessage.pong at) = false
is_interaction m = true

abbrev pub complaint : Reply (Unit {0}) → Answer
complaint (ok u) = silence
complaint (err e) = error (describe e)

abbrev pub clipboard_answer : Reply (Option Text) → Answer
clipboard_answer (ok content) = clipboard content
clipboard_answer (err e) = error (describe e)

module _ {At W : Type 0} (c : Controls At W) where
  abbrev done : W × Reply (Unit {0}) → W × Answer
  done (w, r) = (w, complaint r)

  -- The device and the answer; a keyframe is asked for by the caller.
  unfoldable pub handle_client_message : ClientMessage At → W → W × Answer
  handle_client_message (ClientMessage.pointer_down at) w =
      done (c.input (InputEvent.pointer_down at) w)
  handle_client_message (ClientMessage.pointer_move at) w =
      done (c.input (InputEvent.pointer_move at) w)
  handle_client_message (ClientMessage.pointer_up at) w =
      done (c.input (InputEvent.pointer_up at) w)
  handle_client_message (ClientMessage.key k down) w = done (c.input (InputEvent.key k down) w)
  handle_client_message (ClientMessage.text t) w = done (c.input (InputEvent.text t) w)
  handle_client_message ClientMessage.clipboard_get w =
      let (w', r) = c.clipboard_get w in (w', clipboard_answer r)
  handle_client_message (ClientMessage.clipboard_set t) w = done (c.clipboard_set t w)
  handle_client_message (ClientMessage.rotate degrees) w = done (c.rotate degrees w)
  handle_client_message ClientMessage.keyframe w = (w, silence)
  handle_client_message (ClientMessage.pong at) w = (w, silence)

abbrev pub asks_keyframe : {At : Type 0} → ClientMessage At → Bool
asks_keyframe ClientMessage.keyframe = true
asks_keyframe m = false
