-- ===== src/Server/Messages.antt =====
-- packages/provider/crates/yard-protocol/src/generated.rs and provider-core/src/server.rs: what a viewer
-- is told. `R` stands for the scale of a display and `C` for an audio codec.
use yard.Prelude.{ℕ, Option, none, some, Text, Bytes}

pub record VideoGeometry : Type 0 where
  pub width : ℕ
  pub height : ℕ
  pub rotation : Option ℕ
  pub render_rotation : Option ℕ

pub record Display (R : Type 0) : Type 0 where
  pub width : ℕ
  pub height : ℕ
  pub scale : Option R
  pub rotation : Option ℕ
  pub render_rotation : Option ℕ

-- The description goes in base64, which keeps its bytes.
pub data ServerMessage (R C : Type 0) : Type 0 where
  codec : Text → (description : Bytes) → Display R → ServerMessage R C
  display : Display R → ServerMessage R C
  audio_codec : C → ServerMessage R C
  audio_unavailable : (reason : Text) → ServerMessage R C
  clipboard_text : Option Text → ServerMessage R C
  session_closed : (reason : Text) → ServerMessage R C
  error_message : Text → ServerMessage R C

pub data Message (R C : Type 0) : Type 0 where
  text : ServerMessage R C → Message R C
  binary : Bytes → Message R C
  ping : Message R C

module _ {R : Type 0} where
  unfoldable pub display_of : VideoGeometry → Display R
  display_of g = record {
    width = g.width;
    height = g.height;
    scale = none;
    rotation = g.rotation;
    render_rotation = g.render_rotation;
  }

  abbrev pub no_display : Display R
  no_display = record {
    width = 0;
    height = 0;
    scale = none;
    rotation = none;
    render_rotation = none;
  }

  abbrev pub or_no_display : Option (Display R) → Display R
  or_no_display none = no_display
  or_no_display (some d) = d

  abbrev pub current_display : Option VideoGeometry → Option (Display R) → Display R
  current_display (some g) info = display_of g
  current_display none info = or_no_display info
