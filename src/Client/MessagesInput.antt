-- ===== src/Client/MessagesInput.antt =====
-- semestral/internal/client/tui/models/messages_input_model.go. The text field is the library's.
use go_tasks.Prelude.{String, Bool, Option, none, some, str_eq, if◌then◌else◌, not, ◌&&◌}
use go_tasks.Prelude.Text.{trim_space}

-- What the model uses of a text field.
pub record TextInput (I : Type 0) : Type 0 where
  pub get_value : I → String
  pub set_value : String → I → I
  pub focus : I → I
  pub blur : I → I
  pub on_key_press : String → I → I
  pub on_other : I → I

pub record MessagesInput (I : Type 0) : Type 0 where
  pub field : I
  pub engaged : Bool

module _ {I : Type 0} (lib : TextInput I) where
  unfoldable pub set_engaged : Bool → MessagesInput I → MessagesInput I
  set_engaged engaged m = record m {
    engaged = engaged;
    field = if engaged then lib.focus m.field else lib.blur m.field;
  }

  -- A key, with the text that is sent.
  unfoldable pub update_key : String → MessagesInput I → MessagesInput I × Option String
  update_key key m =
      let text = trim_space (lib.get_value m.field) in
      if str_eq key "enter" && not (str_eq text "")
      then (record m { field = lib.set_value "" m.field }, some text)
      else (record m { field = lib.on_key_press key m.field }, none)
