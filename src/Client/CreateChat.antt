-- ===== src/Client/CreateChat.antt =====
-- semestral/internal/client/tui/models/create_chat_submodel.go: the form for a new chat, without its
-- drawing. A key is its name and the text that it types.
pub mod Submit
pub mod Form
use Prim.Native.Char.{code}
use go_tasks.Prelude.{
  ℕ, zero, suc, ◌+◌, ◌-◌, ◌%◌, String, Bool, true, false, ◌&&◌, ◌||◌, not, Option, none, some, List,
  [], ◌∷◌, ◌++◌, ltb, leb, ◌==◌, length, str_eq, if◌then◌else◌,
}
use go_tasks.Prelude.Text.{concat, trim_space, is_nil, byte_length, char_count, drop_last}
use go_tasks.Prelude.Outcome.{Failable, value, failure, Err}
use go_tasks.Client.Session.{
  Session, Profile, Chat, direct, group, get_profile, insert_chat, set_chat_members,
}
use go_tasks.Client.Requests.{ProfileReply, resolve_profile_to_session}

pub record CreateChat : Type 0 where
  pub is_group : Bool
  pub user_ids : List String
  pub input_val : String
  pub group_name : String
  pub focus_index : ℕ
  pub cursor : ℕ

abbrev pub max_user_id_len : ℕ
max_user_id_len = 9

abbrev pub max_group_name_len : ℕ
max_group_name_len = 100

unfoldable pub new_create_chat : Bool → CreateChat
new_create_chat is_group = record {
  is_group = is_group;
  user_ids = [];
  input_val = "";
  group_name = "";
  focus_index = 0;
  cursor = 0;
}

abbrev pub is_group_name_focused : CreateChat → Bool
is_group_name_focused m = m.is_group && m.focus_index == 0

abbrev pub is_member_input_focused : CreateChat → Bool
is_member_input_focused m = if m.is_group then m.focus_index == 1 else m.focus_index == 0

abbrev pub is_members_list_focused : CreateChat → Bool
is_members_list_focused m = if m.is_group then m.focus_index == 2 else m.focus_index == 1

unfoldable pub next_focus : CreateChat → CreateChat
next_focus m = record m { focus_index = (m.focus_index + 1) % (if m.is_group then 3 else 2) }

-- What is shown next: the form, the screen that it came from, with or without the command that
-- creates the chat, an error, or a panic.
pub data Next : Type 0 where
  stays : CreateChat → Next
  returns : Next
  submits : CreateChat → Next
  fails : Err → CreateChat → Next
  panics : Next

pub record Key : Type 0 where
  pub name : String
  pub text : String

-- Whether `strconv.Atoi` reads the name of a key, which is one character or a word.
unfoldable pub is_digit : String → Bool
is_digit String.[] = false
is_digit (String.◌∷◌ c rest) = is_nil rest && leb b'0' (code c) && leb (code c) b'9'

unfoldable pub on_group_name : Key → CreateChat → CreateChat
unfolding drop_last
on_group_name key m =
    if str_eq key.name "backspace"
    then record m { group_name = drop_last m.group_name }
    else (if ltb (char_count m.group_name) max_group_name_len
        then record m { group_name = concat m.group_name key.text }
        else m)

unfoldable pub on_enter : CreateChat → Next
unfolding trim_space
on_enter m =
    if is_nil m.input_val
    then (if ltb 0 (length m.user_ids) && (not m.is_group || not (is_nil (trim_space m.group_name)))
        then submits m
        else stays m)
    else (if byte_length m.input_val == max_user_id_len
        then (if not m.is_group && leb 1 (length m.user_ids)
            then fails "direct chats can only have exactly 1 member" (record m { input_val = "" })
            else stays (record m {
              user_ids = m.user_ids ++ m.input_val ∷ [];
              input_val = "";
              cursor = length m.user_ids;
            }))
        else stays m)

-- The input holds digits only, so that its bytes are its characters.
unfoldable pub on_member_input : Key → CreateChat → Next
unfolding on_enter drop_last is_digit
on_member_input key m =
    if str_eq key.name "backspace"
    then stays (record m { input_val = drop_last m.input_val })
    else (if str_eq key.name "enter"
        then on_enter m
        else (if ltb (byte_length m.input_val) max_user_id_len && is_digit key.name
            then stays (record m { input_val = concat m.input_val key.name })
            else stays m))

-- The list without the item at an index below its length.
unfoldable pub remove_at : ℕ → List String → List String
remove_at i [] = []
remove_at zero (x ∷ xs) = xs
remove_at (suc i) (x ∷ xs) = x ∷ remove_at i xs

-- The slices panic where the cursor is behind the last member.
unfoldable pub remove_member : CreateChat → Next
unfolding remove_at
remove_member m =
    if ltb m.cursor (length m.user_ids)
    then (let rest = remove_at m.cursor m.user_ids in
        stays (record m {
          user_ids = rest;
          cursor = m.cursor - 1;
          focus_index = if length rest == 0 then 0 else m.focus_index;
        }))
    else panics

unfoldable pub on_members_list : Key → CreateChat → Next
unfolding remove_member
on_members_list key m =
    if str_eq key.name "k" || str_eq key.name "up"
    then stays (record m { cursor = m.cursor - 1 })
    else (if str_eq key.name "j" || str_eq key.name "down"
        then stays (record m {
          cursor = if ltb (m.cursor + 1) (length m.user_ids) then m.cursor + 1 else m.cursor;
        })
        else (if (str_eq key.name "x" || str_eq key.name "backspace") && ltb 0 (length m.user_ids)
            then remove_member m
            else stays m))

unfoldable pub on_field : Key → CreateChat → Next
unfolding on_group_name on_member_input on_members_list
on_field key m =
    if is_group_name_focused m
    then stays (on_group_name key m)
    else (if is_member_input_focused m
        then on_member_input key m
        else (if is_members_list_focused m then on_members_list key m else stays m))

-- `Update` for a key.
unfoldable pub update_key : Key → CreateChat → Next
unfolding next_focus on_field
update_key key m =
    if str_eq key.name "esc"
    then returns
    else (if str_eq key.name "tab"
        then stays (next_focus m)
        else (if str_eq key.name "ctrl+s" && ltb 0 (length m.user_ids)
            then submits m
            else on_field key m))
