-- ===== src/Client/Chat/Keys.antt =====
-- The keys of the screen of a chat (semestral/internal/client/tui/models/chat_model.go): those of
-- its own, and those of the section that is engaged.
use go_tasks.Prelude.{
  ℕ, ◌+◌, ◌%◌, String, Bool, true, false, Option, none, some, [], ◌∷◌, map, ◌==◌, str_eq,
  if◌then◌else◌,
}
use go_tasks.Prelude.Outcome.{ok, panic}
use go_tasks.Client.ChatList
use go_tasks.Client.ChatList.{key_press}
use go_tasks.Client.MessagesList.Keys.{on_key}
use go_tasks.Client.MessagesInput
use go_tasks.Client.MessagesInput.{TextInput, MessagesInput, update_key}
use go_tasks.Client.Chat.{
  Screen, Section, chats, messages, input, of_chats, of_messages, submit, Next, stays, opens,
  panics, Target, error_screen, no_chat_selected, profile_screen, create_chat, invite_user,
  leave_chat, chat_info,
}

-- The section of an area, by the number of the area; that of the profile, 0, has none.
unfoldable pub section_of : ℕ → Option Section
section_of area =
    if area == 1
    then some chats
    else (if area == 2 then some messages else (if area == 3 then some input else none))

unfoldable pub needs_chat : {I : Type 0} → (String → Target) → Screen I → Next I
needs_chat target s =
    if str_eq s.chat_id ""
    then opens (error_screen no_chat_selected) s
    else opens (target s.chat_id) s

-- The keys that open another screen.
unfoldable pub open_key : {I : Type 0} → String → Screen I → Next I
unfolding needs_chat
open_key key s =
    if str_eq key "d"
    then opens (create_chat false) s
    else (if str_eq key "g"
        then opens (create_chat true) s
        else (if str_eq key "i"
            then needs_chat invite_user s
            else (if str_eq key "l"
                then needs_chat leave_chat s
                else (if str_eq key "m" then needs_chat chat_info s else stays s []))))

-- The profile leaves the model that was active before.
abbrev pub or_before : Option Section → Option Section → Option Section
or_before none before = before
or_before (some section) before = some section

module _ {I : Type 0} (lib : TextInput I) where
  unfoldable pub set_engaged : Section → Bool → Screen I → Screen I
  unfolding ChatList.set_engaged MessagesInput.set_engaged
  set_engaged chats engaged s = record s { chats_list = ChatList.set_engaged engaged s.chats_list }
  set_engaged messages engaged s =
      let w = s.world in
      record s { world = record w { view = record (w.view) { engaged = engaged } } }
  set_engaged input engaged s = record s {
    message_input = MessagesInput.set_engaged lib engaged s.message_input;
  }

  unfoldable pub engage_active : Bool → Screen I → Screen I
  unfolding set_engaged
  engage_active engaged s = elim s.active_model [
    | none ↦ s
    | some section ↦ set_engaged section engaged s
  ]

  -- `handleOwnKeys`
  unfoldable pub own_key : String → Screen I → Next I
  unfolding open_key engage_active section_of
  own_key key s =
      if str_eq key "shift+tab"
      then stays (record s { focused_area = (s.focused_area + 3) % 4 }) []
      else (if str_eq key "tab"
          then stays (record s { focused_area = (s.focused_area + 1) % 4 }) []
          else (if str_eq key "enter"
              then stays
                  (engage_active true (record s {
                    is_engaged = true;
                    active_model = or_before (section_of s.focused_area) s.active_model;
                  }))
                  []
              else open_key key s))

  unfoldable pub profile_key : String → Screen I → Next I
  profile_key key s =
      if str_eq key "enter"
      then opens (profile_screen s.world.session.user_id) (record s { is_engaged = false })
      else stays s []

  unfoldable pub chats_key : String → Screen I → Next I
  unfolding ChatList.update
  chats_key key s = elim (ChatList.update s.world.session (key_press key) s.chats_list) [
    | panic ↦ panics
    | ok (chats_list, cmd) ↦ stays (record s { chats_list = chats_list }) (of_chats cmd ∷ [])
  ]

  unfoldable pub messages_key : String → Screen I → Next I
  unfolding on_key
  messages_key key s = elim (on_key key s.world) [
    | panic ↦ panics
    | ok (world, cmds) ↦ stays (record s { world = world }) (map of_messages cmds)
  ]

  unfoldable pub input_key : String → Screen I → Next I
  unfolding update_key
  input_key key s =
      let (message_input, sent) = update_key lib key s.message_input in
      stays (record s { message_input = message_input })
        (elim sent [ none ↦ [] | some text ↦ submit text ∷ [] ])

  unfoldable pub section_key : Option Section → String → Screen I → Next I
  unfolding profile_key chats_key messages_key input_key
  section_key none key s = profile_key key s
  section_key (some chats) key s = chats_key key s
  section_key (some messages) key s = messages_key key s
  section_key (some input) key s = input_key key s

  -- `handleComponentRouting`
  unfoldable pub routed_key : String → Screen I → Next I
  unfolding section_key engage_active section_of
  routed_key key s =
      if str_eq key "esc"
      then stays (engage_active false (record s { is_engaged = false })) []
      else section_key (section_of s.focused_area) key s

  unfoldable pub on_key_press : String → Screen I → Next I
  unfolding own_key routed_key
  on_key_press key s = if s.is_engaged then routed_key key s else own_key key s
