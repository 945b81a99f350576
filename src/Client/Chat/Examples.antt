-- ===== src/Client/Chat/Examples.antt =====
-- Runs of the screen of a chat (semestral/internal/client/tui/models/chat_model.go), and the
-- theorems at concrete inputs.
use go_tasks.Prelude.{◌&&◌, not, ◌≡◌, refl, String, Bool, true, false, [], ◌∷◌, str_eq, arith}
use go_tasks.Client.Session.{new_session}
use go_tasks.Client.Requests.{nil, plain, status, unauthenticated, unavailable, is_retriable}
use go_tasks.Client.ChatList
use go_tasks.Client.ChatList.{new_chats_list}
use go_tasks.Client.MessagesInput.{TextInput}
use go_tasks.Client.MessagesList.{new_messages_list}
use go_tasks.Client.Chat.{Screen, Next, stays, new_screen}
use go_tasks.Client.Chat.Keys.{
  section_of, on_key_press, own_key, routed_key, section_key, profile_key, engage_active,
  set_engaged,
}
use go_tasks.Client.Chat.Reconnecting.{Decided, connect, connect_ends, Recovered, connect_recovers}
use go_tasks.Client.Chat.Engagement.{Then, Engaged}
use go_tasks.Client.Chat.Engagement.Runs.{press_all, press_all-Engaged}

-- A field that is its text.
abbrev plain_field : TextInput String
plain_field = record {
  get_value = λ text. text;
  set_value = λ new old. new;
  focus = λ text. text;
  blur = λ text. text;
  on_key_press = λ key text. text;
  on_other = λ text. text;
}

abbrev start : Screen String
start =
    new_screen (record { view = new_messages_list; session = new_session; local_repo = [] })
      new_chats_list (record { field = ""; engaged = false })

connect_ends_example :
    Decided 6 (connect (plain ∷ plain ∷ plain ∷ plain ∷ plain ∷ status unauthenticated ∷ []) start)
unfolding new_screen
connect_ends_example =
    connect_ends (plain ∷ plain ∷ plain ∷ plain ∷ plain ∷ status unauthenticated ∷ []) start refl
      (omega arith)

connect_recovers_example : Recovered 2 (connect (plain ∷ status unavailable ∷ nil ∷ []) start)
unfolding new_screen is_retriable
connect_recovers_example =
    connect_recovers (plain ∷ status unavailable ∷ []) [] start refl (refl, (refl, tt))
      (omega arith)

press_all-Engaged_example :
    Then Engaged (press_all plain_field ("tab" ∷ "enter" ∷ "esc" ∷ []) start)
unfolding new_screen new_messages_list new_chats_list on_key_press own_key section_of engage_active
    set_engaged str_eq
press_all-Engaged_example =
    press_all-Engaged plain_field ("tab" ∷ "enter" ∷ "esc" ∷ []) start
      ((refl, refl, refl), λ t. refl) ((λ t n k. refl), ((λ t n k. refl), ((λ t n k. n), tt)))

-- The way back to the profile and into it leaves a section engaged.
abbrev is_left_engaged : Next String → Bool
is_left_engaged (stays s cmds) = s.chats_list.engaged && not s.is_engaged
is_left_engaged _ = false

left_engaged :
    is_left_engaged
      (press_all plain_field ("tab" ∷ "enter" ∷ "esc" ∷ "shift+tab" ∷ "enter" ∷ "enter" ∷ []) start)
    ≡ true
unfolding new_screen new_messages_list new_chats_list on_key_press own_key routed_key section_key
    profile_key section_of engage_active set_engaged str_eq ChatList.set_engaged
left_engaged = refl
