-- ===== src/Client/Chat/Engagement.antt =====
-- Which section of the screen of a chat is engaged
-- (semestral/internal/client/tui/models/chat_model.go).
pub mod Runs
use mathlib.Core.Bool.{true≢false}
use go_tasks.Prelude.{
  ap, ◌∙◌, sym, if◌then◌else◌, ℕ, ◌≡◌, refl, String, Bool, true, false, ◌&&◌, Option, none, some,
  List, [], ◌∷◌, Bool-cases, inl, inr, ◌⊎◌, str_eq, ◌==◌, arith,
}
use go_tasks.Prelude.Outcome.{Outcome, ok, panic}
use go_tasks.Client.ChatList
use go_tasks.Client.ChatList.{ChatsList}
use go_tasks.Client.MessagesInput
use go_tasks.Client.MessagesInput.{TextInput, MessagesInput, update_key}
use go_tasks.Client.MessagesList.{World}
use go_tasks.Client.MessagesList.Keys.{on_key, open_message, cursor_up, message_at}
use go_tasks.Client.Chat.{
  Screen, Section, chats, messages, input, Next, stays, opens, panics, Cmd, Target, invite_user,
  leave_chat, chat_info,
}
use go_tasks.Client.Chat.Keys.{
  section_of, or_before, set_engaged, engage_active, own_key, open_key, needs_chat, routed_key,
  section_key, profile_key, chats_key, messages_key, input_key, on_key_press,
}

abbrev pub is_active : Section → Option Section → Bool
is_active chats (some chats) = true
is_active messages (some messages) = true
is_active input (some input) = true
is_active _ _ = false

-- A section shows itself engaged exactly if the screen is engaged and the section is the active one.
abbrev pub Shows : {I : Type 0} → Screen I → Type 0
Shows s =
    (s.chats_list.engaged ≡ (s.is_engaged && is_active chats s.active_model))
    × (s.world.view.engaged ≡ (s.is_engaged && is_active messages s.active_model))
    × (s.message_input.engaged ≡ (s.is_engaged && is_active input s.active_model))

-- The section that the keys go to, if it is one, is the active one.
abbrev pub Routes : {I : Type 0} → Screen I → Type 0
Routes s =
    s.is_engaged ≡ true → or_before (section_of s.focused_area) s.active_model ≡ s.active_model

abbrev pub Engaged : {I : Type 0} → Screen I → Type 0
Engaged s = Shows s × Routes s

abbrev pub Then : {I : Type 0} → (Screen I → Type 0) → Next I → Type 0
Then P (stays s cmds) = P s
Then P (opens target s) = P s
Then P panics = Unit

abbrev pub Idle : {I : Type 0} → Screen I → Type 0
Idle s =
    (s.chats_list.engaged ≡ false)
    × (s.world.view.engaged ≡ false)
    × (s.message_input.engaged ≡ false)

pub Shows-at :
    {I : Type 0} (s : Screen I) (b : Bool)
    → s.is_engaged ≡ b
    → Shows s
    → (s.chats_list.engaged ≡ (b && is_active chats s.active_model))
      × (s.world.view.engaged ≡ (b && is_active messages s.active_model))
      × (s.message_input.engaged ≡ (b && is_active input s.active_model))
Shows-at s b e (c, m, i) = (
  c ∙ ap (λ x. x && is_active chats s.active_model) e,
  m ∙ ap (λ x. x && is_active messages s.active_model) e,
  i ∙ ap (λ x. x && is_active input s.active_model) e,
)

Routes-idle : {I : Type 0} (s : Screen I) → s.is_engaged ≡ false → Routes s
Routes-idle s e t = absurd (true≢false (sym t ∙ e))

needs_chat-Then :
    {I : Type 0} (P : Screen I → Type 0) (target : String → Target) (s : Screen I)
    → P s
    → Then P (needs_chat target s)
unfolding needs_chat
needs_chat-Then P target s p = elim (Bool-cases (str_eq s.chat_id "")) [
  | inl e ↦ rw e p
  | inr e ↦ rw e p
]

open_key-Then :
    {I : Type 0} (P : Screen I → Type 0) (key : String) (s : Screen I)
    → P s
    → Then P (open_key key s)
unfolding open_key
open_key-Then P key s p = elim (Bool-cases (str_eq key "d")) [
  | inl e ↦ rw e p
  | inr e ↦ elim (Bool-cases (str_eq key "g")) [
    | inl f ↦ rw (e, f) p
    | inr f ↦ elim (Bool-cases (str_eq key "i")) [
      | inl g ↦ rw (e, f, g) (needs_chat-Then P invite_user s p)
      | inr g ↦ elim (Bool-cases (str_eq key "l")) [
        | inl x ↦ rw (e, f, g, x) (needs_chat-Then P leave_chat s p)
        | inr x ↦ elim (Bool-cases (str_eq key "m")) [
          | inl y ↦ rw (e, f, g, x, y) (needs_chat-Then P chat_info s p)
          | inr y ↦ rw (e, f, g, x, y) p
        ]
      ]
    ]
  ]
]

module _ {I : Type 0} (lib : TextInput I) where
  pub engage_active-Engaged :
      (chosen before : Option Section) (s : Screen I)
      → section_of s.focused_area ≡ chosen
      → Idle s
      → Engaged (
          engage_active lib true
            (record s { is_engaged = true; active_model = or_before chosen before }))
  unfolding engage_active set_engaged ChatList.set_engaged MessagesInput.set_engaged
  engage_active-Engaged none none s e h = (h, λ t. rw e refl)
  engage_active-Engaged none (some chats) s e (c, m, i) = ((refl, m, i), λ t. rw e refl)
  engage_active-Engaged none (some messages) s e (c, m, i) = ((c, refl, i), λ t. rw e refl)
  engage_active-Engaged none (some input) s e (c, m, i) = ((c, m, refl), λ t. rw e refl)
  engage_active-Engaged (some chats) before s e (c, m, i) = ((refl, m, i), λ t. rw e refl)
  engage_active-Engaged (some messages) before s e (c, m, i) = ((c, refl, i), λ t. rw e refl)
  engage_active-Engaged (some input) before s e (c, m, i) = ((c, m, refl), λ t. rw e refl)

  pub release :
      (active : Option Section) (s : Screen I)
      → (s.chats_list.engaged ≡ is_active chats active)
        × (s.world.view.engaged ≡ is_active messages active)
        × (s.message_input.engaged ≡ is_active input active)
      → Engaged (engage_active lib false (record s { is_engaged = false; active_model = active }))
  unfolding engage_active set_engaged ChatList.set_engaged MessagesInput.set_engaged
  release none s h = (h, λ t. absurd (true≢false (sym t)))
  release (some chats) s (c, m, i) = ((refl, m, i), λ t. absurd (true≢false (sym t)))
  release (some messages) s (c, m, i) = ((c, refl, i), λ t. absurd (true≢false (sym t)))
  release (some input) s (c, m, i) = ((c, m, refl), λ t. absurd (true≢false (sym t)))

  pub own_key-Engaged :
      (key : String) (s : Screen I)
      → s.is_engaged ≡ false
      → Engaged s
      → Then Engaged (own_key lib key s)
  unfolding own_key
  own_key-Engaged key s e (h, r) = elim (Bool-cases (str_eq key "shift+tab")) [
    | inl k ↦ rw k (h, λ t. absurd (true≢false (sym t ∙ e)))
    | inr k ↦ elim (Bool-cases (str_eq key "tab")) [
      | inl f ↦ rw (k, f) (h, λ t. absurd (true≢false (sym t ∙ e)))
      | inr f ↦ elim (Bool-cases (str_eq key "enter")) [
        | inl g ↦
            rw (k, f, g)
              (engage_active-Engaged (section_of s.focused_area) s.active_model s refl
                (Shows-at s false e h))
        | inr g ↦ rw (k, f, g) (open_key-Then Engaged key s (h, r))
      ]
    ]
  ]
