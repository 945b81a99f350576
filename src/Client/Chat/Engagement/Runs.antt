-- ===== src/Client/Chat/Engagement/Runs.antt =====
-- The engaged section along a run of keys (semestral/internal/client/tui/models/chat_model.go).
use mathlib.Core.Bool.{true≢false}
use go_tasks.Prelude.{
  if◌then◌else◌, subst, ◌-◌, ap, ◌∙◌, sym, ◌≡◌, refl, String, Bool, true, false, ◌&&◌, ◌||◌, not,
  none, some, List, [], ◌∷◌, Bool-cases, Option-cases, inl, inr, str_eq, ◌==◌,
}
use go_tasks.Prelude.Text.{trim_space}
use go_tasks.Prelude.Outcome.{Outcome, Outcome-cases, ok, panic}
use go_tasks.Client.Session.{Session}
use go_tasks.Client.Storage.{Message}
use go_tasks.Client.ChatList
use go_tasks.Client.ChatList.{ChatsList, ChatRow, key_press}
use go_tasks.Client.MessagesInput.{TextInput, MessagesInput, update_key}
use go_tasks.Client.MessagesList
use go_tasks.Client.MessagesList.{World}
use go_tasks.Client.MessagesList.Keys.{on_key, open_message, cursor_up, message_at}
use go_tasks.Client.Chat.{Screen, Section, chats, messages, input, Next, stays, opens, panics}
use go_tasks.Client.Chat.Keys.{
  section_of, routed_key, section_key, profile_key, chats_key, messages_key, input_key, own_key,
  on_key_press,
}
use go_tasks.Client.Chat.Engagement.{is_active, Engaged, Then, Shows-at, release, own_key-Engaged}

-- A result of the list of chats, or of messages, that leaves the flag as it is.
abbrev ChatsKeep : Bool → Outcome (ChatsList × ChatList.Cmd) → Type 0
ChatsKeep b (ok (m, cmd)) = m.engaged ≡ b
ChatsKeep b panic = Unit

abbrev MessagesKeep : Bool → Outcome (World × List MessagesList.Cmd) → Type 0
MessagesKeep b (ok (w, cmds)) = w.view.engaged ≡ b
MessagesKeep b panic = Unit

select_row-Keep :
    (rows : List ChatRow) (m : ChatsList) → ChatsKeep m.engaged (ChatList.select_row rows m)
unfolding ChatList.select_row
select_row-Keep [] m = refl
select_row-Keep (r ∷ rest) m = elim (Outcome-cases (ChatList.row_at m.cursor (r ∷ rest))) [
  | inl e ↦ rw (ChatList.select_row, e) tt
  | inr (row, e) ↦ rw (ChatList.select_row, e) refl
]

chats-Keep :
    (key : String) (s : Session) (m : ChatsList)
    → ChatsKeep m.engaged (ChatList.update s (key_press key) m)
unfolding ChatList.update ChatList.on_key ChatList.on_enter
chats-Keep key s m = elim (Bool-cases (str_eq key "j" || str_eq key "down")) [
  | inl e ↦ rw e refl
  | inr e ↦ elim (Bool-cases (str_eq key "k" || str_eq key "up")) [
    | inl f ↦ rw (e, f) refl
    | inr f ↦ elim (Bool-cases (str_eq key "enter")) [
      | inl g ↦ rw (e, f, g) (select_row-Keep m.rows m)
      | inr g ↦ rw (e, f, g) refl
    ]
  ]
]

open_message-Keep :
    (ms : List Message) (w : World) → MessagesKeep w.view.engaged (open_message ms w)
unfolding open_message
open_message-Keep [] w = refl
open_message-Keep (m ∷ ms) w = elim (Outcome-cases (message_at w.view.cursor (m ∷ ms))) [
  | inl e ↦ rw (open_message, e) tt
  | inr (first, e) ↦
      rw (open_message, e)
        (elim (Bool-cases first.is_pending) [ inl f ↦ rw f refl | inr f ↦ rw f refl ])
]

cursor_up-Keep : (w : World) → (cursor_up w).0.view.engaged ≡ w.view.engaged
unfolding cursor_up
cursor_up-Keep w = elim (Bool-cases (w.view.cursor == 0)) [
  | inl e ↦ rw e refl
  | inr e ↦ elim (Bool-cases (w.view.cursor - 1 == 0 && not w.view.is_loading && w.view.has_more)) [
    | inl f ↦ rw (e, f) refl
    | inr f ↦ rw (e, f) refl
  ]
]

messages-Keep : (key : String) (w : World) → MessagesKeep w.view.engaged (on_key key w)
unfolding on_key
messages-Keep key w = elim (Bool-cases (str_eq w.view.chat_id "")) [
  | inl e ↦ rw e refl
  | inr e ↦ elim (Bool-cases (str_eq key "j" || str_eq key "down")) [
    | inl f ↦ rw (e, f) refl
    | inr f ↦ elim (Bool-cases (str_eq key "k" || str_eq key "up")) [
      | inl g ↦ rw (e, f, g) (cursor_up-Keep w)
      | inr g ↦ elim (Bool-cases (str_eq key "enter")) [
        | inl x ↦ rw (e, f, g, x) (open_message-Keep w.view.messages w)
        | inr x ↦ rw (e, f, g, x) refl
      ]
    ]
  ]
]

abbrev pub go_on : {I : Type 0} → (Screen I → Next I) → Next I → Next I
go_on later (stays s cmds) = later s
go_on later (opens target s) = later s
go_on later panics = panics

go_on-Then :
    {I : Type 0} (P Q : Screen I → Type 0) (later : Screen I → Next I) (next : Next I)
    → ((s : Screen I) → P s → Q s → Then P (later s))
    → Then P next
    → Then Q next
    → Then P (go_on later next)
go_on-Then P Q later (stays s cmds) f p q = f s p q
go_on-Then P Q later (opens target s) f p q = f s p q
go_on-Then P Q later panics f p q = tt

if-Then :
    {I : Type 0} (P : Screen I → Type 0) (b : Bool) (x y : Next I)
    → (b ≡ true → Then P x)
    → (b ≡ false → Then P y)
    → Then P (if b then x else y)
if-Then P true x y p q = p refl
if-Then P false x y p q = q refl

module _ {I : Type 0} (lib : TextInput I) where
  input-Keep : (key : String) (m : MessagesInput I) → (update_key lib key m).0.engaged ≡ m.engaged
  unfolding update_key
  input-Keep key m =
      elim (Bool-cases
        (str_eq key "enter" && not (str_eq (trim_space (lib.get_value m.field)) ""))) [
          | inl e ↦ rw e refl
          | inr e ↦ rw e refl
        ]

  chats_key-Engaged : (key : String) (s : Screen I) → Engaged s → Then Engaged (chats_key lib key s)
  unfolding chats_key
  chats_key-Engaged key s ((c, m, i), r) =
      elim (Outcome-cases (ChatList.update s.world.session (key_press key) s.chats_list)) [
        | inl e ↦ rw (chats_key, e) tt
        | inr ((list, cmd), e) ↦
            rw (chats_key, e)
              (
                (
                  subst (ChatsKeep s.chats_list.engaged) e
                        (chats-Keep key s.world.session s.chats_list)
                      ∙ c,
                  m,
                  i,
                ),
                r,
              )
      ]

  messages_key-Engaged :
      (key : String) (s : Screen I) → Engaged s → Then Engaged (messages_key lib key s)
  unfolding messages_key
  messages_key-Engaged key s ((c, m, i), r) = elim (Outcome-cases (on_key key s.world)) [
    | inl e ↦ rw (messages_key, e) tt
    | inr ((world, cmds), e) ↦
        rw (messages_key, e)
          ((c, subst (MessagesKeep s.world.view.engaged) e (messages-Keep key s.world) ∙ m, i), r)
  ]

  input_key-Engaged : (key : String) (s : Screen I) → Engaged s → Then Engaged (input_key lib key s)
  unfolding input_key
  input_key-Engaged key s ((c, m, i), r) = ((c, m, input-Keep key s.message_input ∙ i), r)

  section_key-Engaged :
      (section : Section) (key : String) (s : Screen I)
      → Engaged s
      → Then Engaged (section_key lib (some section) key s)
  unfolding section_key
  section_key-Engaged chats key s h = chats_key-Engaged key s h
  section_key-Engaged messages key s h = messages_key-Engaged key s h
  section_key-Engaged input key s h = input_key-Engaged key s h

  -- Enter on the engaged profile opens the profile, and no section was active before.
  abbrev pub IsCalm : String → Screen I → Type 0
  IsCalm key s =
      s.is_engaged ≡ true
      → section_of s.focused_area ≡ none
      → str_eq key "enter" ≡ true
      → s.active_model ≡ none

  profile_key-Engaged :
      (key : String) (s : Screen I)
      → s.is_engaged ≡ true
      → (str_eq key "enter" ≡ true → s.active_model ≡ none)
      → Engaged s
      → Then Engaged (profile_key lib key s)
  unfolding profile_key
  profile_key-Engaged key s t k (h, r) = elim (Bool-cases (str_eq key "enter")) [
    | inr e ↦ rw e (h, r)
    | inl e ↦
        let (c, m, i) = Shows-at s true t h in
        rw e (
          (
            c ∙ ap (is_active chats) (k e),
            m ∙ ap (is_active messages) (k e),
            i ∙ ap (is_active input) (k e),
          ),
          λ f. absurd (true≢false (sym f)),
        )
  ]

  routed_key-Engaged :
      (key : String) (s : Screen I)
      → s.is_engaged ≡ true
      → IsCalm key s
      → Engaged s
      → Then Engaged (routed_key lib key s)
  unfolding routed_key section_key
  routed_key-Engaged key s t k h = elim (Bool-cases (str_eq key "esc")) [
    | inl e ↦ rw e (release lib s.active_model s (Shows-at s true t h.0))
    | inr e ↦ elim (Option-cases (section_of s.focused_area)) [
      | inl n ↦ rw (e, n) (profile_key-Engaged key s t (k t n) h)
      | inr (section, n) ↦ rw (e, n) (section_key-Engaged section key s h)
    ]
  ]

  on_key_press-Engaged :
      (key : String) (s : Screen I)
      → IsCalm key s
      → Engaged s
      → Then Engaged (on_key_press lib key s)
  unfolding on_key_press
  on_key_press-Engaged key s k h =
      if-Then Engaged s.is_engaged (routed_key lib key s) (own_key lib key s)
        (λ t. routed_key-Engaged key s t k h) (λ f. own_key-Engaged lib key s f h)

  -- A run of keys; a screen that opened over it comes back to it as it was.
  abbrev pub press_all : List String → Screen I → Next I
  press_all [] s = stays s []
  press_all (key ∷ keys) s = go_on (press_all keys) (on_key_press lib key s)

  abbrev pub AllCalm : List String → Screen I → Type 0
  AllCalm [] s = Unit
  AllCalm (key ∷ keys) s = IsCalm key s × Then (AllCalm keys) (on_key_press lib key s)

  -- Whatever keys are pressed, on a screen where it holds it still holds at the end that each section
  -- shows itself engaged exactly if the screen is engaged and the section is the active one, and that
  -- the section which the keys go to is the active one. No Enter may open the engaged profile after
  -- another section was active.
  pub press_all-Engaged :
      (keys : List String) (s : Screen I)
      → Engaged s
      → AllCalm keys s
      → Then Engaged (press_all keys s)
  press_all-Engaged [] s h k = h
  press_all-Engaged (key ∷ keys) s h (k, ks) =
      go_on-Then Engaged (AllCalm keys) (press_all keys) (on_key_press lib key s)
        (λ s1 h1 k1. press_all-Engaged keys s1 h1 k1) (on_key_press-Engaged key s k h) ks
