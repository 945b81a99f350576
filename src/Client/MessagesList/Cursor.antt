-- ===== src/Client/MessagesList/Cursor.antt =====
-- The cursor in the list of messages (semestral/internal/client/tui/models/messages_list_model.go).
use go_tasks.Prelude.{
  ℕ, zero, suc, ◌-◌, ◌≤◌, ◌<◌, ◌≡◌, refl, ap, String, Bool, true, false, ◌&&◌, ◌||◌, not, Option,
  List, [], ◌∷◌, leb, ◌==◌, length, length-append, str_eq, arith, Bool-cases, Option-cases, inl,
  inr,
}
use go_tasks.Prelude.Outcome.{Outcome, ok, panic, Err}
use go_tasks.Client.Storage.{Message}
use go_tasks.Client.MessagesList.{
  MessagesList, World, Cmd, reverse, put_page, read_loaded, set_read, unread_ids, is_empty,
  on_messages_loaded, append_message, on_incoming_message, on_submitted, deliver_first,
  on_delivery_success, on_delivery_retry,
}
use go_tasks.Client.MessagesList.Keys.{message_at, open_message, cursor_up, on_key}

-- The cursor is on a message, or at the start where there is none.
abbrev pub OnMessage : World → Type 0
OnMessage w = w.view.cursor ≤ length w.view.messages - 1

length-reverse : (ms : List Message) → length (reverse ms) ≡ length ms
length-reverse [] = refl
length-reverse (m ∷ ms) = omega (arith, length-append (reverse ms) (m ∷ []), length-reverse ms)

length-set_read : (user : String) (ms : List Message) → length (set_read user ms) ≡ length ms
unfolding set_read
length-set_read user [] = refl
length-set_read user (m ∷ ms) = ap suc (length-set_read user ms)

length-deliver_first :
    (local server : String) (ms : List Message) → length (deliver_first local server ms) ≡ length ms
unfolding deliver_first
length-deliver_first local server [] = refl
length-deliver_first local server (m ∷ ms) = ground (arith, length-deliver_first local server ms)

-- A page that goes in front of no message at all leaves the cursor behind the last one.
put_page-OnMessage :
    (page : List Message) (is_append has_more : Bool) (v : MessagesList)
    → v.cursor ≤ length v.messages - 1
    → (is_append ≡ true → 1 ≤ length v.messages)
    → (put_page page is_append has_more v).cursor
      ≤ length (put_page page is_append has_more v).messages - 1
unfolding put_page
put_page-OnMessage page true has_more v h f =
    omega (arith, f refl, length-append (reverse page) v.messages)
put_page-OnMessage page false has_more v h f = omega arith

read_loaded-OnMessage : (w : World) → OnMessage w → OnMessage (read_loaded w).0
unfolding read_loaded
read_loaded-OnMessage w h = elim (Bool-cases w.session.is_invisible) [
  | inl e ↦ rw e h
  | inr e ↦ elim (Bool-cases (is_empty (unread_ids w.session.user_id w.view.messages))) [
    | inl f ↦ rw (e, f) h
    | inr f ↦ rw (e, f, length-set_read w.session.user_id w.view.messages) h
  ]
]

pub on_messages_loaded-OnMessage :
    (chat : String) (page : List Message) (is_append has_more : Bool) (w : World)
    → OnMessage w
    → (is_append ≡ true → 1 ≤ length w.view.messages)
    → OnMessage (on_messages_loaded chat page is_append has_more w).0
unfolding on_messages_loaded
on_messages_loaded-OnMessage chat page is_append has_more w h f =
    elim (Bool-cases (str_eq w.view.chat_id chat)) [
      | inr e ↦ rw e h
      | inl e ↦ rw e (
          read_loaded-OnMessage (record w { view = put_page page is_append has_more w.view })
            (put_page-OnMessage page is_append has_more w.view h f))
    ]

append_message-OnMessage :
    (m : Message) (v : MessagesList)
    → v.cursor ≤ length v.messages - 1
    → (append_message m v).cursor ≤ length (append_message m v).messages - 1
unfolding append_message
append_message-OnMessage m v h = ground (arith, length-append v.messages (m ∷ []))

pub on_incoming_message-OnMessage :
    (m : Message) (w : World) → OnMessage w → OnMessage (on_incoming_message m w).0
unfolding on_incoming_message
on_incoming_message-OnMessage m w h = elim (Bool-cases (str_eq m.sender_id w.session.user_id)) [
  | inl e ↦ rw e h
  | inr e ↦ elim (Bool-cases (str_eq m.chat_id w.view.chat_id)) [
    | inr f ↦ rw (e, f) h
    | inl f ↦ elim (Bool-cases (not w.session.is_invisible)) [
      | inl g ↦ rw (e, f, g) (append_message-OnMessage m w.view h)
      | inr g ↦ rw (e, f, g) (append_message-OnMessage m w.view h)
    ]
  ]
]

pub on_submitted-OnMessage :
    (uuid : String) (now : ℕ) (fault : Option Err) (text : String) (w : World)
    → OnMessage w
    → OnMessage (on_submitted uuid now fault text w).0
unfolding on_submitted
on_submitted-OnMessage uuid now fault text w h = elim (Bool-cases (str_eq w.view.chat_id "")) [
  | inl e ↦ rw e h
  | inr e ↦ elim (Option-cases fault) [
    | inr (err, f) ↦ rw (e, f) h
    | inl f ↦ rw (e, f) (append_message-OnMessage _ w.view h)
  ]
]

pub on_delivery_success-OnMessage :
    (local server : String) (w : World)
    → OnMessage w
    → OnMessage (on_delivery_success local server w).0
unfolding on_delivery_success
on_delivery_success-OnMessage local server w h =
    rw (length-deliver_first local server w.view.messages) h

pub on_delivery_retry-OnMessage :
    (m : Message) (n : ℕ) (w : World) → OnMessage w → OnMessage (on_delivery_retry m n w).0
unfolding on_delivery_retry
on_delivery_retry-OnMessage m n w h = elim (Bool-cases (leb 5 n)) [
  | inl e ↦ rw e h
  | inr e ↦ rw e h
]

message_at-ok :
    (i : ℕ) (ms : List Message) → i < length ms → (m : Message) × (message_at i ms ≡ ok m)
unfolding message_at
message_at-ok i [] h = absurd (omega arith)
message_at-ok zero (m ∷ ms) h = (m, refl)
message_at-ok (suc i) (m ∷ ms) h = message_at-ok i ms (omega arith)

-- A result with the cursor on a message.
abbrev pub IsFine : Outcome (World × List Cmd) → Type 0
IsFine (ok (w, cmds)) = OnMessage w
IsFine panic = ⊥

open_message-IsFine :
    (ms : List Message) (w : World)
    → w.view.cursor ≤ length ms - 1
    → OnMessage w
    → IsFine (open_message ms w)
unfolding open_message
open_message-IsFine [] w c h = h
open_message-IsFine (first ∷ rest) w c h =
    let (m, e) = message_at-ok w.view.cursor (first ∷ rest) (omega arith) in
    rw (open_message, e) (elim (Bool-cases m.is_pending) [ inl f ↦ rw f h | inr f ↦ rw f h ])

cursor_up-OnMessage : (w : World) → OnMessage w → OnMessage (cursor_up w).0
unfolding cursor_up
cursor_up-OnMessage w h = elim (Bool-cases (w.view.cursor == 0)) [
  | inl e ↦ rw e h
  | inr e ↦ elim (Bool-cases (w.view.cursor - 1 == 0 && not w.view.is_loading && w.view.has_more)) [
    | inl f ↦ rw (e, f) (omega (arith, h))
    | inr f ↦ rw (e, f) (omega (arith, h))
  ]
]

pub on_key-IsFine : (key : String) (w : World) → OnMessage w → IsFine (on_key key w)
unfolding on_key
on_key-IsFine key w h = elim (Bool-cases (str_eq w.view.chat_id "")) [
  | inl e ↦ rw e h
  | inr e ↦ elim (Bool-cases (str_eq key "j" || str_eq key "down")) [
    | inl f ↦ rw (e, f) (ground (arith, h))
    | inr f ↦ elim (Bool-cases (str_eq key "k" || str_eq key "up")) [
      | inl g ↦ rw (e, f, g) (cursor_up-OnMessage w h)
      | inr g ↦ elim (Bool-cases (str_eq key "enter")) [
        | inl x ↦ rw (e, f, g, x) (open_message-IsFine w.view.messages w h h)
        | inr x ↦ rw (e, f, g, x) h
      ]
    ]
  ]
]
