-- ===== src/Client/MessagesList/Keys.antt =====
-- The keys of the list of messages
-- (semestral/internal/client/tui/models/messages_list_model.go).
use go_tasks.Prelude.{
  ℕ, zero, suc, ◌+◌, ◌-◌, String, true, ◌&&◌, ◌||◌, not, List, [], ◌∷◌, ltb, ◌==◌, length, str_eq,
  if◌then◌else◌,
}
use go_tasks.Prelude.Outcome.{Outcome, ok, panic}
use go_tasks.Client.Storage.{Message}
use go_tasks.Client.MessagesList.{World, Cmd, load_messages, select_message, handle_error}

-- The message at an index, which panics out of range.
unfoldable pub message_at : ℕ → List Message → Outcome Message
message_at i [] = panic
message_at zero (m ∷ ms) = ok m
message_at (suc i) (m ∷ ms) = message_at i ms

abbrev pub with_cursor : ℕ → World → World
with_cursor cursor w = record w { view = record (w.view) { cursor = cursor } }

unfoldable pub open_message : List Message → World → Outcome (World × List Cmd)
unfolding message_at
open_message [] w = ok (w, [])
open_message (first ∷ rest) w = elim (message_at w.view.cursor (first ∷ rest)) [
  | panic ↦ panic
  | ok m ↦
      if m.is_pending
      then ok (w, handle_error "message is pending, no info available" ∷ [])
      else ok (w, select_message m.id ∷ [])
]

unfoldable pub cursor_up : World → World × List Cmd
cursor_up w =
    if w.view.cursor == 0
    then (w, [])
    else (let w1 = with_cursor (w.view.cursor - 1) w in
        if w1.view.cursor == 0 && not w.view.is_loading && w.view.has_more
        then (
          record w1 { view = record (w1.view) { is_loading = true } },
          load_messages w.view.chat_id (length w.view.messages) ∷ [],
        )
        else (w1, []))

unfoldable pub on_key : String → World → Outcome (World × List Cmd)
unfolding open_message cursor_up
on_key key w =
    if str_eq w.view.chat_id ""
    then ok (w, [])
    else (if str_eq key "j" || str_eq key "down"
        then ok (
          with_cursor
              (if ltb (w.view.cursor + 1) (length w.view.messages)
                then w.view.cursor + 1
                else w.view.cursor)
              w,
          [],
        )
        else (if str_eq key "k" || str_eq key "up"
            then ok (cursor_up w)
            else (if str_eq key "enter" then open_message w.view.messages w else ok (w, []))))
