-- ===== src/Client/MessagesList/Events.antt =====
-- Runs of events on the list of messages
-- (semestral/internal/client/tui/models/messages_list_model.go).
use go_tasks.Prelude.{ℕ, ◌≤◌, ◌≡◌, refl, String, Bool, true, Option, List, [], ◌∷◌, length, arith}
use go_tasks.Prelude.Outcome.{Outcome, ok, panic, Err}
use go_tasks.Client.Storage.{Message}
use go_tasks.Client.MessagesList.{
  World, Cmd, on_chat_selected, on_messages_loaded, on_incoming_message, on_submitted,
  on_delivery_success, on_delivery_retry,
}
use go_tasks.Client.MessagesList.Keys.{on_key}
use go_tasks.Client.MessagesList.Cursor.{
  OnMessage, on_messages_loaded-OnMessage, on_incoming_message-OnMessage, on_submitted-OnMessage,
  on_delivery_success-OnMessage, on_delivery_retry-OnMessage, IsFine, on_key-IsFine,
}

-- A message that `Update` handles.
pub data Event : Type 0 where
  selects : String → Event
  loads : String → List Message → Bool → Bool → Event
  receives : Message → Event
  submits : String → ℕ → Option Err → String → Event
  delivers : String → String → Event
  retries : Message → ℕ → Event
  presses : String → Event

abbrev pub handle : Event → World → Outcome (World × List Cmd)
handle (selects chat) w = ok (on_chat_selected chat w)
handle (loads chat page is_append has_more) w =
    ok (on_messages_loaded chat page is_append has_more w)
handle (receives m) w = ok (on_incoming_message m w)
handle (submits uuid now fault text) w = ok (on_submitted uuid now fault text w)
handle (delivers local server) w = ok (on_delivery_success local server w)
handle (retries m n) w = ok (on_delivery_retry m n w)
handle (presses key) w = on_key key w

-- A page of older messages comes in only where there are some messages.
abbrev pub IsTimely : Event → World → Type 0
IsTimely (loads chat page is_append has_more) w = is_append ≡ true → 1 ≤ length w.view.messages
IsTimely _ w = Unit

handle-IsFine :
    (event : Event) (w : World) → IsTimely event w → OnMessage w → IsFine (handle event w)
handle-IsFine (selects chat) w t h = unfold on_chat_selected in omega arith
handle-IsFine (loads chat page is_append has_more) w t h =
    on_messages_loaded-OnMessage chat page is_append has_more w h t
handle-IsFine (receives m) w t h = on_incoming_message-OnMessage m w h
handle-IsFine (submits uuid now fault text) w t h = on_submitted-OnMessage uuid now fault text w h
handle-IsFine (delivers local server) w t h = on_delivery_success-OnMessage local server w h
handle-IsFine (retries m n) w t h = on_delivery_retry-OnMessage m n w h
handle-IsFine (presses key) w t h = on_key-IsFine key w h

abbrev pub go_on : (World → Outcome World) → Outcome (World × List Cmd) → Outcome World
go_on later (ok (w, cmds)) = later w
go_on later panic = panic

abbrev pub run : List Event → World → Outcome World
run [] w = ok w
run (event ∷ events) w = go_on (run events) (handle event w)

-- The same of each state that the events pass.
abbrev pub ThenTimely : (World → Type 0) → Outcome (World × List Cmd) → Type 0
ThenTimely later (ok (w, cmds)) = later w
ThenTimely later panic = Unit

abbrev pub AllTimely : List Event → World → Type 0
AllTimely [] w = Unit
AllTimely (event ∷ events) w = IsTimely event w × ThenTimely (AllTimely events) (handle event w)

go_on_fine :
    (later : World → Outcome World) (timely : World → Type 0) (r : Outcome (World × List Cmd))
    → ((w : World) → timely w → OnMessage w → (w' : World) × (later w ≡ ok w') × OnMessage w')
    → ThenTimely timely r
    → IsFine r
    → (w' : World) × (go_on later r ≡ ok w') × OnMessage w'
go_on_fine later timely (ok (w, cmds)) f t h = f w t h
go_on_fine later timely panic f t h = absurd h

-- From a list with the cursor on a message, no event makes an index run out of range, and the cursor
-- stays on a message, as long as a page of older messages comes in only where the list has some.
pub run_fine :
    (events : List Event) (w : World)
    → OnMessage w
    → AllTimely events w
    → (w' : World) × (run events w ≡ ok w') × OnMessage w'
run_fine [] w h t = (w, refl, h)
run_fine (event ∷ events) w h (t, ts) =
    go_on_fine (run events) (AllTimely events) (handle event w)
      (λ w1 ts1 h1. run_fine events w1 h1 ts1) ts (handle-IsFine event w t h)
