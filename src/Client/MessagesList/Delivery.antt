-- ===== src/Client/MessagesList/Delivery.antt =====
-- The delivery of a message with its retries
-- (semestral/internal/client/tui/models/messages_list_model.go).
use go_tasks.Prelude.{
  Bool, str_eq, ◌&&◌, not, ℕ, zero, suc, ◌≡◌, String, true, false, Option, none, some, List, ◌∷◌,
}
use go_tasks.Prelude.Outcome.{ok, panic}
use go_tasks.Prelude.Tables.{any}
use go_tasks.Client.Storage
use go_tasks.Client.Storage.{Message, has_id, one_of}
use go_tasks.Client.MessagesList.{World, Cmd, retry_later, on_delivery_success, on_delivery_retry}
use go_tasks.Client.MessagesList.Commands.{Answer, answered, success, retry, send_to_server_cmd}

-- How a delivery ends.
pub data Ending : Type 0 where
  delivered : String → Ending
  gave_up : Ending
  crashed : Ending

-- What follows a failed send: the next one, or the end.
abbrev pub after_retry :
    (Message → ℕ → World → Option (Ending × World)) → World × List Cmd → Option (Ending × World)
after_retry again (w, retry_later m n ∷ cmds) = again m n w
after_retry again (w, cmds) = some (gave_up, w)

-- The sends of a message from a number of retries on, with what the server answers to each. `none`
-- means that the fuel ran out.
pub deliver : ℕ → (ℕ → Answer) → Message → ℕ → World → Option (Ending × World)
deliver zero answer m n w = none
deliver (suc fuel) answer m n w = elim (send_to_server_cmd (answer n)) [
  | panic ↦ some (crashed, w)
  | ok (success server) ↦ some (delivered server, (on_delivery_success m.id server w).0)
  | ok retry ↦ after_retry (deliver fuel answer) (on_delivery_retry m n w)
]

-- A message of the open chat that was delivered under this id.
abbrev pub is_delivered : String → Message → Bool
is_delivered server m = str_eq m.id server && not m.is_pending

-- What a delivery that began in the state `start` comes to. Unless the client crashed on an answer
-- that it may not retry, the message is not marked as being sent any more. Where it was delivered, the
-- id of an answer stands in the open chat and in the local table, if the message was there.
abbrev pub Settled : World → (ℕ → Answer) → Message → Ending × World → Type 0
Settled start answer m (crashed, w) = (k : ℕ) × (send_to_server_cmd (answer k) ≡ panic)
Settled start answer m (gave_up, w) =
    (one_of w.view.sending m.id ≡ false)
    × (w.view.messages ≡ start.view.messages)
    × (w.local_repo ≡ start.local_repo)
Settled start answer m (delivered server, w) =
    (one_of w.view.sending m.id ≡ false)
    × ((k : ℕ) × (answer k ≡ answered server))
    × (any (has_id m.id) start.view.messages ≡ true
        → any (is_delivered server) w.view.messages ≡ true)
    × (any (has_id m.id) start.local_repo ≡ true → any (has_id server) w.local_repo ≡ true)

-- What a send comes to.
data SendCase (a : Answer) : Type 0 where
  crashes : send_to_server_cmd a ≡ panic → SendCase a
  fails : send_to_server_cmd a ≡ ok retry → SendCase a
  succeeds :
      (server : String)
      → a ≡ answered server
      → send_to_server_cmd a ≡ ok (success server)
      → SendCase a
