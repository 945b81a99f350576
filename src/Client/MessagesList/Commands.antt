-- ===== src/Client/MessagesList/Commands.antt =====
-- The commands that the list of messages returns
-- (semestral/internal/client/tui/models/messages_list_model.go), run on what the server and the
-- local table answer.
use go_tasks.Prelude.{
  ℕ, String, Bool, ◌||◌, Option, none, some, List, [], ltb, ◌==◌, length, if◌then◌else◌,
}
use go_tasks.Prelude.Outcome.{Outcome, ok, panic, Failable, value, failure, Err}
use go_tasks.Client.Storage
use go_tasks.Client.Storage.{Message, Messages, insert_message, mark_message_delivered, one_of}
use go_tasks.Client.Requests.{CallError, is_retriable}
use go_tasks.Client.MessagesList.{limit, World, is_empty}

-- What the server answers to `SendMessage`: the id of the message, or an error.
pub data Answer : Type 0 where
  answered : String → Answer
  refused : CallError → Answer

-- The message that `sendToServer` ends with. Behind an error that is not retried the code reads the
-- answer, which is nil then.
pub data Sent : Type 0 where
  success : String → Sent
  retry : Sent

unfoldable pub send_to_server_cmd : Answer → Outcome Sent
unfolding is_retriable
send_to_server_cmd (answered server) = ok (success server)
send_to_server_cmd (refused err) = if is_retriable err then ok retry else panic

-- `loadMessagesFromDb`: the page, whether it goes in front, and whether there may be more.
unfoldable pub load_messages_cmd :
    Option Err → String → ℕ → Messages → Failable (List Message × Bool × Bool)
unfolding Storage.get_messages_by_chat_id
load_messages_cmd (some err) chat offset table = failure err
load_messages_cmd none chat offset table =
    let page = Storage.get_messages_by_chat_id chat limit offset table in
    value (page, ltb 0 offset, length page == limit)

-- `markMessagesRead`: the new table, and the ids that are sent to the server.
unfoldable pub mark_messages_read_cmd : Option Err → List String → World → Messages × List String
unfolding Storage.mark_messages_read
mark_messages_read_cmd fault ids w =
    if is_empty ids || w.session.is_invisible then (w.local_repo, []) else elim fault [
      | some err ↦ (w.local_repo, ids)
      | none ↦ (Storage.mark_messages_read ids w.local_repo, ids)
    ]
