-- ===== src/Client/Chat/Commands.antt =====
-- The commands of the stream and of the acks (semestral/internal/client/tui/models/chat_model.go),
-- run on what the server and the local table answer.
use go_tasks.Prelude.{ℕ, ◌+◌, String, false, Option, none, some, leb, if◌then◌else◌}
use go_tasks.Prelude.Outcome.{Err}
use go_tasks.Client.Storage.{Message, insert_message}
use go_tasks.Client.Requests.{CallError, nil, plain, status, is_retriable}
use go_tasks.Client.Chat.{
  Screen, NetworkMsg, subscription_started, subscription_error, incoming, reconnect, fatal,
  retry_ack, ack_success, cancel, ack_failed, save_failed,
}

unfoldable pub answer_subscribe : {I : Type 0} → CallError → Screen I → Screen I × NetworkMsg
answer_subscribe nil s = (record s { message_stream = s.cancel_stream }, subscription_started)
answer_subscribe plain s = (s, subscription_error plain)
answer_subscribe (status code) s = (s, subscription_error (status code))

-- `subscribe`: the old context is cancelled and a new one is made before the call.
unfoldable pub subscribe_cmd : {I : Type 0} → CallError → Screen I → Screen I × NetworkMsg
unfolding cancel answer_subscribe
subscribe_cmd answer s =
    let s1 = cancel s in
    answer_subscribe answer
      (record s1 { subscribed = s.subscribed + 1; cancel_stream = some s.subscribed })

-- What `Recv` comes to.
pub data Received : Type 0 where
  end_of_stream cancelled_context other_event : Received
  broken : CallError → Received
  message_event : Message → Received

abbrev pub to_storage_message : Message → Message
to_storage_message m = record m { is_pending = false; is_read = false }

keep_message : {I : Type 0} → Option Err → Message → Screen I → Screen I × Option NetworkMsg
unfolding insert_message
keep_message (some err) m s = (s, some (fatal (save_failed err)))
keep_message none m s =
    let w = s.world in
    (
      record s { world = record w { local_repo = insert_message m w.local_repo } },
      some (incoming m),
    )

receive : {I : Type 0} → Received → Option Err → Screen I → Screen I × Option NetworkMsg
unfolding keep_message
receive end_of_stream fault s = (s, some (reconnect s.stream_retry_count))
receive cancelled_context fault s = (s, none)
receive other_event fault s = (s, some (reconnect s.stream_retry_count))
receive (broken err) fault s = (s, some (subscription_error err))
receive (message_event m) fault s = keep_message fault (to_storage_message m) s

-- `recvMessage`, with a fault of the local table.
unfoldable pub recv_message_cmd :
    {I : Type 0} → Received → Option Err → Screen I → Screen I × Option NetworkMsg
unfolding receive
recv_message_cmd answer fault s = elim s.message_stream [
  | none ↦ (s, some (subscription_error plain))
  | some ctx ↦ receive answer fault s
]

refuse_ack : CallError → String → ℕ → NetworkMsg
unfolding is_retriable
refuse_ack err id retry_count =
    if is_retriable err
    then (if leb 5 retry_count then fatal (ack_failed err) else retry_ack id (retry_count + 1))
    else fatal (ack_failed err)

-- `ackMessage`
unfoldable pub ack_message_cmd : CallError → String → ℕ → NetworkMsg
unfolding refuse_ack
ack_message_cmd nil id retry_count = ack_success id
ack_message_cmd plain id retry_count = refuse_ack plain id retry_count
ack_message_cmd (status code) id retry_count = refuse_ack (status code) id retry_count
