-- ===== src/Messaging/Requests.antt =====
-- The unary requests of semestral/internal/messaging/service.go as one type, so that a property can
-- be stated for all of them.
pub mod Refusals
pub mod Delivery
pub mod Storage
pub mod Exactness
pub mod Access
use go_tasks.Prelude.{ℕ, String, Option, none, some, List}
use go_tasks.Messaging.Database.{Db}
use go_tasks.Messaging.Handler.{Code, Rpc, reply, status, Handler, code_of}
use go_tasks.Messaging.Service.{
  Env, ack_message, set_messages_read, get_message_acks, get_user_chats, get_chat_members,
  create_direct_chat, create_group_chat, add_chat_member, get_chat_by_id, leave_chat, send_message,
}

-- A request of a client, with its fields.
pub data Request : Type 0 where
  acks : String → Request
  reads : List String → Request
  lists_acks : String → Request
  lists_chats : Request
  lists_members : String → Request
  opens_direct : String → Request
  opens_group : String → List String → Request
  adds : String → String → Request
  looks_up : String → Request
  leaves : String → Request
  sends : String → List ℕ → Request

abbrev pub outcome_of : {A : Type 0} → Db × Rpc A → Db × Option Code
outcome_of (db, r) = (db, code_of r)

-- The database after the request, and the status code if it is refused.
unfoldable pub serve : Env → Request → Db → Db × Option Code
serve env (acks id) db = outcome_of (ack_message env id db)
serve env (reads ids) db = outcome_of (set_messages_read env ids db)
serve env (lists_acks id) db = outcome_of (get_message_acks env id db)
serve env lists_chats db = outcome_of (get_user_chats env db)
serve env (lists_members id) db = outcome_of (get_chat_members env id db)
serve env (opens_direct id) db = outcome_of (create_direct_chat env id db)
serve env (opens_group name ids) db = outcome_of (create_group_chat env name ids db)
serve env (adds chat user) db = outcome_of (add_chat_member env chat user db)
serve env (looks_up id) db = outcome_of (get_chat_by_id env id db)
serve env (leaves chat) db = outcome_of (leave_chat env chat db)
serve env (sends chat content) db = outcome_of (send_message env chat content db)
