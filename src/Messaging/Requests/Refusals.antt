-- ===== src/Messaging/Requests/Refusals.antt =====
-- What a refused request of semestral/internal/messaging/service.go leaves behind.
use go_tasks.Prelude.{◌≡◌, some, arith}
use go_tasks.Messaging.Database.{Db}
use go_tasks.Messaging.Handler.{Code, Rpc, reply, status, Handler, code_of}
use go_tasks.Messaging.Handler.Effects.{Atomic, Atomic-ReadOnly}
use go_tasks.Messaging.Service.{Env}
use go_tasks.Messaging.Service.Atomicity.{
  ack_message-Atomic, set_messages_read-Atomic, get_message_acks-ReadOnly, get_user_chats-ReadOnly,
  get_chat_members-ReadOnly, create_direct_chat-Atomic, create_group_chat-Atomic,
  add_chat_member-Atomic, get_chat_by_id-ReadOnly, leave_chat-Atomic, send_message-Atomic,
}
use go_tasks.Messaging.Requests.{
  Request, acks, reads, lists_acks, lists_chats, lists_members, opens_direct, opens_group, adds,
  looks_up, leaves, sends, outcome_of, serve,
}

status_of : {A : Type 0} (r : Rpc A) (c : Code) → code_of r ≡ some c → r ≡ status c
status_of (reply a) c e = absurd (cc e)
status_of (status x) c e = ground arith

undone :
    {A : Type 0} (m : Handler A) (db : Db) (c : Code)
    → Atomic m
    → (outcome_of (m db)).1 ≡ some c
    → (outcome_of (m db)).0 ≡ db
undone m db c h e = h.undone db c (status_of (m db).1 c e)

-- Whatever the database driver and the profile service answer, a request that ends with a status
-- code leaves the database exactly as it was.
pub serve_refused :
    (env : Env) (r : Request) (db : Db) (c : Code)
    → (serve env r db).1 ≡ some c
    → (serve env r db).0 ≡ db
unfolding serve
serve_refused env (acks id) db c e = undone _ db c (ack_message-Atomic env id) e
serve_refused env (reads ids) db c e = undone _ db c (set_messages_read-Atomic env ids) e
serve_refused env (lists_acks id) db c e =
    undone _ db c (Atomic-ReadOnly _ (get_message_acks-ReadOnly env id)) e
serve_refused env lists_chats db c e =
    undone _ db c (Atomic-ReadOnly _ (get_user_chats-ReadOnly env)) e
serve_refused env (lists_members id) db c e =
    undone _ db c (Atomic-ReadOnly _ (get_chat_members-ReadOnly env id)) e
serve_refused env (opens_direct id) db c e = undone _ db c (create_direct_chat-Atomic env id) e
serve_refused env (opens_group name ids) db c e =
    undone _ db c (create_group_chat-Atomic env name ids) e
serve_refused env (adds chat user) db c e = undone _ db c (add_chat_member-Atomic env chat user) e
serve_refused env (looks_up id) db c e =
    undone _ db c (Atomic-ReadOnly _ (get_chat_by_id-ReadOnly env id)) e
serve_refused env (leaves chat) db c e = undone _ db c (leave_chat-Atomic env chat) e
serve_refused env (sends chat content) db c e =
    undone _ db c (send_message-Atomic env chat content) e
