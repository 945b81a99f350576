-- ===== src/Messaging/Service.antt =====
-- semestral/internal/messaging/service.go, the unary calls. A request's fields, the claims of the
-- caller, the clock, the fresh id, the faults of the repository and the answer of the profile
-- service are arguments. The claims are those that the auth interceptor put into the context.
-- Logging is left out. `repo n` is the fault of the handler's repository call number n.
pub mod Atomicity
pub mod Mail
pub mod Delivery
pub mod Direct
use go_tasks.Prelude.{
  ℕ, ◌≡◌, String, Bool, true, false, ◌&&◌, ◌||◌, not, Option, none, some, List, [], ◌∷◌, ◌++◌, map,
  str_eq, length, ltb, ◌==◌, if◌then◌else◌,
}
use go_tasks.Prelude.Outcome.{Failable, value, failure, Err}
use go_tasks.Prelude.Tables.{any}
use go_tasks.Prelude.Text.{trim_space, byte_length, is_nil}
use go_tasks.Messaging.Database.{Db, Chat, Message, MessageAck, no_rows}
use go_tasks.Messaging.Repository
use go_tasks.Messaging.Repository.{Fault}
use go_tasks.Messaging.Handler.{
  Code, unauthenticated, invalid_argument, not_found, already_exists, permission_denied, internal,
  Rpc, reply, status, Handler, ◌>>=◌, ◌>>◌, respond, refuse, require, attempt, query, transact,
  claims_subject,
}

-- `verify_users` is the remote call of the profile service, with the ids that exist.
pub record Env : Type 0 where
  pub claims : Option String
  pub repo : ℕ → Fault
  pub verify_users : List String → Failable (List String)
  pub uuid : String
  pub now : ℕ

abbrev pub contains : List String → String → Bool
contains xs x = any (λ y. str_eq y x) xs

unfoldable pub ack_message : Env → String → Handler (Unit {0})
ack_message env msg_id = do
  user_id ← claims_subject env.claims unauthenticated
  transact (Repository.acknowledge_and_cleanup_message (env.repo 0) msg_id user_id env.now) internal

abbrev is_empty : List String → Bool
is_empty [] = true
is_empty (x ∷ xs) = false

unfoldable pub set_messages_read : Env → List String → Handler (Unit {0})
set_messages_read env msg_ids = do
  user_id ← claims_subject env.claims unauthenticated
  if is_empty msg_ids
      then respond tt
      else transact (Repository.set_messages_read (env.repo 0) msg_ids user_id env.now) internal

pub record MessageAckInfo : Type 0 where
  pub user_id : String
  pub delivered_at : Option ℕ
  pub read_at : Option ℕ

abbrev pub to_ack_info : MessageAck → MessageAckInfo
to_ack_info a = record { user_id = a.user_id; delivered_at = a.delivered_at; read_at = a.read_at }

-- The chat of the first ack decides who may read them.
abbrev verified_acks : Env → String → List MessageAck → Handler (List MessageAckInfo)
verified_acks env user_id [] = respond []
verified_acks env user_id (a ∷ rest) = do
  members ← query (Repository.get_chat_members (env.repo 1) a.chat_id) internal
  require (contains members user_id) permission_denied
  respond (map to_ack_info (a ∷ rest))

unfoldable pub get_message_acks : Env → String → Handler (List MessageAckInfo)
get_message_acks env msg_id = do
  user_id ← claims_subject env.claims unauthenticated
  acks ← query (Repository.get_message_acks (env.repo 0) msg_id) internal
  verified_acks env user_id acks

unfoldable pub get_user_chats : Env → Handler (List Chat)
get_user_chats env = do
  user_id ← claims_subject env.claims unauthenticated
  query (Repository.get_user_chats (env.repo 0) user_id) internal

unfoldable pub get_chat_members : Env → String → Handler (List String)
get_chat_members env chat_id = do
  user_id ← claims_subject env.claims unauthenticated
  members ← query (Repository.get_chat_members (env.repo 0) chat_id) internal
  require (contains members user_id) permission_denied
  respond members

-- The answer of `GetDirectChatByUsers`: no rows is no error, any other error is.
abbrev existing_chat : Failable Chat → Failable (Option Chat)
existing_chat (value chat) = value (some chat)
existing_chat (failure e) = if str_eq e no_rows then value none else failure e

abbrev insert_direct_chat : Env → String → String → Handler String
insert_direct_chat env user_id target_id = do
  transact
      (Repository.insert_chat (env.repo 1) (record { id = env.uuid; name = ""; is_group = false })
        (user_id ∷ target_id ∷ []))
      internal
  respond env.uuid

abbrev reuse_or_insert : Env → String → String → Option Chat → Handler String
reuse_or_insert env user_id target_id none = insert_direct_chat env user_id target_id
reuse_or_insert env user_id target_id (some chat) =
    if not (is_nil chat.id) then respond chat.id else insert_direct_chat env user_id target_id

unfoldable pub create_direct_chat : Env → String → Handler String
create_direct_chat env target_id = do
  user_id ← claims_subject env.claims unauthenticated
  require (not (str_eq user_id target_id)) invalid_argument
  existing ← attempt (env.verify_users (target_id ∷ [])) internal
  require (length existing == 1) invalid_argument
  chat ←
      query
        (λ db.
          existing_chat (Repository.get_direct_chat_by_users (env.repo 0) user_id target_id db))
        internal
  reuse_or_insert env user_id target_id chat

-- The members of a group: the ids trimmed, without the empty ones and without repetitions. `seen`
-- is the set of the ids so far, as the list of its keys.
unfoldable pub clean_members : List String → List String → List String
clean_members seen [] = []
clean_members seen (m ∷ ms) =
    let trimmed = trim_space m in
    let kept = not (is_nil trimmed) && not (contains seen trimmed) in
    let rest = clean_members (if kept then trimmed ∷ seen else seen) ms in
    if kept then trimmed ∷ rest else rest

unfoldable pub create_group_chat : Env → String → List String → Handler String
unfolding clean_members
create_group_chat env name requested = do
  user_id ← claims_subject env.claims unauthenticated
  let group_name = trim_space name
  require (not (ltb (byte_length group_name) 1 || ltb 100 (byte_length group_name)))
      invalid_argument
  let member_ids = user_id ∷ clean_members (user_id ∷ []) requested
  existing ← attempt (env.verify_users member_ids) internal
  require (length existing == length member_ids) invalid_argument
  transact
      (Repository.insert_chat (env.repo 0)
        (record { id = env.uuid; name = group_name; is_group = true }) member_ids)
      internal
  respond env.uuid

unfoldable pub add_chat_member : Env → String → String → Handler (Unit {0})
add_chat_member env chat_id target = do
  user_id ← claims_subject env.claims unauthenticated
  let target_user_id = trim_space target
  require (not (is_nil target_user_id)) invalid_argument
  members ← query (Repository.get_chat_members (env.repo 0) chat_id) internal
  require (contains members user_id) permission_denied
  require (not (contains members target_user_id)) already_exists
  chat ← query (Repository.get_chat_by_id (env.repo 1) chat_id) internal
  require chat.is_group invalid_argument
  existing ← attempt (env.verify_users (target_user_id ∷ [])) internal
  require (length existing == 1) not_found
  transact (Repository.add_chat_member (env.repo 2) chat_id target_user_id) internal

unfoldable pub get_chat_by_id : Env → String → Handler Chat
get_chat_by_id env id = do
  user_id ← claims_subject env.claims unauthenticated
  chat ← query (Repository.get_chat_by_id (env.repo 0) id) not_found
  members ← query (Repository.get_chat_members (env.repo 1) id) internal
  require (contains members user_id) permission_denied
  respond chat

unfoldable pub leave_chat : Env → String → Handler (Unit {0})
leave_chat env chat_id = do
  user_id ← claims_subject env.claims unauthenticated
  chat ← query (Repository.get_chat_by_id (env.repo 0) chat_id) internal
  require chat.is_group invalid_argument
  transact (Repository.remove_chat_member (env.repo 1) chat_id user_id) internal

-- The acks of a message: one for each member but the sender.
unfoldable pub acks_for : Message → String → List String → List MessageAck
acks_for message user_id [] = []
acks_for message user_id (m ∷ ms) =
    let rest = acks_for message user_id ms in
    if str_eq m user_id
    then rest
    else record {
      chat_id = message.chat_id;
      message_id = message.id;
      user_id = m;
      delivered_at = none;
      read_at = none;
    }
      ∷ rest

-- What `SendMessage` comes to: the id of the message, and what the broker is to publish.
pub record Sent : Type 0 where
  pub msg_id : String
  pub publish : Option (Message × List MessageAck)

abbrev store_message : Env → Message → List MessageAck → Handler Sent
store_message env message [] = respond (record { msg_id = message.id; publish = none })
store_message env message (a ∷ rest) = do
  transact (Repository.insert_message_with_acks (env.repo 1) message (a ∷ rest)) internal
  respond (record { msg_id = message.id; publish = some (message, a ∷ rest) })

unfoldable pub send_message : Env → String → List ℕ → Handler Sent
unfolding acks_for
send_message env chat_id content = do
  user_id ← claims_subject env.claims internal
  let message : Message = record {
    id = env.uuid;
    chat_id = chat_id;
    sender_id = user_id;
    content = content;
    sent_at = env.now;
  }
  members ← query (Repository.get_chat_members (env.repo 0) chat_id) internal
  require (contains members user_id) permission_denied
  store_message env message (acks_for message user_id members)
