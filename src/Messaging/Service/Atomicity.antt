-- ===== src/Messaging/Service/Atomicity.antt =====
-- A unary call of semestral/internal/messaging/service.go that ends with a status code has changed
-- nothing in the database.
use go_tasks.Prelude.{ℕ, ◌≡◌, refl, String, Option, none, some, List, [], ◌∷◌, arith}
use go_tasks.Prelude.Outcome.{Failable, failure, Err}
use go_tasks.Messaging.Database.{Db, Chat, Message, MessageAck}
use go_tasks.Messaging.Repository
use go_tasks.Messaging.Repository.{Fault}
use go_tasks.Messaging.Handler.Effects.{
  ReadOnly, Atomic, reading, Atomic-ReadOnly, Atomic-bind, Atomic-bind-Replies, Atomic-transact,
  Atomic-if, Replies-respond,
}
use go_tasks.Messaging.Service.{
  Env, ack_message, set_messages_read, get_message_acks, get_user_chats, get_chat_members,
  create_direct_chat, create_group_chat, add_chat_member, get_chat_by_id, leave_chat, send_message,
  verified_acks, reuse_or_insert, insert_direct_chat, store_message,
}

abbrev Undoes : (Db → Db × Failable (Unit {0})) → Type 0
Undoes t = (db : Db) (e : Err) → (t db).1 ≡ failure e → (t db).0 ≡ db

acknowledge-Undoes :
    (f : Fault) (m u : String) (t : ℕ) → Undoes (Repository.acknowledge_and_cleanup_message f m u t)
unfolding Repository.acknowledge_and_cleanup_message
acknowledge-Undoes f m u t db e h = ground arith

read-Undoes :
    (f : Fault) (ids : List String) (u : String) (t : ℕ)
    → Undoes (Repository.set_messages_read f ids u t)
unfolding Repository.set_messages_read
read-Undoes f [] u t db e h = refl
read-Undoes f (i ∷ ids) u t db e h = ground arith

insert_chat-Undoes :
    (f : Fault) (c : Chat) (ms : List String) → Undoes (Repository.insert_chat f c ms)
unfolding Repository.insert_chat
insert_chat-Undoes f c ms db e h = ground arith

add_member-Undoes : (f : Fault) (c u : String) → Undoes (Repository.add_chat_member f c u)
unfolding Repository.add_chat_member
add_member-Undoes f c u db e h = ground arith

remove_member-Undoes : (f : Fault) (c u : String) → Undoes (Repository.remove_chat_member f c u)
unfolding Repository.remove_chat_member
remove_member-Undoes f c u db e h = ground arith

insert_message-Undoes :
    (f : Fault) (m : Message) (acks : List MessageAck)
    → Undoes (Repository.insert_message_with_acks f m acks)
unfolding Repository.insert_message_with_acks
insert_message-Undoes f m acks db e h = ground arith

ruleset undo = (
  acknowledge-Undoes, read-Undoes, insert_chat-Undoes, add_member-Undoes, remove_member-Undoes,
  insert_message-Undoes,
)

pub ack_message-Atomic : (env : Env) (id : String) → Atomic (ack_message env id)
unfolding ack_message
ack_message-Atomic env id = search (Atomic-bind, Atomic-transact, reading, undo)

pub set_messages_read-Atomic : (env : Env) (ids : List String) → Atomic (set_messages_read env ids)
unfolding set_messages_read
set_messages_read-Atomic env ids =
    search (Atomic-bind, Atomic-if, Atomic-ReadOnly, Atomic-transact, reading, undo)

ruleset atomic = (
  Atomic-bind, Atomic-if, Atomic-ReadOnly, Atomic-transact, Atomic-bind-Replies, Replies-respond,
  reading, undo,
)

verified_acks-ReadOnly :
    (env : Env) (u : String) (acks : List MessageAck) → ReadOnly (verified_acks env u acks)
verified_acks-ReadOnly env u [] = search reading
verified_acks-ReadOnly env u (a ∷ rest) = search reading

pub get_message_acks-ReadOnly : (env : Env) (id : String) → ReadOnly (get_message_acks env id)
unfolding get_message_acks
get_message_acks-ReadOnly env id = search (reading, verified_acks-ReadOnly)

pub get_user_chats-ReadOnly : (env : Env) → ReadOnly (get_user_chats env)
unfolding get_user_chats
get_user_chats-ReadOnly env = search reading

pub get_chat_members-ReadOnly : (env : Env) (id : String) → ReadOnly (get_chat_members env id)
unfolding get_chat_members
get_chat_members-ReadOnly env id = search reading depth 8

pub get_chat_by_id-ReadOnly : (env : Env) (id : String) → ReadOnly (get_chat_by_id env id)
unfolding get_chat_by_id
get_chat_by_id-ReadOnly env id = search reading depth 10

insert_direct_chat-Atomic : (env : Env) (u v : String) → Atomic (insert_direct_chat env u v)
insert_direct_chat-Atomic env u v = search atomic

reuse_or_insert-Atomic :
    (env : Env) (u v : String) (o : Option Chat) → Atomic (reuse_or_insert env u v o)
reuse_or_insert-Atomic env u v none = insert_direct_chat-Atomic env u v
reuse_or_insert-Atomic env u v (some c) =
    search (Atomic-if, Atomic-ReadOnly, reading, insert_direct_chat-Atomic)

pub create_direct_chat-Atomic : (env : Env) (id : String) → Atomic (create_direct_chat env id)
unfolding create_direct_chat
create_direct_chat-Atomic env id = search (Atomic-bind, reading, reuse_or_insert-Atomic) depth 12

pub create_group_chat-Atomic :
    (env : Env) (name : String) (ids : List String) → Atomic (create_group_chat env name ids)
unfolding create_group_chat
create_group_chat-Atomic env name ids = search atomic depth 12

pub add_chat_member-Atomic : (env : Env) (c u : String) → Atomic (add_chat_member env c u)
unfolding add_chat_member
add_chat_member-Atomic env c u = search (Atomic-bind, Atomic-transact, reading, undo) depth 16

pub leave_chat-Atomic : (env : Env) (c : String) → Atomic (leave_chat env c)
unfolding leave_chat
leave_chat-Atomic env c = search (Atomic-bind, Atomic-transact, reading, undo) depth 10

store_message-Atomic :
    (env : Env) (m : Message) (acks : List MessageAck) → Atomic (store_message env m acks)
store_message-Atomic env m [] = search atomic
store_message-Atomic env m (a ∷ rest) = search atomic

pub send_message-Atomic :
    (env : Env) (c : String) (content : List ℕ) → Atomic (send_message env c content)
unfolding send_message
send_message-Atomic env c content = search (Atomic-bind, reading, store_message-Atomic) depth 10
