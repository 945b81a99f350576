-- ===== src/Messaging/Service/Mail.antt =====
-- The calls of semestral/internal/messaging/service.go that do not concern delivery leave the
-- messages and their acks alone.
use go_tasks.Prelude.{String, Option, none, some, List}
use go_tasks.Messaging.Database.{Chat}
use go_tasks.Messaging.Repository.Mail.{
  insert_chat-Same, add_chat_member-Same, remove_chat_member-Same,
}
use go_tasks.Messaging.Handler.Effects.{
  KeepsMail, reading, KeepsMail-ReadOnly, KeepsMail-bind, KeepsMail-transact, KeepsMail-if,
}
use go_tasks.Messaging.Service.{
  Env, create_direct_chat, create_group_chat, add_chat_member, leave_chat, reuse_or_insert,
  insert_direct_chat,
}

ruleset keeping = (
  KeepsMail-bind, KeepsMail-transact, KeepsMail-if, KeepsMail-ReadOnly, reading, insert_chat-Same,
  add_chat_member-Same, remove_chat_member-Same,
)

insert_direct_chat-KeepsMail : (env : Env) (u v : String) → KeepsMail (insert_direct_chat env u v)
insert_direct_chat-KeepsMail env u v = search keeping

reuse_or_insert-KeepsMail :
    (env : Env) (u v : String) (o : Option Chat) → KeepsMail (reuse_or_insert env u v o)
reuse_or_insert-KeepsMail env u v none = insert_direct_chat-KeepsMail env u v
reuse_or_insert-KeepsMail env u v (some c) =
    search (KeepsMail-if, KeepsMail-ReadOnly, reading, insert_direct_chat-KeepsMail)

pub create_direct_chat-KeepsMail : (env : Env) (id : String) → KeepsMail (create_direct_chat env id)
unfolding create_direct_chat
create_direct_chat-KeepsMail env id =
    search (KeepsMail-bind, KeepsMail-ReadOnly, reading, reuse_or_insert-KeepsMail) depth 14

pub create_group_chat-KeepsMail :
    (env : Env) (name : String) (ids : List String) → KeepsMail (create_group_chat env name ids)
unfolding create_group_chat
create_group_chat-KeepsMail env name ids = search keeping depth 14

pub add_chat_member-KeepsMail : (env : Env) (c u : String) → KeepsMail (add_chat_member env c u)
unfolding add_chat_member
add_chat_member-KeepsMail env c u = search keeping depth 18

pub leave_chat-KeepsMail : (env : Env) (c : String) → KeepsMail (leave_chat env c)
unfolding leave_chat
leave_chat-KeepsMail env c = search keeping depth 12
