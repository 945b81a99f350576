-- ===== src/Messaging/Requests/Access.antt =====
-- Who may do what: the claims and the membership tests of
-- semestral/internal/messaging/service.go.
use go_tasks.Prelude.{
  ◌≡◌, refl, String, true, Option, none, some, List, [], ◌∷◌, arith, inl, inr, ◌⊎◌,
}
use go_tasks.Prelude.Outcome.{value, failure, Failable-cases}
use go_tasks.Messaging.Database.{
  Db, MessageAck, has_member, get_chat_members_query, get_message_acks_query,
}
use go_tasks.Messaging.Repository
use go_tasks.Messaging.Repository.{call, Fault}
use go_tasks.Messaging.Handler.{Code, unauthenticated, internal, ◌>>=◌}
use go_tasks.Messaging.Service.{
  Env, contains, get_message_acks, get_chat_members, add_chat_member, get_chat_by_id, send_message,
  ack_message, set_messages_read, get_user_chats, create_direct_chat, create_group_chat, leave_chat,
}
use go_tasks.Messaging.Service.Delivery.{contains-has_member, send_message-answered}
use go_tasks.Messaging.Requests.{
  Request, acks, reads, lists_acks, lists_chats, lists_members, opens_direct, opens_group, adds,
  looks_up, leaves, sends, serve,
}

abbrev pub refusal_code : Request → Code
refusal_code (sends chat content) = internal
refusal_code r = unauthenticated

-- A call without claims in its context is refused before it touches anything.
pub serve_unauthenticated :
    (env : Env) (r : Request) (db : Db)
    → env.claims ≡ none
    → serve env r db ≡ (db, some (refusal_code r))
unfolding serve ack_message set_messages_read get_message_acks get_user_chats get_chat_members
    create_direct_chat create_group_chat add_chat_member get_chat_by_id leave_chat send_message
    ◌>>=◌
serve_unauthenticated env (acks id) db c = ground arith
serve_unauthenticated env (reads ids) db c = ground arith
serve_unauthenticated env (lists_acks id) db c = ground arith
serve_unauthenticated env lists_chats db c = ground arith
serve_unauthenticated env (lists_members id) db c = ground arith
serve_unauthenticated env (opens_direct id) db c = ground arith
serve_unauthenticated env (opens_group name ids) db c = ground arith
serve_unauthenticated env (adds chat user) db c = ground arith
serve_unauthenticated env (looks_up id) db c = ground arith
serve_unauthenticated env (leaves chat) db c = ground arith
serve_unauthenticated env (sends chat content) db c = ground arith

abbrev first_chat : List MessageAck → Option String
first_chat [] = none
first_chat (a ∷ rest) = some a.chat_id

-- The chat that a request is only for the members of.
unfoldable pub guarded_chat : Request → Db → Option String
guarded_chat (lists_acks id) db = first_chat (get_message_acks_query id db)
guarded_chat (lists_members chat) db = some chat
guarded_chat (looks_up chat) db = some chat
guarded_chat (adds chat user) db = some chat
guarded_chat (sends chat content) db = some chat
guarded_chat r db = none

-- The answer of the repository, and what the membership test says on it.
members_answer :
    (f : Fault) (user chat : String) (db : Db)
    → ((e : String) × (Repository.get_chat_members f chat db ≡ failure e))
      ⊎ ((ms : List String) × (Repository.get_chat_members f chat db ≡ value ms)
          × (contains ms user ≡ has_member chat user db))
unfolding Repository.get_chat_members
members_answer f user chat db = elim (Failable-cases (call f 0)) [
  | inl (e, p) ↦ inl (e, ground arith)
  | inr (_, p) ↦
      inr (get_chat_members_query chat db, ground arith, contains-has_member chat user db)
]

List-cases : {A : Type 0} (xs : List A) → (xs ≡ []) ⊎ ((a : A) × (rest : List A) × (xs ≡ a ∷ rest))
List-cases [] = inl refl
List-cases (a ∷ rest) = inr (a, rest, refl)

-- A request on a chat that is answered comes from a member of that chat: reading its members, its
-- name or the acks of one of its messages, adding a member to it, and sending to it.
pub serve_members_only :
    (env : Env) (r : Request) (db : Db) (user chat : String)
    → env.claims ≡ some user
    → guarded_chat r db ≡ some chat
    → (serve env r db).1 ≡ none
    → has_member chat user db ≡ true
unfolding guarded_chat serve get_message_acks get_chat_members add_chat_member get_chat_by_id ◌>>=◌
    Repository.get_message_acks
serve_members_only env (lists_members id) db user chat c g h =
    elim (members_answer (env.repo 0) user id db) [
      | inl (e, p) ↦ absurd (ground arith)
      | inr (ms, p, q) ↦ ground arith
    ]
serve_members_only env (lists_acks id) db user chat c g h =
    elim (Failable-cases (call (env.repo 0) 0)) [
      | inl (e, p) ↦ absurd (ground arith)
      | inr (_, p) ↦ elim (List-cases (get_message_acks_query id db)) [
        | inl n ↦ absurd (ground arith)
        | inr (a, rest, n) ↦ elim (members_answer (env.repo 1) user a.chat_id db) [
          | inl (e, q) ↦ absurd (ground arith)
          | inr (ms, q, w) ↦ ground arith
        ]
      ]
    ]
serve_members_only env (looks_up id) db user chat c g h =
    elim (members_answer (env.repo 1) user id db) [
      | inl (e, p) ↦ absurd (ground arith)
      | inr (ms, p, q) ↦ ground arith
    ]
serve_members_only env (adds id target) db user chat c g h =
    elim (members_answer (env.repo 0) user id db) [
      | inl (e, p) ↦ absurd (ground arith)
      | inr (ms, p, q) ↦ ground arith
    ]
serve_members_only env (sends id content) db user chat c g h =
    ground (arith, (send_message-answered env id content user db c h).0)
serve_members_only env r db user chat c g h = absurd (cc g)
