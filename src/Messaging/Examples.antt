-- ===== src/Messaging/Examples.antt =====
-- Requests of the messaging service (semestral/internal/messaging) on concrete input.
use go_tasks.Prelude.{
  inr, ◌≡◌, refl, ◌↔◌, String, true, false, none, some, List, [], ◌∷◌, str_eq, length, arith, ◌≤◌,
}
use go_tasks.Prelude.Outcome.{value}
use go_tasks.Prelude.Tables.{any, select}
use go_tasks.Messaging.Database.{
  Db, insert_chat_query, add_chat_members_query, get_direct_chat_by_users_query, has_message,
  has_member, awaits, empty_db, get_chat_members_query, has_chat, insert_message_query,
  insert_message_acks_query, insert_message_ack_query,
}
use go_tasks.Messaging.Repository
use go_tasks.Messaging.Repository.{call}
use go_tasks.Messaging.Handler.{reply, permission_denied, ◌>>=◌}
use go_tasks.Messaging.Stream.{subscribe}
use go_tasks.Messaging.Stream.Delivery.{is_send, waiting_messages, subscribe-awaits}
use go_tasks.Messaging.Service.Direct.{create_direct_chat_twice}
use go_tasks.Messaging.Service.{Env, create_direct_chat, send_message, acks_for}
use go_tasks.Messaging.Requests.{Request, acks, opens_direct, sends, serve}
use go_tasks.Messaging.Requests.Refusals.{serve_refused}
use go_tasks.Messaging.Requests.Delivery.{awaits-serve, expected}
use go_tasks.Messaging.Requests.Exactness.{serve_all, stored_iff_awaited}
use go_tasks.Messaging.Requests.Access.{serve_members_only, guarded_chat}

-- A call of a user when nothing fails.
abbrev by : String → String → Env
by user uuid = record {
  claims = some user;
  repo = λ n. none;
  verify_users = λ ids. value ids;
  uuid = uuid;
  now = 10;
}

-- A direct chat of two users.
abbrev pair : Db
pair = record {
  chats = record { id = "c1"; name = ""; is_group = false } ∷ [];
  chat_members =
      record { chat_id = "c1"; user_id = "ann" } ∷ record { chat_id = "c1"; user_id = "bob" } ∷ [];
  messages = [];
  message_acks = [];
}

abbrev hello : Request
hello = sends "c1" (104 ∷ 105 ∷ [])

refused : (serve (by "eve" "m1") hello pair).1 ≡ some permission_denied
unfolding serve send_message ◌>>=◌ Repository.get_chat_members call get_chat_members_query select
    any str_eq
refused = refl

serve_refused_example : (serve (by "eve" "m1") hello pair).0 ≡ pair
serve_refused_example = serve_refused (by "eve" "m1") hello pair permission_denied refused

answered : (serve (by "ann" "m1") hello pair).1 ≡ none
unfolding serve send_message ◌>>=◌ Repository.get_chat_members call get_chat_members_query select
    any str_eq acks_for Repository.insert_message_with_acks insert_message_query
    insert_message_acks_query insert_message_ack_query has_message has_chat
answered = refl

awaits-serve_example :
    awaits "m1" "bob" (serve (by "ann" "m1") hello pair).0
    ≡ expected (by "ann" "m1") hello pair "m1" "bob"
awaits-serve_example = awaits-serve (by "ann" "m1") hello pair answered "m1" "bob"

-- A chat is opened, a message is sent and acknowledged.
abbrev conversation : List (Env × Request)
conversation =
    (by "ann" "c1", opens_direct "bob") ∷ (by "ann" "m1", hello) ∷ (by "bob" "x", acks "m1") ∷ []

stored_iff_awaited_example :
    (has_message "m1" (serve_all conversation empty_db) ≡ true)
    ↔ ((u : String) × (awaits "m1" u (serve_all conversation empty_db) ≡ true))
stored_iff_awaited_example = stored_iff_awaited conversation "m1"

serve_members_only_example : has_member "c1" "ann" pair ≡ true
serve_members_only_example =
    serve_members_only (by "ann" "m1") hello pair "ann" "c1" refl (unfold guarded_chat in refl)
      answered

-- Ann has sent a message that Bob has not acknowledged.
abbrev sent_only : List (Env × Request)
sent_only = (by "ann" "c1", opens_direct "bob") ∷ (by "ann" "m1", hello) ∷ []

abbrev sent_db : Db
sent_db = serve_all sent_only empty_db

one_waits : length (waiting_messages "bob" sent_db) ≡ 1
unfolding serve_all serve create_direct_chat send_message ◌>>=◌ acks_for select any str_eq
    Repository.get_direct_chat_by_users get_direct_chat_by_users_query Repository.insert_chat call
    insert_chat_query add_chat_members_query Repository.get_chat_members get_chat_members_query
    has_chat has_member Repository.insert_message_with_acks insert_message_query
    insert_message_acks_query insert_message_ack_query has_message awaits empty_db
one_waits = refl

few_waiting : length (waiting_messages "bob" sent_db) ≤ 100
few_waiting = ground (arith, one_waits)

bob_waits : awaits "m1" "bob" sent_db ≡ true
unfolding serve_all serve create_direct_chat send_message ◌>>=◌ acks_for select any str_eq
    Repository.get_direct_chat_by_users get_direct_chat_by_users_query Repository.insert_chat call
    insert_chat_query add_chat_members_query Repository.get_chat_members get_chat_members_query
    has_chat has_member Repository.insert_message_with_acks insert_message_query
    insert_message_acks_query insert_message_ack_query has_message awaits empty_db
bob_waits = refl

subscribe-awaits_example :
    any (is_send "m1") (subscribe (some "bob") true none none [] sent_db).0 ≡ true
subscribe-awaits_example = subscribe-awaits sent_only "m1" "bob" true [] few_waiting bob_waits

opened : (create_direct_chat (by "ann" "c1") "bob" empty_db).1 ≡ reply "c1"
unfolding create_direct_chat ◌>>=◌ select any str_eq Repository.get_direct_chat_by_users
    get_direct_chat_by_users_query Repository.insert_chat call insert_chat_query
    add_chat_members_query has_chat has_member empty_db
opened = refl

distinct_users : str_eq "bob" "ann" ≡ false
unfolding str_eq
distinct_users = refl

create_direct_chat_twice_example :
    create_direct_chat (by "bob" "c2") "ann" (create_direct_chat (by "ann" "c1") "bob" empty_db).0
    ≡ ((create_direct_chat (by "ann" "c1") "bob" empty_db).0, reply "c1")
create_direct_chat_twice_example =
    create_direct_chat_twice (by "ann" "c1") (by "bob" "c2") "ann" "bob" "bob" "ann" "c1" empty_db
      ("ann" ∷ []) refl opened (unfold has_chat empty_db any in refl) refl (inr (refl, refl)) refl
      distinct_users refl refl refl
