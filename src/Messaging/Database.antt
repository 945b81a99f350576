-- ===== src/Messaging/Database.antt =====
-- semestral/internal/messaging/model.go and the SQL text of sqlite_repository.go: the four tables
-- and one function for each statement. The statements that break a key fail, as SQLite reports it.
pub mod Laws
use go_tasks.Prelude.{
  ℕ, ◌≡◌, String, Bool, true, false, ◌&&◌, ◌||◌, not, Option, none, some, List, [], ◌∷◌, ◌++◌, map,
  str_eq, is_some, if◌then◌else◌, ◌==◌,
}
use go_tasks.Prelude.Outcome.{Failable, value, failure, Err, bind_failable}
use go_tasks.Prelude.Tables.{select, any, count, update, first, take, order_by}

pub record Chat : Type 0 where
  pub id : String
  pub name : String
  pub is_group : Bool

pub record Message : Type 0 where
  pub id : String
  pub chat_id : String
  pub sender_id : String
  pub content : List ℕ
  pub sent_at : ℕ

-- A null time is `none`.
pub record MessageAck : Type 0 where
  pub chat_id : String
  pub message_id : String
  pub user_id : String
  pub delivered_at : Option ℕ
  pub read_at : Option ℕ

pub record ChatMember : Type 0 where
  pub chat_id : String
  pub user_id : String

pub record Db : Type 0 where
  pub chats : List Chat
  pub chat_members : List ChatMember
  pub messages : List Message
  pub message_acks : List MessageAck

unfoldable pub empty_db : Db
empty_db = record { chats = []; chat_members = []; messages = []; message_acks = [] }

abbrev pub unique_violated : Err
unique_violated = "UNIQUE constraint failed"

abbrev pub foreign_key_violated : Err
foreign_key_violated = "FOREIGN KEY constraint failed"

abbrev pub no_rows : Err
no_rows = "sql: no rows in result set"

unfoldable pub has_chat : String → Db → Bool
has_chat id db = any (λ c. str_eq c.id id) db.chats

unfoldable pub has_member : String → String → Db → Bool
has_member chat_id user_id db =
    any (λ m. str_eq m.chat_id chat_id && str_eq m.user_id user_id) db.chat_members

unfoldable pub insert_chat_query : Chat → Db → Failable Db
insert_chat_query chat db =
    if has_chat chat.id db
    then failure unique_violated
    else value (record db { chats = db.chats ++ chat ∷ [] })

-- ON CONFLICT(chat_id, user_id) DO NOTHING
unfoldable pub add_chat_member_query : String → String → Db → Failable Db
add_chat_member_query chat_id user_id db =
    if has_member chat_id user_id db
    then value db
    else if has_chat chat_id db
    then value (record db {
      chat_members = db.chat_members ++ record { chat_id = chat_id; user_id = user_id } ∷ [];
    })
    else failure foreign_key_violated

-- One statement with a row for each user.
unfoldable pub add_chat_members_query : String → List String → Db → Failable Db
unfolding add_chat_member_query
add_chat_members_query chat_id [] db = value db
add_chat_members_query chat_id (u ∷ us) db =
    bind_failable (add_chat_member_query chat_id u db)
      (λ db'. add_chat_members_query chat_id us db')

unfoldable pub remove_chat_member_query : String → String → Db → Db
remove_chat_member_query chat_id user_id db = record db {
  chat_members =
      select (λ m. not (str_eq m.chat_id chat_id && str_eq m.user_id user_id)) db.chat_members;
}

unfoldable pub get_chat_members_query : String → Db → List String
get_chat_members_query chat_id db =
    map (λ m. m.user_id) (select (λ m. str_eq m.chat_id chat_id) db.chat_members)

unfoldable pub get_chat_by_id_query : String → Db → Option Chat
get_chat_by_id_query id db = first (select (λ c. str_eq c.id id) db.chats)

-- The key of `chat_members` lets each join find at most one row.
unfoldable pub get_direct_chat_by_users_query : String → String → Db → Option Chat
get_direct_chat_by_users_query a b db =
    first (select (λ c. not c.is_group && has_member c.id a db && has_member c.id b db) db.chats)

unfoldable pub get_chats_by_user_query : String → Db → List Chat
get_chats_by_user_query user_id db = select (λ c. has_member c.id user_id db) db.chats

unfoldable pub has_message : String → Db → Bool
has_message id db = any (λ m. str_eq m.id id) db.messages

unfoldable pub insert_message_query : Message → Db → Failable Db
insert_message_query m db =
    if has_message m.id db
    then failure unique_violated
    else if has_chat m.chat_id db
    then value (record db { messages = db.messages ++ m ∷ [] })
    else failure foreign_key_violated

abbrev pub is_ack_of : String → String → MessageAck → Bool
is_ack_of message_id user_id a = str_eq a.message_id message_id && str_eq a.user_id user_id

unfoldable pub insert_message_ack_query : MessageAck → Db → Failable Db
insert_message_ack_query a db =
    if any (is_ack_of a.message_id a.user_id) db.message_acks
    then failure unique_violated
    else value (record db { message_acks = db.message_acks ++ a ∷ [] })

unfoldable pub insert_message_acks_query : List MessageAck → Db → Failable Db
unfolding insert_message_ack_query
insert_message_acks_query [] db = value db
insert_message_acks_query (a ∷ rest) db =
    bind_failable (insert_message_ack_query a db) (λ db'. insert_message_acks_query rest db')

abbrev pub is_pending : MessageAck → Bool
is_pending a = not (is_some a.delivered_at)

unfoldable pub count_pending_acks_query : String → Db → ℕ
count_pending_acks_query message_id db =
    count (λ a. str_eq a.message_id message_id && is_pending a) db.message_acks

-- Whether the message still waits for the user.
unfoldable pub awaits : String → String → Db → Bool
awaits message_id user_id db =
    any (λ a. is_ack_of message_id user_id a && is_pending a) db.message_acks

abbrev pub undelivered_limit : ℕ
undelivered_limit = 100

-- The key of `message_acks` lets the join find at most one row for a message.
unfoldable pub get_undelivered_messages_query : String → Db → List Message
get_undelivered_messages_query user_id db =
    take undelivered_limit
      (order_by (λ m. m.sent_at) (select (λ m. awaits m.id user_id db) db.messages))

unfoldable pub set_message_delivered_query : ℕ → String → String → Db → Db
set_message_delivered_query time message_id user_id db = record db {
  message_acks =
      update (λ a. is_ack_of message_id user_id a && is_pending a)
        (λ a. record a { delivered_at = some time }) db.message_acks;
}

unfoldable pub delete_message_query : String → Db → Db
delete_message_query id db = record db { messages = select (λ m. not (str_eq m.id id)) db.messages }

unfoldable pub set_messages_read_query : ℕ → String → List String → Db → Db
set_messages_read_query time user_id message_ids db = record db {
  message_acks =
      update
        (λ a.
          str_eq a.user_id user_id
          && not (is_some a.read_at)
          && any (λ id. str_eq id a.message_id) message_ids)
        (λ a. record a { read_at = some time }) db.message_acks;
}

unfoldable pub get_message_acks_query : String → Db → List MessageAck
get_message_acks_query message_id db = select (λ a. str_eq a.message_id message_id) db.message_acks
