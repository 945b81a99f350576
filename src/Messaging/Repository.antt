-- ===== src/Messaging/Repository.antt =====
-- semestral/internal/messaging/sqlite_repository.go. A `Fault` numbers the call into the database
-- driver at which an error (a timeout, a lock) is reported, if any; the statements' own errors come
-- on top. A transaction that does not commit leaves the database as it was.
pub mod Laws
pub mod Mail
pub mod Direct
use go_tasks.Prelude.{
  ℕ, ◌≡◌, String, Bool, true, false, Option, none, some, List, [], ◌∷◌, if◌then◌else◌, ◌==◌,
}
use go_tasks.Prelude.Outcome.{Failable, value, failure, Err, bind_failable}
use go_tasks.Messaging.Database.{
  Db, Chat, Message, MessageAck, no_rows, insert_chat_query, add_chat_member_query,
  add_chat_members_query, remove_chat_member_query, get_chat_members_query, get_chat_by_id_query,
  get_direct_chat_by_users_query, get_chats_by_user_query, insert_message_query,
  insert_message_acks_query, count_pending_acks_query, get_undelivered_messages_query,
  set_message_delivered_query, delete_message_query, set_messages_read_query,
  get_message_acks_query,
}

abbrev pub Fault : Type 0
Fault = Option ℕ

infixl 5 ◌>>=◌ ◌>>◌
abbrev ◌>>=◌ : {A B : Type 0} → Failable A → (A → Failable B) → Failable B
m >>= f = bind_failable m f

abbrev ◌>>◌ : {B : Type 0} → Failable (Unit {0}) → Failable B → Failable B
m >> k = m >>= λ _. k

abbrev pub driver_error : Err
driver_error = "driver error"

-- The driver's answer to call number `n`.
unfoldable pub call : Fault → ℕ → Failable (Unit {0})
call none n = value tt
call (some k) n = if k == n then failure driver_error else value tt

-- What is read back after a statement or a transaction: the old database on an error.
abbrev pub commit : Db → Failable Db → Db × Failable (Unit {0})
commit db (value db') = (db', value tt)
commit db (failure e) = (db, failure e)

abbrev row : {A : Type 0} → Option A → Failable A
row none = failure no_rows
row (some a) = value a

unfoldable pub get_chat_by_id : Fault → String → Db → Failable Chat
get_chat_by_id fault chat_id db = do call fault 0; row (get_chat_by_id_query chat_id db)

unfoldable pub get_direct_chat_by_users : Fault → String → String → Db → Failable Chat
get_direct_chat_by_users fault a b db = do call fault 0; row (get_direct_chat_by_users_query a b db)

abbrev insert_members : Fault → String → List String → Db → Failable Db
insert_members fault chat_id [] db = do call fault 2; value db
insert_members fault chat_id (m ∷ ms) db = do
  call fault 2
  db' ← add_chat_members_query chat_id (m ∷ ms) db
  call fault 3
  value db'

unfoldable pub insert_chat : Fault → Chat → List String → Db → Db × Failable (Unit {0})
insert_chat fault chat member_ids db = commit db (do
  call fault 0
  call fault 1
  db' ← insert_chat_query chat db
  insert_members fault chat.id member_ids db')

unfoldable pub get_user_chats : Fault → String → Db → Failable (List Chat)
get_user_chats fault user_id db = do call fault 0; value (get_chats_by_user_query user_id db)

unfoldable pub add_chat_member : Fault → String → String → Db → Db × Failable (Unit {0})
add_chat_member fault chat_id user_id db =
    commit db (do call fault 0; add_chat_member_query chat_id user_id db)

unfoldable pub remove_chat_member : Fault → String → String → Db → Db × Failable (Unit {0})
remove_chat_member fault chat_id user_id db =
    commit db (do call fault 0; value (remove_chat_member_query chat_id user_id db))

unfoldable pub get_chat_members : Fault → String → Db → Failable (List String)
get_chat_members fault chat_id db = do call fault 0; value (get_chat_members_query chat_id db)

unfoldable pub insert_message : Fault → Message → Db → Db × Failable (Unit {0})
insert_message fault m db = commit db (do call fault 0; insert_message_query m db)

abbrev insert_acks_if_any : Fault → List MessageAck → Db → Failable Db
insert_acks_if_any fault [] db = value db
insert_acks_if_any fault (a ∷ rest) db = do call fault 2; insert_message_acks_query (a ∷ rest) db

unfoldable pub insert_message_with_acks :
    Fault → Message → List MessageAck → Db → Db × Failable (Unit {0})
insert_message_with_acks fault m acks db = commit db (do
  call fault 0
  call fault 1
  db1 ← insert_message_query m db
  db2 ← insert_acks_if_any fault acks db1
  call fault 3
  value db2)

unfoldable pub insert_message_acks : Fault → List MessageAck → Db → Db × Failable (Unit {0})
insert_message_acks fault [] db = (db, value tt)
insert_message_acks fault (a ∷ rest) db = commit db (do
  call fault 0
  call fault 1
  db' ← insert_message_acks_query (a ∷ rest) db
  call fault 2
  value db')

unfoldable pub get_undelivered_messages : Fault → String → Db → Failable (List Message)
get_undelivered_messages fault user_id db = do
  call fault 0
  value (get_undelivered_messages_query user_id db)

unfoldable pub acknowledge_and_cleanup_message :
    Fault → String → String → ℕ → Db → Db × Failable (Unit {0})
acknowledge_and_cleanup_message fault message_id user_id delivered_at db =
    let db1 = set_message_delivered_query delivered_at message_id user_id db in
    let dropped = (do call fault 3; value (delete_message_query message_id db1)) in
    commit db (do
      call fault 0
      call fault 1
      call fault 2
      db2 ← (if count_pending_acks_query message_id db1 == 0 then dropped else value db1)
      call fault 4
      value db2)

unfoldable pub set_messages_read : Fault → List String → String → ℕ → Db → Db × Failable (Unit {0})
set_messages_read fault [] user_id read_at db = (db, value tt)
set_messages_read fault (m ∷ ms) user_id read_at db =
    commit db (do call fault 0; value (set_messages_read_query read_at user_id (m ∷ ms) db))

unfoldable pub get_message_acks : Fault → String → Db → Failable (List MessageAck)
get_message_acks fault message_id db = do call fault 0; value (get_message_acks_query message_id db)
