-- ===== src/Messaging/Repository/Laws.antt =====
-- What the transactions of semestral/internal/messaging/sqlite_repository.go do to the messages and
-- to the users that wait for them, when they succeed and when they fail.
use go_tasks.Prelude.{
  ℕ, ◌≡◌, refl, String, ◌&&◌, ◌||◌, not, List, [], ◌∷◌, arith, str_eq, if◌then◌else◌, inl, inr,
  ◌==◌,
}
use go_tasks.Prelude.Outcome.{Failable, value, failure, Failable-cases, Err}
use go_tasks.Prelude.Tables.{any}
use go_tasks.Messaging.Database.{
  Db, Message, MessageAck, has_message, awaits, count_pending_acks_query,
  set_message_delivered_query, delete_message_query, insert_message_query, set_messages_read_query,
}
use go_tasks.Messaging.Database.Laws.{
  awaits-set_delivered, awaits-set_read, has_message-delete, has_message-insert, awaits-insert_acks,
  waits_in,
}
use go_tasks.Messaging.Repository.{
  Fault, commit, acknowledge_and_cleanup_message, insert_message_with_acks, insert_acks_if_any,
  set_messages_read,
}

pub commit-value : (db db' : Db) (r : Failable Db) → commit db r ≡ (db', value tt) → r ≡ value db'
commit-value db db' (value x) h = ground arith
commit-value db db' (failure e) h = ground arith

-- A transaction that fails leaves the database as it was.
pub commit-failure :
    (db : Db) (r : Failable Db) (e : Err) → (commit db r).1 ≡ failure e → (commit db r).0 ≡ db
commit-failure db (value x) e h = ground arith
commit-failure db (failure x) e h = refl

-- An acknowledgement that succeeds has marked the delivery, and has dropped the message exactly if
-- nobody waits for it any more.
pub acknowledge_value :
    (fault : Fault) (m u : String) (t : ℕ) (db db' : Db)
    → acknowledge_and_cleanup_message fault m u t db ≡ (db', value tt)
    → let db1 = set_message_delivered_query t m u db in
      db' ≡ (if count_pending_acks_query m db1 == 0 then delete_message_query m db1 else db1)
unfolding acknowledge_and_cleanup_message
acknowledge_value fault m u t db db' h = ground arith

pub acknowledge-awaits :
    (fault : Fault) (m u : String) (t : ℕ) (db db' : Db)
    → acknowledge_and_cleanup_message fault m u t db ≡ (db', value tt)
    → (m' u' : String) → awaits m' u' db' ≡ (awaits m' u' db && not (str_eq m m' && str_eq u u'))
unfolding delete_message_query awaits
acknowledge-awaits fault m u t db db' h m' u' =
    ground (arith, acknowledge_value fault m u t db db' h, awaits-set_delivered t m u m' u' db)

pub acknowledge-has_message :
    (fault : Fault) (m u : String) (t : ℕ) (db db' : Db)
    → acknowledge_and_cleanup_message fault m u t db ≡ (db', value tt)
    → (m' : String)
    → has_message m' db' ≡ (
        has_message m' db
        && not
            (str_eq m m' && count_pending_acks_query m (set_message_delivered_query t m u db) == 0))
unfolding set_message_delivered_query has_message
acknowledge-has_message fault m u t db db' h m' = ground (
  arith,
  acknowledge_value fault m u t db db' h,
  has_message-delete m m' (set_message_delivered_query t m u db),
)

insert_acks_if_any-rows :
    (fault : Fault) (acks : List MessageAck) (db db' : Db)
    → insert_acks_if_any fault acks db ≡ value db'
    → (m u : String)
    → (awaits m u db' ≡ (awaits m u db || waits_in m u acks)) × (db'.messages ≡ db.messages)
unfolding any
insert_acks_if_any-rows fault [] db db' h m u = ground arith
insert_acks_if_any-rows fault (a ∷ acks) db db' h m u =
    awaits-insert_acks (a ∷ acks) db db' (ground arith) m u

-- A message that is stored with its acks is there, and the users of the pending acks wait for it.
pub insert_with_acks_lem :
    (fault : Fault) (x : Message) (acks : List MessageAck) (db db' : Db)
    → insert_message_with_acks fault x acks db ≡ (db', value tt)
    → (m u : String)
    → (awaits m u db' ≡ (awaits m u db || waits_in m u acks))
      × (has_message m db' ≡ (has_message m db || str_eq x.id m))
unfolding insert_message_with_acks has_message awaits
insert_with_acks_lem fault x acks db db' h m u = elim (Failable-cases (insert_message_query x db)) [
  | inl (e, p) ↦ absurd (ground arith)
  | inr (db1, p) ↦ elim (Failable-cases (insert_acks_if_any fault acks db1)) [
    | inl (e, q) ↦ absurd (ground arith)
    | inr (db2, q) ↦
        let (e1, e2) = has_message-insert x db db1 p m in
        let (e3, e4) = insert_acks_if_any-rows fault acks db1 db2 q m u in
        let e5 : db' ≡ db2 = ground arith in ground arith
  ]
]

pub set_messages_read_lem :
    (fault : Fault) (ids : List String) (user : String) (t : ℕ) (db : Db) (m u : String)
    → (awaits m u (set_messages_read fault ids user t db).0 ≡ awaits m u db)
      × ((set_messages_read fault ids user t db).0.messages ≡ db.messages)
unfolding set_messages_read set_messages_read_query
set_messages_read_lem fault [] user t db m u = (refl, refl)
set_messages_read_lem fault (i ∷ ids) user t db m u =
    ground (arith, awaits-set_read t user (i ∷ ids) m u db)
