-- ===== src/Messaging/Database/Laws.antt =====
-- What the statements of semestral/internal/messaging/sqlite_repository.go do to the messages that
-- are stored and to the users that still wait for one.
use go_tasks.Prelude.{
  ℕ, ◌≡◌, refl, ◌∙◌, sym, ap, String, Bool, false, ◌&&◌, ◌||◌, not, some, List, [], ◌∷◌, arith,
  str_eq, eq_iff, inl, inr,
}
use go_tasks.Prelude.Outcome.{value, bind_failable, Failable-cases}
use go_tasks.Prelude.Tables.{select, any, update, any-append, count-any}
use go_tasks.Messaging.Database.{
  Db, Message, MessageAck, has_message, awaits, is_ack_of, is_pending, insert_message_query,
  insert_message_ack_query, insert_message_acks_query, count_pending_acks_query,
  set_message_delivered_query, delete_message_query, set_messages_read_query,
}

abbrev pub waits_in : String → String → List MessageAck → Bool
waits_in m u rows = any (λ a. is_ack_of m u a && is_pending a) rows

delivered_rows :
    (t : ℕ) (m u m' u' : String) (rows : List MessageAck)
    → waits_in m' u' (
        update
          (λ a. is_ack_of m u a && is_pending a)
          (λ a. record a { delivered_at = some t })
          rows)
      ≡ (waits_in m' u' rows && not (str_eq m m' && str_eq u u'))
unfolding any update
delivered_rows t m u m' u' [] = refl
delivered_rows t m u m' u' (a ∷ rows) = ground (
  arith,
  delivered_rows t m u m' u' rows,
  eq_iff a.message_id m,
  eq_iff a.message_id m',
  eq_iff m m',
  eq_iff a.user_id u,
  eq_iff a.user_id u',
  eq_iff u u',
)

-- After a delivery the user no longer waits for the message; all else waits as before.
pub awaits-set_delivered :
    (t : ℕ) (m u m' u' : String) (db : Db)
    → awaits m' u' (set_message_delivered_query t m u db)
      ≡ (awaits m' u' db && not (str_eq m m' && str_eq u u'))
unfolding awaits set_message_delivered_query
awaits-set_delivered t m u m' u' db = delivered_rows t m u m' u' db.message_acks

read_rows :
    (t : ℕ) (p : MessageAck → Bool) (m u : String) (rows : List MessageAck)
    → waits_in m u (update p (λ a. record a { read_at = some t }) rows) ≡ waits_in m u rows
unfolding any update
read_rows t p m u [] = refl
read_rows t p m u (a ∷ rows) = ground (arith, read_rows t p m u rows)

-- To read a message changes nothing of its delivery.
pub awaits-set_read :
    (t : ℕ) (user : String) (ids : List String) (m u : String) (db : Db)
    → awaits m u (set_messages_read_query t user ids db) ≡ awaits m u db
unfolding awaits set_messages_read_query
awaits-set_read t user ids m u db = read_rows t _ m u db.message_acks

deleted_rows :
    (m m' : String) (rows : List Message)
    → any (λ x. str_eq x.id m') (select (λ x. not (str_eq x.id m)) rows)
      ≡ (any (λ x. str_eq x.id m') rows && not (str_eq m m'))
unfolding any select
deleted_rows m m' [] = refl
deleted_rows m m' (x ∷ rows) =
    ground (arith, deleted_rows m m' rows, eq_iff x.id m, eq_iff x.id m', eq_iff m m')

pub has_message-delete :
    (m m' : String) (db : Db)
    → has_message m' (delete_message_query m db) ≡ (has_message m' db && not (str_eq m m'))
unfolding has_message delete_message_query
has_message-delete m m' db = deleted_rows m m' db.messages

pending_rows :
    (m u : String) (rows : List MessageAck)
    → any (λ a. str_eq a.message_id m && is_pending a) rows ≡ false
    → waits_in m u rows ≡ false
unfolding any
pending_rows m u [] h = refl
pending_rows m u (a ∷ rows) h = ground (arith, pending_rows m u rows)

-- A count of 0 says that no user waits for the message.
pub count_pending-awaits :
    (m u : String) (db : Db) → count_pending_acks_query m db ≡ 0 → awaits m u db ≡ false
unfolding count_pending_acks_query awaits
count_pending-awaits m u db h = pending_rows m u db.message_acks (count-any _ db.message_acks h)

pub has_message-insert :
    (x : Message) (db db' : Db)
    → insert_message_query x db ≡ value db'
    → (m : String)
    → (has_message m db' ≡ (has_message m db || str_eq x.id m))
      × (db'.message_acks ≡ db.message_acks)
unfolding insert_message_query has_message any
has_message-insert x db db' h m =
    ground (arith, any-append (λ (y : Message). str_eq y.id m) db.messages (x ∷ []))

insert_ack-rows :
    (a : MessageAck) (db db' : Db)
    → insert_message_ack_query a db ≡ value db'
    → (m u : String)
    → (awaits m u db' ≡ (awaits m u db || (is_ack_of m u a && is_pending a)))
      × (db'.messages ≡ db.messages)
unfolding insert_message_ack_query awaits any
insert_ack-rows a db db' h m u = ground (
  arith,
  any-append (λ (y : MessageAck). is_ack_of m u y && is_pending y) db.message_acks (a ∷ []),
)

-- The rows of acks that a statement adds wait, where they are pending; nothing else changes.
pub awaits-insert_acks :
    (acks : List MessageAck) (db db' : Db)
    → insert_message_acks_query acks db ≡ value db'
    → (m u : String)
    → (awaits m u db' ≡ (awaits m u db || waits_in m u acks)) × (db'.messages ≡ db.messages)
unfolding insert_message_acks_query any
awaits-insert_acks [] db db' h m u = ground arith
awaits-insert_acks (a ∷ acks) db db' h m u = elim (Failable-cases (insert_message_ack_query a db)) [
  | inl (e, p) ↦
      absurd (cc (h, ap (λ r. bind_failable r (λ x. insert_message_acks_query acks x)) p))
  | inr (db1, p) ↦
      let first = insert_ack-rows a db db1 p m u in
      let rest =
        awaits-insert_acks acks db1 db'
          (sym (ap (λ r. bind_failable r (λ x. insert_message_acks_query acks x)) p) ∙ h) m u in
      ground arith
]
