-- ===== src/Messaging/Requests/Storage.antt =====
-- A message is stored as long as someone waits for it, across the requests of
-- semestral/internal/messaging/service.go.
use go_tasks.Prelude.{
  ◌≡◌, String, true, false, ◌&&◌, not, none, some, List, [], ◌∷◌, arith, str_eq, eq_iff, eq_refl,
  ◌==◌, Bool-cases, inl, inr,
}
use go_tasks.Prelude.Tables.{any, any-count}
use go_tasks.Messaging.Database.{
  Db, Message, MessageAck, has_message, awaits, is_pending, count_pending_acks_query,
  set_message_delivered_query,
}
use go_tasks.Messaging.Database.Laws.{waits_in, count_pending-awaits, awaits-set_delivered}
use go_tasks.Messaging.Repository.Laws.{acknowledge-has_message}
use go_tasks.Messaging.Service.{Env, acks_for}
use go_tasks.Messaging.Service.Delivery.{ack_message-answered, is_cons}
use go_tasks.Messaging.Requests.{acks, serve}
use go_tasks.Messaging.Requests.Delivery.{expected, awaits-acks}

-- A message is stored exactly while some user waits for it.
pub record Exact (db : Db) : Type 0 where
  pub complete : (m u : String) → awaits m u db ≡ true → has_message m db ≡ true
  pub tidy : (m : String) → has_message m db ≡ true → (u : String) × (awaits m u db ≡ true)

waiting_user :
    (m : String) (rows : List MessageAck)
    → any (λ a. str_eq a.message_id m && is_pending a) rows ≡ true
    → (u : String) × (waits_in m u rows ≡ true)
unfolding any
waiting_user m [] h = absurd (cc h)
waiting_user m (a ∷ rows) h = elim (Bool-cases (str_eq a.message_id m && is_pending a)) [
  | inl b ↦ (a.user_id, ground (arith, eq_refl a.user_id))
  | inr b ↦ let (u, e) = waiting_user m rows (ground arith) in (u, ground arith)
]

count-waiting :
    (m : String) (db : Db)
    → (count_pending_acks_query m db == 0) ≡ false
    → (u : String) × (awaits m u db ≡ true)
unfolding count_pending_acks_query awaits
count-waiting m db h =
    elim (Bool-cases (any (λ a. str_eq a.message_id m && is_pending a) db.message_acks)) [
      | inl b ↦ waiting_user m db.message_acks b
      | inr b ↦ absurd (ground (arith, any-count _ db.message_acks b))
    ]

pub first_waits :
    (x : Message) (user : String) (ms : List String)
    → is_cons (acks_for x user ms) ≡ true
    → (u : String) × (waits_in x.id u (acks_for x user ms) ≡ true)
unfolding acks_for any
first_waits x user [] h = absurd (cc h)
first_waits x user (y ∷ ys) h = elim (Bool-cases (str_eq y user)) [
  | inl b ↦ let (u, e) = first_waits x user ys (ground arith) in (u, ground arith)
  | inr b ↦ (y, ground (arith, eq_refl y, eq_refl x.id))
]

module _ (env : Env) (id user : String) (db : Db) (c : env.claims ≡ some user) where
  abbrev marked : Db
  marked = set_message_delivered_query env.now id user db

  module _ (h : (serve env (acks id) db).1 ≡ none) (x : Exact db) where
    awaits-acks_rows :
        (m u : String)
        → awaits m u (serve env (acks id) db).0
          ≡ (awaits m u db && not (str_eq id m && str_eq user u))
    unfolding expected
    awaits-acks_rows m u = ground (arith, awaits-acks env id db h m u)

    acks_stored :
        (m : String)
        → has_message m (serve env (acks id) db).0
          ≡ (has_message m db && not (str_eq id m && count_pending_acks_query id marked == 0))
    unfolding serve
    acks_stored m =
        acknowledge-has_message (env.repo 0) id user env.now db _
          (ack_message-answered env id user db c h) m

    pub acks_complete :
        (m u : String)
        → awaits m u (serve env (acks id) db).0 ≡ true
        → has_message m (serve env (acks id) db).0 ≡ true
    acks_complete m u w = elim (Bool-cases (count_pending_acks_query id marked == 0)) [
      | inl z ↦ ground (
        arith,
        awaits-acks_rows m u,
        acks_stored m,
        x.complete m u,
        count_pending-awaits id u marked,
        awaits-set_delivered env.now id user id u db,
        eq_iff id m,
        eq_refl id,
      )
      | inr z ↦ ground (arith, awaits-acks_rows m u, acks_stored m, x.complete m u)
    ]

    pub acks_tidy :
        (m : String)
        → has_message m (serve env (acks id) db).0 ≡ true
        → (u : String) × (awaits m u (serve env (acks id) db).0 ≡ true)
    acks_tidy m w = elim (Bool-cases (str_eq id m)) [
      | inl e ↦
          let (u, a) = count-waiting id marked (ground (arith, acks_stored m)) in
          (
            u,
            ground (
              arith,
              awaits-acks_rows m u,
              awaits-set_delivered env.now id user id u db,
              (eq_iff id m).0 e,
              eq_refl id,
            ),
          )
      | inr e ↦
          let (u, a) = x.tidy m (ground (arith, acks_stored m)) in
          (u, ground (arith, awaits-acks_rows m u))
    ]
