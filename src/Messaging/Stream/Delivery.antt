-- ===== src/Messaging/Stream/Delivery.antt =====
-- Which messages the stream of semestral/internal/messaging/service.go sends first.
use go_tasks.Prelude.{
  ℕ, zero, suc, ◌≤◌, ◌≡◌, refl, ◌∙◌, ap, String, Bool, true, false, ◌&&◌, ◌||◌, none, some, List,
  [], ◌∷◌, ◌++◌, arith, str_eq, eq_iff, length,
}
use go_tasks.Prelude.Tables.{any, select, take, insert_by, order_by, any-append}
use go_tasks.Messaging.Database.{
  Db, empty_db, Message, awaits, has_message, get_undelivered_messages_query, undelivered_limit,
}
use go_tasks.Messaging.Repository
use go_tasks.Messaging.Repository.{Fault, call}
use go_tasks.Messaging.Requests.Storage.{Exact}
use go_tasks.Messaging.Service.{Env}
use go_tasks.Messaging.Requests.{Request}
use go_tasks.Messaging.Requests.Exactness.{serve_all, run-Exact, empty-Exact}
use go_tasks.Messaging.Stream.{
  Effect, sends, begins, ends, sets_status, Wake, Budget, send_all, send_undelivered_messages,
  subscribe, after_flush, deferred,
}

module _ {A : Type 0} (key : A → ℕ) (p : A → Bool) where
  any-insert_by : (x : A) (xs : List A) → any p (insert_by key x xs) ≡ (p x || any p xs)
  unfolding any insert_by
  any-insert_by x [] = refl
  any-insert_by x (y ∷ ys) = ground (arith, any-insert_by x ys)

  any-order_by : (xs : List A) → any p (order_by key xs) ≡ any p xs
  unfolding any order_by
  any-order_by [] = refl
  any-order_by (x ∷ xs) = ground (arith, any-order_by xs, any-insert_by x (order_by key xs))

module _ {A : Type 0} (key : A → ℕ) where
  length-insert_by : (x : A) (xs : List A) → length (insert_by key x xs) ≡ suc (length xs)
  unfolding insert_by
  length-insert_by x [] = refl
  length-insert_by x (y ∷ ys) = ground (arith, length-insert_by x ys)

  length-order_by : (xs : List A) → length (order_by key xs) ≡ length xs
  unfolding order_by
  length-order_by [] = refl
  length-order_by (x ∷ xs) =
      ground (arith, length-order_by xs, length-insert_by x (order_by key xs))

take_all : {A : Type 0} (n : ℕ) (xs : List A) → length xs ≤ n → take n xs ≡ xs
take_all zero [] h = refl
take_all zero (x ∷ xs) h = absurd (ground arith)
take_all (suc n) [] h = refl
take_all (suc n) (x ∷ xs) h = ap (λ l. x ∷ l) (take_all n xs (ground arith))

any-select :
    {A : Type 0} (p q : A → Bool) (xs : List A) → any p (select q xs) ≡ any (λ x. q x && p x) xs
unfolding any select
any-select p q [] = refl
any-select p q (x ∷ xs) = ground (arith, any-select p q xs)

-- The stored messages that wait for a user.
abbrev pub waiting_messages : String → Db → List Message
waiting_messages user_id db = select (λ m. awaits m.id user_id db) db.messages

any_stored :
    (m : String) (user : String) (db : Db) (ms : List Message)
    → any (λ x. awaits x.id user db && str_eq x.id m) ms
      ≡ (awaits m user db && any (λ x. str_eq x.id m) ms)
unfolding any
any_stored m user db [] = ground arith
any_stored m user db (x ∷ ms) = ground (arith, any_stored m user db ms, (eq_iff x.id m).0)

-- While at most 100 messages wait for a user, the query for undelivered messages gives exactly those
-- that wait.
undelivered-awaits :
    (m user : String) (db : Db)
    → Exact db
    → length (waiting_messages user db) ≤ undelivered_limit
    → any (λ x. str_eq x.id m) (get_undelivered_messages_query user db) ≡ awaits m user db
unfolding get_undelivered_messages_query has_message
undelivered-awaits m user db x h =
    let ms = waiting_messages user db in
    ap (any (λ x. str_eq x.id m)) (
      take_all undelivered_limit (order_by (λ m. m.sent_at) ms)
        (ground (arith, length-order_by (λ m. m.sent_at) ms)))
    ∙ any-order_by (λ m. m.sent_at) (λ x. str_eq x.id m) ms
    ∙ any-select (λ x. str_eq x.id m) (λ m. awaits m.id user db) db.messages
    ∙ any_stored m user db db.messages
    ∙ ground (arith, x.complete m user)

abbrev pub is_send : String → Effect → Bool
is_send m (sends x) = str_eq x.id m
is_send m begins = false
is_send m ends = false
is_send m (sets_status online) = false

-- Without a failing send every message is sent.
any-send_all :
    (m : String) (ms : List Message)
    → any (is_send m) (send_all ms none).0 ≡ any (λ x. str_eq x.id m) ms
unfolding any send_all
any-send_all m [] = refl
any-send_all m (x ∷ ms) = ground (arith, any-send_all m ms)

any-front : {A : Type 0} (p : A → Bool) (xs ys : List A) → any p xs ≡ true → any p (xs ++ ys) ≡ true
any-front p xs ys h = ground (arith, any-append p xs ys)

-- What a stream does after its first phase.
abbrev rest_of : Fault → Budget → String → List Wake → Db → List Effect
rest_of fault budget user wakes db =
    let (served, ending) = after_flush wakes (send_undelivered_messages fault budget user db).1 in
    served ++ deferred ending

-- The effects of a stream contain those of its first phase.
any-subscribe :
    (m user : String) (is_invisible : Bool) (fault : Fault) (budget : Budget) (wakes : List Wake)
    (db : Db)
    → any (is_send m) (send_undelivered_messages fault budget user db).0 ≡ true
    → any (is_send m) (subscribe (some user) is_invisible fault budget wakes db).0 ≡ true
unfolding subscribe any
any-subscribe m user true fault budget wakes db h = ground (
  arith,
  any-front (is_send m) (send_undelivered_messages fault budget user db).0
      (rest_of fault budget user wakes db) h,
)
any-subscribe m user false fault budget wakes db h = ground (
  arith,
  any-front (is_send m) (send_undelivered_messages fault budget user db).0
      (rest_of fault budget user wakes db) h,
)

-- After any run of requests, a user who subscribes is sent every message that waits for the user, if
-- these are at most 100, the query works and no send fails; this holds for every later fate of the
-- stream and for an invisible session too.
pub subscribe-awaits :
    (rs : List (Env × Request)) (m user : String) (is_invisible : Bool) (wakes : List Wake)
    → length (waiting_messages user (serve_all rs empty_db)) ≤ 100
    → awaits m user (serve_all rs empty_db) ≡ true
    → any (is_send m) (subscribe (some user) is_invisible none none wakes (serve_all rs empty_db)).0
      ≡ true
unfolding send_undelivered_messages Repository.get_undelivered_messages call
subscribe-awaits rs m user is_invisible wakes h a =
    any-subscribe m user is_invisible none none wakes (serve_all rs empty_db) (
      ground (
        arith,
        any-send_all m (get_undelivered_messages_query user (serve_all rs empty_db)),
        undelivered-awaits m user (serve_all rs empty_db) (run-Exact rs empty_db empty-Exact) h,
      ))
