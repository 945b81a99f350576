-- ===== src/Messaging/Handler/Effects.antt =====
-- Rules for what a handler of semestral/internal/messaging/service.go does to the database: nothing,
-- nothing if it fails, or nothing to the messages and their acks.
use go_tasks.Prelude.{
  ◌≡◌, refl, ◌∙◌, sym, ap, String, Bool, true, false, Option, none, some, if◌then◌else◌,
}
use go_tasks.Prelude.Outcome.{Failable, value, failure, Err}
use go_tasks.Messaging.Database.{Db}
use go_tasks.Messaging.Handler.{
  Code, Rpc, reply, status, Handler, continue, ◌>>=◌, respond, require, attempt, query, transact,
  claims_subject, or_status,
}

pub record ReadOnly {A : Type 0} (m : Handler A) : Type 0 where
  pub same : (db : Db) → (m db).0 ≡ db

-- A handler that ends with a status code has changed nothing.
pub record Atomic {A : Type 0} (m : Handler A) : Type 0 where
  pub undone : (db : Db) (c : Code) → (m db).1 ≡ status c → (m db).0 ≡ db

-- It always ends with a reply.
pub record Replies {A : Type 0} (m : Handler A) : Type 0 where
  pub answer : (db : Db) → (a : A) × ((m db).1 ≡ reply a)

pub record KeepsMail {A : Type 0} (m : Handler A) : Type 0 where
  pub same_messages : (db : Db) → (m db).0.messages ≡ db.messages
  pub same_acks : (db : Db) → (m db).0.message_acks ≡ db.message_acks

module _ {A : Type 0} where
  pub ReadOnly-respond : (a : A) → ReadOnly (respond a)
  unfolding respond
  ReadOnly-respond a = record { same = λ db. refl }

  pub Replies-respond : (a : A) → Replies (respond a)
  unfolding respond
  Replies-respond a = record { answer = λ db. (a, refl) }

  pub ReadOnly-attempt : (r : Failable A) (c : Code) → ReadOnly (attempt r c)
  unfolding attempt
  ReadOnly-attempt r c = record { same = λ db. refl }

  pub ReadOnly-query : (q : Db → Failable A) (c : Code) → ReadOnly (query q c)
  unfolding query
  ReadOnly-query q c = record { same = λ db. refl }

  pub Atomic-ReadOnly : (m : Handler A) → ReadOnly m → Atomic m
  Atomic-ReadOnly m r = record { undone = λ db c e. r.same db }

  pub KeepsMail-ReadOnly : (m : Handler A) → ReadOnly m → KeepsMail m
  KeepsMail-ReadOnly m r = record {
    same_messages = λ db. ap (λ d. d.messages) (r.same db);
    same_acks = λ db. ap (λ d. d.message_acks) (r.same db);
  }

  pub ReadOnly-if :
      (b : Bool) (m n : Handler A) → ReadOnly m → ReadOnly n → ReadOnly (if b then m else n)
  ReadOnly-if true m n h k = h
  ReadOnly-if false m n h k = k

  pub Atomic-if : (b : Bool) (m n : Handler A) → Atomic m → Atomic n → Atomic (if b then m else n)
  Atomic-if true m n h k = h
  Atomic-if false m n h k = k

  pub KeepsMail-if :
      (b : Bool) (m n : Handler A) → KeepsMail m → KeepsMail n → KeepsMail (if b then m else n)
  KeepsMail-if true m n h k = h
  KeepsMail-if false m n h k = k

pub ReadOnly-require : (b : Bool) (c : Code) → ReadOnly (require b c)
unfolding require
ReadOnly-require true c = record { same = λ db. refl }
ReadOnly-require false c = record { same = λ db. refl }

pub ReadOnly-claims : (o : Option String) (c : Code) → ReadOnly (claims_subject o c)
unfolding claims_subject
ReadOnly-claims none c = record { same = λ db. refl }
ReadOnly-claims (some s) c = record { same = λ db. refl }

module _ {A B : Type 0} where
  ReadOnly-continue :
      (f : A → Handler B) → ((a : A) → ReadOnly (f a)) → (r : Rpc A) → ReadOnly (continue r f)
  ReadOnly-continue f h (reply a) = h a
  ReadOnly-continue f h (status c) = record { same = λ db. refl }

  pub ReadOnly-bind :
      (m : Handler A) (f : A → Handler B)
      → ReadOnly m
      → ((a : A) → ReadOnly (f a))
      → ReadOnly (m >>= f)
  unfolding ◌>>=◌
  ReadOnly-bind m f h k = record {
    same = λ db. (ReadOnly-continue f k (m db).1).same (m db).0 ∙ h.same db;
  }

  Atomic-continue :
      (f : A → Handler B) → ((a : A) → Atomic (f a)) → (r : Rpc A) → Atomic (continue r f)
  Atomic-continue f h (reply a) = h a
  Atomic-continue f h (status c) = record { undone = λ db c e. refl }

  -- Reads first, and then one part that changes the database.
  pub Atomic-bind :
      (m : Handler A) (f : A → Handler B) → ReadOnly m → ((a : A) → Atomic (f a)) → Atomic (m >>= f)
  unfolding ◌>>=◌
  Atomic-bind m f h k = record {
    undone = λ db c e. (Atomic-continue f k (m db).1).undone (m db).0 c e ∙ h.same db;
  }

  Atomic-continue_reply :
      (m : Handler A) (f : A → Handler B)
      → Atomic m
      → ((a : A) → Replies (f a))
      → (db db' : Db) (r : Rpc A) (c : Code) → m db ≡ (db', r)
      → (continue r f db').1 ≡ status c
      → (continue r f db').0 ≡ db
  Atomic-continue_reply m f h k db db' (reply a) c e n =
      let (x, p) = (k a).answer db' in absurd (cc (p, n))
  Atomic-continue_reply m f h k db db' (status x) c e n =
      sym (ap (λ p. p.0) e) ∙ h.undone db x (ap (λ p. p.1) e)

  -- After the change nothing fails any more.
  pub Atomic-bind-Replies :
      (m : Handler A) (f : A → Handler B) → Atomic m → ((a : A) → Replies (f a)) → Atomic (m >>= f)
  unfolding ◌>>=◌
  Atomic-bind-Replies m f h k = record {
    undone = λ db c e. Atomic-continue_reply m f h k db (m db).0 (m db).1 c refl e;
  }

  KeepsMail-continue :
      (f : A → Handler B) → ((a : A) → KeepsMail (f a)) → (r : Rpc A) → KeepsMail (continue r f)
  KeepsMail-continue f h (reply a) = h a
  KeepsMail-continue f h (status c) = record { same_messages = λ db. refl; same_acks = λ db. refl }

  pub KeepsMail-bind :
      (m : Handler A) (f : A → Handler B)
      → KeepsMail m
      → ((a : A) → KeepsMail (f a))
      → KeepsMail (m >>= f)
  unfolding ◌>>=◌
  KeepsMail-bind m f h k = record {
    same_messages =
        λ db. (KeepsMail-continue f k (m db).1).same_messages (m db).0 ∙ h.same_messages db;
    same_acks = λ db. (KeepsMail-continue f k (m db).1).same_acks (m db).0 ∙ h.same_acks db;
  }

pub Atomic-transact :
    (t : Db → Db × Failable (Unit {0})) (c : Code)
    → ((db : Db) (e : Err) → (t db).1 ≡ failure e → (t db).0 ≡ db)
    → Atomic (transact t c)
unfolding transact
Atomic-transact t c h = record { undone = λ db x e. undo db (t db).0 (t db).1 x refl e }
  where
    undo :
        (db db' : Db) (r : Failable (Unit {0})) (x : Code)
        → t db ≡ (db', r)
        → or_status r c ≡ status x
        → (t db).0 ≡ db
    undo db db' (value a) x p q = absurd (cc q)
    undo db db' (failure e) x p q = h db e (ap (λ y. y.1) p)

pub KeepsMail-transact :
    (t : Db → Db × Failable (Unit {0})) (c : Code)
    → ((db : Db) → ((t db).0.messages ≡ db.messages) × ((t db).0.message_acks ≡ db.message_acks))
    → KeepsMail (transact t c)
unfolding transact
KeepsMail-transact t c h = record { same_messages = λ db. (h db).0; same_acks = λ db. (h db).1 }

pub ruleset reading = (
  ReadOnly-respond, ReadOnly-attempt, ReadOnly-query, ReadOnly-require, ReadOnly-claims,
  ReadOnly-if, ReadOnly-bind,
)
