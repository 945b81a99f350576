-- ===== src/Messaging/Requests/Exactness.antt =====
-- That a message is stored exactly while someone waits for it is kept by every request of
-- semestral/internal/messaging/service.go, and so by every run of requests.
use go_tasks.Prelude.{
  ℕ, ◌≡◌, refl, sym, subst, String, true, ◌&&◌, not, none, ◌↔◌, ◌||◌, some, List, [], ◌∷◌, arith,
  str_eq, eq_iff, Bool-cases, Option-cases, inl, inr,
}
use go_tasks.Prelude.Tables.{any}
use go_tasks.Messaging.Database.{
  Db, Message, MessageAck, has_message, has_member, awaits, empty_db, get_chat_members_query,
}
use go_tasks.Messaging.Database.Laws.{waits_in}
use go_tasks.Messaging.Handler.{◌>>=◌}
use go_tasks.Messaging.Service.{Env, acks_for, ack_message, send_message}
use go_tasks.Messaging.Service.Delivery.{
  send_message-rows, is_cons, message_of, waits_in-acks_for, contains-has_member,
}
use go_tasks.Messaging.Requests.{Request, acks, sends, serve}
use go_tasks.Messaging.Requests.Refusals.{serve_refused}
use go_tasks.Messaging.Requests.Delivery.{others-Kept, Kept}
use go_tasks.Messaging.Requests.Storage.{Exact, first_waits, acks_complete, acks_tidy}

waits-is_cons :
    (m u : String) (rows : List MessageAck) → waits_in m u rows ≡ true → is_cons rows ≡ true
unfolding any
waits-is_cons m u [] h = absurd (cc h)
waits-is_cons m u (a ∷ rows) h = refl

module _ (env : Env) (chat : String) (content : List ℕ) (user : String) (db : Db) where
  abbrev sent : Message
  sent = message_of env chat content user

  abbrev rows : List MessageAck
  rows = acks_for sent user (get_chat_members_query chat db)

  abbrev after : Db
  after = (serve env (sends chat content) db).0

  module _ (c : env.claims ≡ some user) (h : (serve env (sends chat content) db).1 ≡ none) where
    awaits-sends :
        (m u : String)
        → awaits m u after
          ≡ (awaits m u db || (str_eq env.uuid m && has_member chat u db && not (str_eq u user)))
    unfolding serve
    awaits-sends m u = (send_message-rows env chat content user db c h m u).0

    sends-stored :
        (m : String)
        → has_message m after ≡ (has_message m db || (is_cons rows && str_eq env.uuid m))
    unfolding serve
    sends-stored m = (send_message-rows env chat content user db c h m "").1

    waits-sent :
        (m u : String)
        → waits_in m u rows ≡ (str_eq env.uuid m && has_member chat u db && not (str_eq u user))
    waits-sent m u = ground (
      arith,
      waits_in-acks_for sent user (get_chat_members_query chat db) m u,
      contains-has_member chat u db,
    )

    sends-Exact : Exact db → Exact after
    sends-Exact x = record {
      complete = λ m u w. ground (
        arith,
        awaits-sends m u,
        sends-stored m,
        x.complete m u,
        waits-sent m u,
        waits-is_cons m u rows,
      );
      tidy = λ m w. elim (Bool-cases (has_message m db)) [
        | inl b ↦ let (u, a) = x.tidy m b in (u, ground (arith, awaits-sends m u))
        | inr b ↦
            let (u, a) =
              first_waits sent user (get_chat_members_query chat db)
                (ground (arith, sends-stored m)) in
            (
              u,
              ground
                  (arith, awaits-sends m u, sends-stored m, waits-sent m u, (eq_iff env.uuid m).0),
            )
      ];
    }

Kept-Exact : (db db' : Db) → Kept db db' → Exact db → Exact db'
Kept-Exact db db' k x = record {
  complete = λ m u w. ground (arith, (k m u).0, (k m u).1, x.complete m u);
  tidy =
      λ m w. let (u, a) = x.tidy m (ground (arith, (k m "").1)) in (u, ground (arith, (k m u).0));
}

answered-Exact :
    (env : Env) (r : Request) (db : Db)
    → (serve env r db).1 ≡ none
    → Exact db
    → Exact (serve env r db).0
answered-Exact env (acks id) db h x = elim (Option-cases env.claims) [
  | inl c ↦ absurd (unfold serve ack_message ◌>>=◌ in ground arith)
  | inr (user, c) ↦ record {
    complete = acks_complete env id user db c h x;
    tidy = acks_tidy env id user db c h x;
  }
]
answered-Exact env (sends chat content) db h x = elim (Option-cases env.claims) [
  | inl c ↦ absurd (unfold serve send_message ◌>>=◌ in ground arith)
  | inr (user, c) ↦ sends-Exact env chat content user db c h x
]
answered-Exact env r db h x =
    Kept-Exact db _ (others-Kept env r db (λ id e. cc) (λ chat content e. cc)) x

-- Every request, answered or refused, keeps it that a message is stored exactly while some user
-- waits for it, whatever the database driver and the profile service answer.
pub serve-Exact : (env : Env) (r : Request) (db : Db) → Exact db → Exact (serve env r db).0
serve-Exact env r db x = elim (Option-cases (serve env r db).1) [
  | inl h ↦ answered-Exact env r db h x
  | inr (c, h) ↦ subst Exact (sym (serve_refused env r db c h)) x
]

-- The database after a list of requests, each with its own surroundings.
unfoldable pub serve_all : List (Env × Request) → Db → Db
serve_all [] db = db
serve_all ((env, r) ∷ rest) db = serve_all rest (serve env r db).0

pub empty-Exact : Exact empty_db
unfolding awaits has_message any empty_db
empty-Exact = record {
  complete = λ m u w. absurd (ground arith);
  tidy = λ m w. absurd (ground arith);
}

pub run-Exact : (rs : List (Env × Request)) (db : Db) → Exact db → Exact (serve_all rs db)
unfolding serve_all
run-Exact [] db x = x
run-Exact ((env, r) ∷ rest) db x = run-Exact rest _ (serve-Exact env r db x)

-- After any run of requests from the empty database, answered or refused, a message is stored
-- exactly if some user still waits for it.
pub stored_iff_awaited :
    (rs : List (Env × Request)) (m : String)
    → (has_message m (serve_all rs empty_db) ≡ true)
      ↔ ((u : String) × (awaits m u (serve_all rs empty_db) ≡ true))
stored_iff_awaited rs m =
    let x = run-Exact rs empty_db empty-Exact in (x.tidy m, λ (u, w). x.complete m u w)
