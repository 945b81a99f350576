-- ===== src/Messaging/Requests/Delivery.antt =====
-- Who waits for which message, and which messages are stored, across the requests of
-- semestral/internal/messaging/service.go.
use go_tasks.Prelude.{
  ℕ, ◌≡◌, refl, String, Bool, ◌&&◌, ◌||◌, not, none, some, List, arith, str_eq, Option-cases, inl,
  inr,
}
use go_tasks.Messaging.Database.{Db, has_message, has_member, awaits}
use go_tasks.Messaging.Repository.Laws.{acknowledge-awaits, set_messages_read_lem}
use go_tasks.Messaging.Handler.{Handler, ◌>>=◌}
use go_tasks.Messaging.Handler.Effects.{KeepsMail, KeepsMail-ReadOnly}
use go_tasks.Messaging.Service.{Env, ack_message, set_messages_read, send_message}
use go_tasks.Messaging.Requests.{
  Request, acks, reads, lists_acks, lists_chats, lists_members, opens_direct, opens_group, adds,
  looks_up, leaves, sends, serve,
}
use go_tasks.Messaging.Service.Atomicity.{
  get_message_acks-ReadOnly, get_user_chats-ReadOnly, get_chat_members-ReadOnly,
  get_chat_by_id-ReadOnly,
}
use go_tasks.Messaging.Service.Mail.{
  create_direct_chat-KeepsMail, create_group_chat-KeepsMail, add_chat_member-KeepsMail,
  leave_chat-KeepsMail,
}
use go_tasks.Messaging.Service.Delivery.{ack_message-answered, send_message-rows}

-- Who waits for what after a request that is answered.
unfoldable pub expected : Env → Request → Db → String → String → Bool
expected env (acks id) db m u = elim env.claims [
  | none ↦ awaits m u db
  | some user ↦ awaits m u db && not (str_eq id m && str_eq user u)
]
expected env (sends chat content) db m u = elim env.claims [
  | none ↦ awaits m u db
  | some user ↦ awaits m u db || (str_eq env.uuid m && has_member chat u db && not (str_eq u user))
]
expected env _ db m u = awaits m u db

-- A request keeps the rows of the messages and their acks.
abbrev pub Kept : Db → Db → Type 0
Kept db db' =
    (m u : String) → (awaits m u db' ≡ awaits m u db) × (has_message m db' ≡ has_message m db)

mail-Kept : {A : Type 0} (k : Handler A) → KeepsMail k → (db : Db) → Kept db (k db).0
unfolding awaits has_message
mail-Kept k v db m u = ground (arith, v.same_messages db, v.same_acks db)

reads-Kept : (env : Env) (ids : List String) (db : Db) → Kept db (set_messages_read env ids db).0
unfolding set_messages_read has_message ◌>>=◌
reads-Kept env ids db m u = elim (Option-cases env.claims) [
  | inl c ↦ ground arith
  | inr (user, c) ↦ ground (arith, set_messages_read_lem (env.repo 0) ids user env.now db m u)
]

pub others-Kept :
    (env : Env) (r : Request) (db : Db)
    → ((id : String) → r ≡ acks id → ⊥)
    → ((chat : String) (content : List ℕ) → r ≡ sends chat content → ⊥)
    → Kept db (serve env r db).0
unfolding serve
others-Kept env (acks id) db h k = absurd (h id refl)
others-Kept env (sends chat content) db h k = absurd (k chat content refl)
others-Kept env (reads ids) db h k = reads-Kept env ids db
others-Kept env (lists_acks id) db h k =
    mail-Kept _ (KeepsMail-ReadOnly _ (get_message_acks-ReadOnly env id)) db
others-Kept env lists_chats db h k =
    mail-Kept _ (KeepsMail-ReadOnly _ (get_user_chats-ReadOnly env)) db
others-Kept env (lists_members id) db h k =
    mail-Kept _ (KeepsMail-ReadOnly _ (get_chat_members-ReadOnly env id)) db
others-Kept env (opens_direct id) db h k = mail-Kept _ (create_direct_chat-KeepsMail env id) db
others-Kept env (opens_group name ids) db h k =
    mail-Kept _ (create_group_chat-KeepsMail env name ids) db
others-Kept env (adds chat user) db h k = mail-Kept _ (add_chat_member-KeepsMail env chat user) db
others-Kept env (looks_up id) db h k =
    mail-Kept _ (KeepsMail-ReadOnly _ (get_chat_by_id-ReadOnly env id)) db
others-Kept env (leaves chat) db h k = mail-Kept _ (leave_chat-KeepsMail env chat) db

pub awaits-acks :
    (env : Env) (id : String) (db : Db)
    → (serve env (acks id) db).1 ≡ none
    → (m u : String) → awaits m u (serve env (acks id) db).0 ≡ expected env (acks id) db m u
unfolding serve expected
awaits-acks env id db h m u = elim (Option-cases env.claims) [
  | inl c ↦ absurd (unfold ack_message ◌>>=◌ in ground arith)
  | inr (user, c) ↦ ground (
    arith,
    acknowledge-awaits (env.repo 0) id user env.now db _ (ack_message-answered env id user db c h) m
        u,
  )
]

awaits-sends :
    (env : Env) (chat : String) (content : List ℕ) (db : Db)
    → (serve env (sends chat content) db).1 ≡ none
    → (m u : String)
    → awaits m u (serve env (sends chat content) db).0 ≡ expected env (sends chat content) db m u
unfolding serve expected
awaits-sends env chat content db h m u = elim (Option-cases env.claims) [
  | inl c ↦ absurd (unfold send_message ◌>>=◌ in ground arith)
  | inr (user, c) ↦ ground (arith, send_message-rows env chat content user db c h m u)
]

-- An answered request changes who waits for which message exactly as stated by `expected`: an
-- acknowledgement takes the caller off the message, a new message waits for every member of its
-- chat but the sender, and every other request changes nothing of it.
pub awaits-serve :
    (env : Env) (r : Request) (db : Db)
    → (serve env r db).1 ≡ none
    → (m u : String) → awaits m u (serve env r db).0 ≡ expected env r db m u
unfolding expected
awaits-serve env (acks id) db h m u = awaits-acks env id db h m u
awaits-serve env (sends chat content) db h m u = awaits-sends env chat content db h m u
awaits-serve env r db h m u = (others-Kept env r db (λ id e. cc) (λ chat content e. cc) m u).0
