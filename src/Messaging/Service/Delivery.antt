-- ===== src/Messaging/Service/Delivery.antt =====
-- Who waits for a message after `SendMessage` and `AckMessage` of
-- semestral/internal/messaging/service.go.
use go_tasks.Prelude.{
  ℕ, ◌≡◌, refl, ◌∙◌, ap, subst, String, Bool, true, false, ◌&&◌, ◌||◌, not, none, some, List, [],
  ◌∷◌, map, arith, str_eq, eq_iff, Bool-cases, inl, inr,
}
use go_tasks.Prelude.Outcome.{value, Failable-cases}
use go_tasks.Prelude.Tables.{any, select}
use go_tasks.Messaging.Database.{
  Db, Message, MessageAck, ChatMember, has_message, has_member, awaits, get_chat_members_query,
}
use go_tasks.Messaging.Database.Laws.{waits_in}
use go_tasks.Messaging.Repository
use go_tasks.Messaging.Repository.{get_chat_members, call, Fault}
use go_tasks.Messaging.Repository.Laws.{insert_with_acks_lem}
use go_tasks.Messaging.Handler.{code_of, ◌>>=◌}
use go_tasks.Messaging.Service.{Env, acks_for, ack_message, send_message, contains, store_message}

-- The acks of a new message wait for the members but the sender.
pub waits_in-acks_for :
    (x : Message) (user : String) (members : List String) (m u : String)
    → waits_in m u (acks_for x user members)
      ≡ (str_eq x.id m && contains members u && not (str_eq u user))
unfolding acks_for any
waits_in-acks_for x user [] m u = ground arith
waits_in-acks_for x user (y ∷ ys) m u =
    ground (arith, waits_in-acks_for x user ys m u, eq_iff y user, eq_iff y u, eq_iff u user)

contains-members :
    (chat u : String) (rows : List ChatMember)
    → contains (map (λ m. m.user_id) (select (λ m. str_eq m.chat_id chat) rows)) u
      ≡ any (λ m. str_eq m.chat_id chat && str_eq m.user_id u) rows
unfolding any select
contains-members chat u [] = refl
contains-members chat u (r ∷ rows) = ground (arith, contains-members chat u rows)

pub contains-has_member :
    (chat u : String) (db : Db) → contains (get_chat_members_query chat db) u ≡ has_member chat u db
unfolding get_chat_members_query has_member
contains-has_member chat u db = contains-members chat u db.chat_members

pub ack_message-answered :
    (env : Env) (id user : String) (db : Db)
    → env.claims ≡ some user
    → code_of (ack_message env id db).1 ≡ none
    → Repository.acknowledge_and_cleanup_message (env.repo 0) id user env.now db
      ≡ ((ack_message env id db).0, value tt)
unfolding ack_message ◌>>=◌
ack_message-answered env id user db c h = ground arith

abbrev pub is_cons : List MessageAck → Bool
is_cons [] = false
is_cons (a ∷ rows) = true

store_message-answered :
    (env : Env) (x : Message) (rows : List MessageAck) (db : Db)
    → code_of (store_message env x rows db).1 ≡ none
    → (m u : String)
    → (awaits m u (store_message env x rows db).0 ≡ (awaits m u db || waits_in m u rows))
      × (has_message m (store_message env x rows db).0
          ≡ (has_message m db || (is_cons rows && str_eq x.id m)))
unfolding ◌>>=◌ any
store_message-answered env x [] db h m u = ground arith
store_message-answered env x (a ∷ rows) db h m u =
    let stored : Repository.insert_message_with_acks (env.repo 1) x (a ∷ rows) db
        ≡ ((store_message env x (a ∷ rows) db).0, value tt) =
      ground arith in
    insert_with_acks_lem (env.repo 1) x (a ∷ rows) db _ stored m u

-- The message that `SendMessage` makes.
abbrev pub message_of : Env → String → List ℕ → String → Message
message_of env chat content user = record {
  id = env.uuid;
  chat_id = chat;
  sender_id = user;
  content = content;
  sent_at = env.now;
}

get_chat_members-value :
    (f : Fault) (chat : String) (db : Db) (ms : List String)
    → get_chat_members f chat db ≡ value ms
    → ms ≡ get_chat_members_query chat db
unfolding get_chat_members
get_chat_members-value f chat db ms h = ground arith

-- An answered `SendMessage` has found the sender among the members, and has stored the message with
-- its acks.
pub send_message-answered :
    (env : Env) (chat : String) (content : List ℕ) (user : String) (db : Db)
    → env.claims ≡ some user
    → code_of (send_message env chat content db).1 ≡ none
    → (has_member chat user db ≡ true)
      × (send_message env chat content db
          ≡ store_message env
              (message_of env chat content user)
              (acks_for (message_of env chat content user) user (get_chat_members_query chat db))
              db)
unfolding send_message ◌>>=◌
send_message-answered env chat content user db c h =
    elim (Failable-cases (get_chat_members (env.repo 0) chat db)) [
      | inl (e, p) ↦ absurd (ground arith)
      | inr (ms, p) ↦ elim (Bool-cases (contains ms user)) [
        | inl b ↦ ground (
          arith,
          get_chat_members-value (env.repo 0) chat db ms,
          contains-has_member chat user db,
        )
        | inr b ↦ absurd (ground arith)
      ]
    ]

pub send_message-rows :
    (env : Env) (chat : String) (content : List ℕ) (user : String) (db : Db)
    → env.claims ≡ some user
    → code_of (send_message env chat content db).1 ≡ none
    → (m u : String)
    → (awaits m u (send_message env chat content db).0
        ≡ (awaits m u db || (str_eq env.uuid m && has_member chat u db && not (str_eq u user))))
      × (has_message m (send_message env chat content db).0 ≡ (
          has_message m db
          || (is_cons
                (acks_for (message_of env chat content user) user (get_chat_members_query chat db))
              && str_eq env.uuid m)))
send_message-rows env chat content user db c h m u =
    let x = message_of env chat content user in
    let rows = acks_for x user (get_chat_members_query chat db) in
    let (_, e) = send_message-answered env chat content user db c h in
    let h' : code_of (store_message env x rows db).1 ≡ none = subst (λ p. code_of p.1 ≡ none) e h in
    let (e1, e2) = store_message-answered env x rows db h' m u in
    let e3 : waits_in m u rows
        ≡ (str_eq env.uuid m && has_member chat u db && not (str_eq u user)) =
      waits_in-acks_for x user (get_chat_members_query chat db) m u
      ∙ ap (λ b. str_eq env.uuid m && b && not (str_eq u user)) (contains-has_member chat u db) in
    (
      ap (λ p. awaits m u p.0) e ∙ e1 ∙ ap (λ b. awaits m u db || b) e3,
      ap (λ p. has_message m p.0) e ∙ e2,
    )
