-- ===== src/Messaging/Service/Direct.antt =====
-- A direct chat is opened once, by `CreateDirectChat` of semestral/internal/messaging/service.go.
use go_tasks.Prelude.{
  ℕ, ◌≡◌, refl, ◌∙◌, ap, subst, String, true, false, not, none, some, List, [], ◌∷◌, arith, str_eq,
  eq_refl, ◌==◌, length, Bool-cases, Option-cases, inl, inr, ◌⊎◌,
}
use go_tasks.Prelude.Outcome.{Failable, value, failure, Failable-cases}
use go_tasks.Prelude.Text.{is_nil}
use go_tasks.Messaging.Database.{Db, Chat, has_chat, get_direct_chat_by_users_query, no_rows}
use go_tasks.Messaging.Repository
use go_tasks.Messaging.Repository.{call, driver_error}
use go_tasks.Messaging.Handler.{reply, ◌>>=◌}
use go_tasks.Messaging.Service.{Env, create_direct_chat}
use go_tasks.Messaging.Repository.Direct.{direct_sym, inserted_found, found_stored}

driver_ne : str_eq driver_error no_rows ≡ false
unfolding str_eq
driver_ne = refl

call_failed : (f : Repository.Fault) (n : ℕ) (e : String) → call f n ≡ failure e → e ≡ driver_error
unfolding call
call_failed none n e h = absurd (cc h)
call_failed (some k) n e h = ground arith

nil_text : (s : String) → is_nil s ≡ true → s ≡ ""
nil_text String.[] h = refl
nil_text (String.◌∷◌ c s) h = absurd (cc h)

-- Opening the chat again, by either of the two, finds it.
module _ (env : Env) (a b : String) (db : Db) (c : env.claims ≡ some a) where
  abbrev opened : Chat
  opened = record { id = env.uuid; name = ""; is_group = false }

  abbrev stored : Db × Failable (Unit {0})
  stored = Repository.insert_chat (env.repo 1) opened (a ∷ b ∷ []) db

  -- After an answered `CreateDirectChat` the chat of the reply is found for the two users.
  create_direct_chat-found :
      (id : String)
      → (create_direct_chat env b db).1 ≡ reply id
      → has_chat "" db ≡ false
      → is_nil env.uuid ≡ false
      → (chat : Chat) × (get_direct_chat_by_users_query a b (create_direct_chat env b db).0
          ≡ some chat)
        × (chat.id ≡ id)
        × (is_nil id ≡ false)
  unfolding create_direct_chat ◌>>=◌ Repository.get_direct_chat_by_users
  create_direct_chat-found id h f u = elim (Bool-cases (not (str_eq a b))) [
    | inr w ↦ absurd (ground arith)
    | inl w ↦ elim (Failable-cases (env.verify_users (b ∷ []))) [
      | inl (e, p) ↦ absurd (ground arith)
      | inr (us, p) ↦ elim (Bool-cases (length us == 1)) [
        | inr l ↦ absurd (ground arith)
        | inl l ↦ elim (Failable-cases (call (env.repo 0) 0)) [
          | inl (e, q) ↦ absurd (ground (arith, call_failed (env.repo 0) 0 e q, driver_ne))
          | inr (_, q) ↦ elim (Option-cases (get_direct_chat_by_users_query a b db)) [
            | inl n ↦ elim (Failable-cases stored.1) [
              | inl (e, r) ↦ absurd (ground (arith, eq_refl no_rows))
              | inr (_, r) ↦ (
                opened,
                subst (λ d. get_direct_chat_by_users_query a b d ≡ some opened)
                    (ground (arith, eq_refl no_rows))
                    (inserted_found (env.repo 1) opened a b db stored.0 refl n (ground arith)),
                ground (arith, eq_refl no_rows),
                ground (arith, eq_refl no_rows),
              )
            ]
            | inr (chat, n) ↦ elim (Bool-cases (is_nil chat.id)) [
              | inl z ↦ absurd (ground (arith, nil_text chat.id z, found_stored a b db chat n))
              | inr z ↦ (chat, ground arith, ground arith, ground arith)
            ]
          ]
        ]
      ]
    ]
  ]

-- A chat that is found is given back, and nothing is changed.
create_direct_chat-reuses :
    (env : Env) (a b : String) (db : Db) (chat : Chat) (us : List String)
    → env.claims ≡ some a
    → str_eq a b ≡ false
    → env.verify_users (b ∷ []) ≡ value us
    → length us ≡ 1
    → env.repo 0 ≡ none
    → get_direct_chat_by_users_query a b db ≡ some chat
    → is_nil chat.id ≡ false
    → create_direct_chat env b db ≡ (db, reply chat.id)
unfolding create_direct_chat ◌>>=◌ Repository.get_direct_chat_by_users call
create_direct_chat-reuses env a b db chat us c d v l f q z = ground arith

-- Once a call has opened the direct chat of two users, a call of either of them for the other one
-- gives the same chat and changes nothing, if the query and the profile service work. No chat has
-- the empty id.
pub create_direct_chat_twice :
    (env again : Env) (a b caller target id : String) (db : Db) (us : List String)
    → env.claims ≡ some a
    → (create_direct_chat env b db).1 ≡ reply id
    → has_chat "" db ≡ false
    → is_nil env.uuid ≡ false
    → ((caller ≡ a) × (target ≡ b)) ⊎ ((caller ≡ b) × (target ≡ a))
    → again.claims ≡ some caller
    → str_eq caller target ≡ false
    → again.verify_users (target ∷ []) ≡ value us
    → length us ≡ 1
    → again.repo 0 ≡ none
    → create_direct_chat again target (create_direct_chat env b db).0
      ≡ ((create_direct_chat env b db).0, reply id)
create_direct_chat_twice env again a b caller target id db us c h f u who k d v l free =
    let (chat, q, e, z) = create_direct_chat-found env a b db c id h f u in
    let db' = (create_direct_chat env b db).0 in
    let q' : get_direct_chat_by_users_query caller target db' ≡ some chat = elim who [
      | inl (p, r) ↦ rw (p, r) q
      | inr (p, r) ↦ rw (p, r) (direct_sym b a db' ∙ q)
    ] in
    create_direct_chat-reuses again caller target db' chat us k d v l free q' (ap is_nil e ∙ z)
    ∙ ap (λ i. (db', reply i)) e
