-- ===== src/Messaging/Repository/Direct.antt =====
-- A direct chat of two users and the query that finds it, in
-- semestral/internal/messaging/sqlite_repository.go.
use go_tasks.Prelude.{
  ◌≡◌, refl, ◌∙◌, sym, ap, subst, String, Bool, true, false, ◌&&◌, ◌||◌, not, none, some, List, [],
  ◌∷◌, ◌++◌, arith, str_eq, eq_iff, eq_refl, Bool-cases, inl, inr,
}
use go_tasks.Prelude.Outcome.{value, Failable-cases}
use go_tasks.Prelude.Tables.{any, select, first, any-append}
use go_tasks.Messaging.Database.{
  Db, Chat, has_chat, has_member, insert_chat_query, add_chat_member_query, add_chat_members_query,
  get_direct_chat_by_users_query,
}
use go_tasks.Messaging.Repository
use go_tasks.Messaging.Repository.{call, driver_error}

-- The order of the two users does not matter.
pub direct_sym :
    (a b : String) (db : Db)
    → get_direct_chat_by_users_query a b db ≡ get_direct_chat_by_users_query b a db
unfolding get_direct_chat_by_users_query select
direct_sym a b db = ap first (swap db.chats)
  where
    swap :
        (cs : List Chat)
        → select (λ c. not c.is_group && has_member c.id a db && has_member c.id b db) cs
          ≡ select (λ c. not c.is_group && has_member c.id b db && has_member c.id a db) cs
    swap [] = refl
    swap (c ∷ cs) = ground (arith, swap cs)

-- A chat that a query finds is stored.
first_stored :
    (p : Chat → Bool) (cs : List Chat) (c : Chat)
    → first (select p cs) ≡ some c
    → any (λ x. str_eq x.id c.id) cs ≡ true
unfolding select any
first_stored p [] c h = absurd (cc h)
first_stored p (x ∷ cs) c h = ground (arith, first_stored p cs c, eq_refl c.id)

-- A new chat at the end is found first, if no old one passed and the old ones pass as before.
first_new :
    (p q : Chat → Bool) (n : Chat) (cs : List Chat)
    → any (λ x. str_eq x.id n.id) cs ≡ false
    → first (select p cs) ≡ none
    → ((c : Chat) → str_eq c.id n.id ≡ false → q c ≡ p c)
    → q n ≡ true
    → first (select q (cs ++ n ∷ [])) ≡ some n
unfolding select any
first_new p q n [] f h s t = ground arith
first_new p q n (c ∷ cs) f h s t =
    ground (arith, first_new p q n cs (ground arith) (ground arith) s t, s c)

has_member-add :
    (chat user c u : String) (db db' : Db)
    → add_chat_member_query chat user db ≡ value db'
    → (has_member c u db' ≡ (has_member c u db || (str_eq chat c && str_eq user u)))
      × (db'.chats ≡ db.chats)
unfolding add_chat_member_query
has_member-add chat user c u db db' h = elim (Bool-cases (has_member chat user db)) [
  | inl b ↦ ground (arith, (eq_iff chat c).0, (eq_iff user u).0)
  | inr b ↦
      unfold has_member any in
      ground (
        arith,
        any-append (λ m. str_eq m.chat_id c && str_eq m.user_id u) db.chat_members
            (record { chat_id = chat; user_id = user } ∷ []),
      )
]

-- The two members of a new chat.
members_added :
    (chat a b : String) (db db' : Db)
    → add_chat_members_query chat (a ∷ b ∷ []) db ≡ value db'
    → ((c u : String)
        → has_member c u db' ≡ (has_member c u db || (str_eq chat c && (str_eq a u || str_eq b u))))
      × (db'.chats ≡ db.chats)
unfolding add_chat_members_query
members_added chat a b db db' h = elim (Failable-cases (add_chat_member_query chat a db)) [
  | inl (e, p) ↦ absurd (ground arith)
  | inr (db1, p) ↦ elim (Failable-cases (add_chat_member_query chat b db1)) [
    | inl (e, q) ↦ absurd (ground arith)
    | inr (db2, q) ↦ (
      λ c u.
          ground (arith, has_member-add chat a c u db db1 p, has_member-add chat b c u db1 db2 q),
      ground (arith, has_member-add chat a "" "" db db1 p, has_member-add chat b "" "" db1 db2 q),
    )
  ]
]

pair_found :
    (chat : Chat) (a b : String) (db db' : Db)
    → chat.is_group ≡ false
    → has_chat chat.id db ≡ false
    → get_direct_chat_by_users_query a b db ≡ none
    → ((c u : String)
        → has_member c u db'
          ≡ (has_member c u db || (str_eq chat.id c && (str_eq a u || str_eq b u))))
    → db'.chats ≡ db.chats ++ chat ∷ []
    → get_direct_chat_by_users_query a b db' ≡ some chat
unfolding get_direct_chat_by_users_query has_chat
pair_found chat a b db db' g k n m e =
    ap
      (λ cs.
        first (select (λ c. not c.is_group && has_member c.id a db' && has_member c.id b db') cs))
      e
    ∙ first_new (λ c. not c.is_group && has_member c.id a db && has_member c.id b db)
        (λ c. not c.is_group && has_member c.id a db' && has_member c.id b db') chat db.chats k n
        (λ c d. ground (arith, m c.id a, m c.id b, eq_iff c.id chat.id, eq_iff chat.id c.id))
        (ground (arith, m chat.id a, m chat.id b, eq_refl chat.id, eq_refl a, eq_refl b))

-- A direct chat that was inserted is the one that is found for its two members.
pub inserted_found :
    (fault : Repository.Fault) (chat : Chat) (a b : String) (db db' : Db)
    → chat.is_group ≡ false
    → get_direct_chat_by_users_query a b db ≡ none
    → Repository.insert_chat fault chat (a ∷ b ∷ []) db ≡ (db', value tt)
    → get_direct_chat_by_users_query a b db' ≡ some chat
unfolding Repository.insert_chat insert_chat_query
inserted_found fault chat a b db db' g n h = elim (Bool-cases (has_chat chat.id db)) [
  | inl k ↦ absurd (ground arith)
  | inr k ↦
      let db1 : Db = record db { chats = db.chats ++ chat ∷ [] } in
      elim (Failable-cases (add_chat_members_query chat.id (a ∷ b ∷ []) db1)) [
        | inl (e, p) ↦ absurd (ground arith)
        | inr (db2, p) ↦
            let (m, same) = members_added chat.id a b db1 db2 p in
            let is_db2 : db' ≡ db2 = ground arith in
            subst (λ d. get_direct_chat_by_users_query a b d ≡ some chat) (sym is_db2)
              (pair_found chat a b db db2 g k n (λ c u. m c u ∙ unfold has_member in refl) same)
      ]
]

pub found_stored :
    (a b : String) (db : Db) (chat : Chat)
    → get_direct_chat_by_users_query a b db ≡ some chat
    → has_chat chat.id db ≡ true
unfolding get_direct_chat_by_users_query has_chat
found_stored a b db chat n = first_stored _ db.chats chat n
