-- ===== src/Messaging/Repository/Mail.antt =====
-- The transactions of semestral/internal/messaging/sqlite_repository.go on chats and their members
-- leave the messages and their acks alone.
use go_tasks.Prelude.{◌≡◌, ◌∙◌, String, List, [], ◌∷◌, arith, inl, inr}
use go_tasks.Prelude.Outcome.{value, Failable-cases}
use go_tasks.Messaging.Database.{
  Db, Chat, insert_chat_query, add_chat_member_query, add_chat_members_query,
  remove_chat_member_query,
}
use go_tasks.Messaging.Repository
use go_tasks.Messaging.Repository.{Fault, insert_members}

abbrev pub Same : Db → Db → Type 0
Same db db' = (db'.messages ≡ db.messages) × (db'.message_acks ≡ db.message_acks)

add_member-Same :
    (c u : String) (db db' : Db) → add_chat_member_query c u db ≡ value db' → Same db db'
unfolding add_chat_member_query
add_member-Same c u db db' h = ground arith

add_members-Same :
    (c : String) (us : List String) (db db' : Db)
    → add_chat_members_query c us db ≡ value db'
    → Same db db'
unfolding add_chat_members_query
add_members-Same c [] db db' h = ground arith
add_members-Same c (u ∷ us) db db' h = elim (Failable-cases (add_chat_member_query c u db)) [
  | inl (e, p) ↦ absurd (ground arith)
  | inr (x, p) ↦
      let (a, b) = add_member-Same c u db x p in
      let (a', b') = add_members-Same c us x db' (ground arith) in (a' ∙ a, b' ∙ b)
]

insert_members-Same :
    (f : Fault) (c : String) (us : List String) (db db' : Db)
    → insert_members f c us db ≡ value db'
    → Same db db'
insert_members-Same f c [] db db' h = ground arith
insert_members-Same f c (u ∷ us) db db' h = add_members-Same c (u ∷ us) db db' (ground arith)

insert_chat_row-Same : (c : Chat) (db db' : Db) → insert_chat_query c db ≡ value db' → Same db db'
unfolding insert_chat_query
insert_chat_row-Same c db db' h = ground arith

pub insert_chat-Same :
    (f : Fault) (c : Chat) (us : List String) (db : Db)
    → Same db (Repository.insert_chat f c us db).0
unfolding Repository.insert_chat
insert_chat-Same f c us db = elim (Failable-cases (insert_chat_query c db)) [
  | inl (e, p) ↦ ground arith
  | inr (x, p) ↦ elim (Failable-cases (insert_members f c.id us x)) [
    | inl (e, q) ↦ ground arith
    | inr (y, q) ↦
        let (a, b) = insert_chat_row-Same c db x p in
        let (a', b') = insert_members-Same f c.id us x y q in ground arith
  ]
]

pub add_chat_member-Same :
    (f : Fault) (c u : String) (db : Db) → Same db (Repository.add_chat_member f c u db).0
unfolding Repository.add_chat_member add_chat_member_query
add_chat_member-Same f c u db = ground arith

pub remove_chat_member-Same :
    (f : Fault) (c u : String) (db : Db) → Same db (Repository.remove_chat_member f c u db).0
unfolding Repository.remove_chat_member remove_chat_member_query
remove_chat_member-Same f c u db = ground arith
