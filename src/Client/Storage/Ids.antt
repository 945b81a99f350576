-- ===== src/Client/Storage/Ids.antt =====
-- The ids of the local table (semestral/internal/client/storage/sqlite_repository.go).
pub mod Delivered
use go_tasks.Prelude.{
  ℕ, zero, suc, ◌+◌, ◌≤◌, ◌≡◌, refl, sym, ap, ◌∙◌, subst, String, Bool, true, false, not, ◌&&◌,
  List, [], ◌∷◌, ◌++◌, arith, str_eq, eq_iff, eq_refl, Bool-cases, inl, inr, if◌then◌else◌,
  String-cases, ◌≢◌, ◌⊎◌, some, none, str_eq-false,
}
use go_tasks.Prelude.Tables.{any, update, count, any-append, count-any, any-count}
use go_tasks.Prelude.Outcome.{Failable, value, failure}
use go_tasks.Client.Storage.{
  Message, Messages, has_id, insert_message, delivered, mark_message_delivered, mark_messages_read,
  one_of,
}

-- No two messages share an id.
abbrev pub Unique : Messages → Type 0
Unique table = (id : String) → count (has_id id) table ≤ 1

-- A statement that changes the table; one that fails changes nothing.
pub data Change : Type 0 where
  inserts : Message → Change
  delivers : String → String → Change
  reads : List String → Change

abbrev pub after : Messages → Failable Messages → Messages
after table (value table') = table'
after table (failure e) = table

abbrev pub apply : Change → Messages → Messages
apply (inserts m) table = insert_message m table
apply (delivers local server) table = after table (mark_message_delivered local server table)
apply (reads ids) table = mark_messages_read ids table

count-append :
    (p : Message → Bool) (xs ys : Messages) → count p (xs ++ ys) ≡ count p xs + count p ys
unfolding count
count-append p [] ys = omega arith
count-append p (x ∷ xs) ys = ground (arith, count-append p xs ys)

pub insert_message-Unique :
    (m : Message) (table : Messages) → Unique table → Unique (insert_message m table)
unfolding insert_message count
insert_message-Unique m table u id = elim (Bool-cases (any (has_id m.id) table)) [
  | inl e ↦ rw e (u id)
  | inr e ↦
      rw (e, count-append (has_id id) table (m ∷ []))
        (elim (Bool-cases (str_eq m.id id)) [
          | inl f ↦
              let none_there : count (has_id id) table ≡ 0 =
                subst (λ x. count (has_id x) table ≡ 0) ((eq_iff m.id id).0 f)
                  (any-count (has_id m.id) table e) in
              rw (f, none_there) (omega arith)
          | inr f ↦ rw f (omega (arith, u id))
        ])
]

-- A change of other fields keeps the ids.
update_flag :
    (p : Message → Bool) (f : Message → Message) (id : String) (table : Messages)
    → ((m : Message) → (f m).id ≡ m.id)
    → count (has_id id) (update p f table) ≡ count (has_id id) table
unfolding count update
update_flag p f id [] h = refl
update_flag p f id (m ∷ table) h = ground (arith, update_flag p f id table h, h m)

pub mark_messages_read-Unique :
    (ids : List String) (table : Messages) → Unique table → Unique (mark_messages_read ids table)
unfolding mark_messages_read
mark_messages_read-Unique [] table u id = u id
mark_messages_read-Unique (x ∷ ids) table u id =
    rw
      (update_flag (λ m. one_of (x ∷ ids) m.id) (λ m. record m { is_read = true }) id table
        (λ m. refl))
      (u id)

-- The new id counts the rows of both.
pub count-delivered :
    (local server : String) (table : Messages)
    → local ≢ server
    → count (has_id server) (update (has_id local) (delivered server) table)
      ≡ count (has_id local) table + count (has_id server) table
unfolding count update
count-delivered local server [] h = refl
count-delivered local server (m ∷ table) h = ground (
  arith,
  count-delivered local server table h,
  eq_iff m.id local,
  eq_iff m.id server,
  eq_refl server,
)

pub count-gone :
    (local server : String) (table : Messages)
    → local ≢ server
    → count (has_id local) (update (has_id local) (delivered server) table) ≡ 0
unfolding count update
count-gone local server [] h = refl
count-gone local server (m ∷ table) h =
    ground (arith, count-gone local server table h, eq_iff m.id local, eq_iff server local, h)

count-other :
    (local server id : String) (table : Messages)
    → id ≢ local
    → id ≢ server
    → count (has_id id) (update (has_id local) (delivered server) table) ≡ count (has_id id) table
unfolding count update
count-other local server id [] h g = refl
count-other local server id (m ∷ table) h g = ground (
  arith,
  count-other local server id table h g,
  eq_iff m.id local,
  eq_iff m.id id,
  eq_iff server id,
)

pub count-same :
    (local id : String) (table : Messages)
    → count (has_id id) (update (has_id local) (delivered local) table) ≡ count (has_id id) table
unfolding count update
count-same local id [] = refl
count-same local id (m ∷ table) =
    ground (arith, count-same local id table, eq_iff m.id local, eq_iff m.id id, eq_iff local id)

-- The three ways in which a statement of delivery can end.
pub data Ending (local server : String) (table : Messages) (r : Failable Messages) : Type 0 where
  refused : (e : String) → r ≡ failure e → Ending local server table r
  renamed :
      local ≢ server
      → r ≡ value (update (has_id local) (delivered server) table)
      → (any (has_id local) table ≡ false) ⊎ (any (has_id server) table ≡ false)
      → Ending local server table r
  stayed :
      local ≡ server
      → r ≡ value (update (has_id local) (delivered local) table)
      → Ending local server table r

pub ending :
    (local server : String) (table : Messages)
    → Ending local server table (mark_message_delivered local server table)
unfolding mark_message_delivered
ending local server table = elim (String-cases local server) [
  | inl e ↦
      stayed e (rw (← e, eq_refl local) (ground (arith, Bool-cases (any (has_id local) table))))
  | inr e ↦ elim (Bool-cases (any (has_id local) table)) [
    | inr f ↦ renamed e (rw f refl) (inl f)
    | inl f ↦ elim (Bool-cases (any (has_id server) table)) [
      | inr g ↦ renamed e (rw (f, g) refl) (inr g)
      | inl g ↦ refused "UNIQUE constraint failed" (rw (f, g, str_eq-false local server e) refl)
    ]
  ]
]

count-delivered_one :
    (local server : String) (table : Messages)
    → Unique table
    → local ≢ server
    → (any (has_id local) table ≡ false) ⊎ (any (has_id server) table ≡ false)
    → (id : String) → count (has_id id) (update (has_id local) (delivered server) table) ≤ 1
count-delivered_one local server table u d free id = elim (String-cases id server) [
  | inl e ↦ rw (e, count-delivered local server table d) (sum_one free)
  | inr e ↦ elim (String-cases id local) [
    | inl f ↦ rw (f, count-gone local server table d) (omega arith)
    | inr f ↦ rw (count-other local server id table f e) (u id)
  ]
]
  where
    sum_one :
        (any (has_id local) table ≡ false) ⊎ (any (has_id server) table ≡ false)
        → count (has_id local) table + count (has_id server) table ≤ 1
    sum_one (inl a) = omega (arith, any-count (has_id local) table a, u server)
    sum_one (inr b) = omega (arith, any-count (has_id server) table b, u local)

pub mark_message_delivered-Unique :
    (local server : String) (table : Messages)
    → Unique table
    → Unique (after table (mark_message_delivered local server table))
mark_message_delivered-Unique local server table u id = elim (ending local server table) [
  | refused e r ↦ rw r (u id)
  | stayed e r ↦ rw (r, count-same local id table) (u id)
  | renamed d r free ↦ rw r (count-delivered_one local server table u d free id)
]
