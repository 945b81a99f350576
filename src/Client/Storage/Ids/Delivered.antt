-- ===== src/Client/Storage/Ids/Delivered.antt =====
-- A delivery after any run of statements
-- (semestral/internal/client/storage/sqlite_repository.go).
use go_tasks.Prelude.{
  ◌+◌, ◌≤◌, ◌≡◌, refl, sym, ◌∙◌, String, Bool, true, false, List, [], ◌∷◌, arith, Bool-cases, inl,
  inr, ◌≢◌, ◌⊎◌,
}
use go_tasks.Prelude.Tables.{any, count, any-count}
use go_tasks.Prelude.Outcome.{value}
use go_tasks.Client.Storage.{Message, Messages, has_id, insert_message, mark_message_delivered}
use go_tasks.Client.Storage.Ids.{
  refused, renamed, stayed, Unique, Change, apply, insert_message-Unique, mark_messages_read-Unique,
  count-delivered, count-gone, count-same, ending, mark_message_delivered-Unique, inserts, delivers,
  reads, refused,
}

abbrev pub run : List Change → Messages → Messages
run [] table = table
run (change ∷ changes) table = run changes (apply change table)

run-Unique : (changes : List Change) (table : Messages) → Unique table → Unique (run changes table)
run-Unique [] table u = u
run-Unique (inserts m ∷ changes) table u = run-Unique changes _ (insert_message-Unique m table u)
run-Unique (delivers local server ∷ changes) table u =
    run-Unique changes _ (mark_message_delivered-Unique local server table u)
run-Unique (reads ids ∷ changes) table u =
    run-Unique changes _ (mark_messages_read-Unique ids table u)

one_counted : (p : Message → Bool) (ms : Messages) → any p ms ≡ true → 1 ≤ count p ms
unfolding count any
one_counted p [] h = cc
one_counted p (m ∷ ms) h = ground (arith, one_counted p ms)

value_inj : (s t : Messages) → value s ≡ value t → s ≡ t
value_inj s t e = cc

counts_delivered :
    (local server : String) (old table : Messages)
    → Unique old
    → any (has_id local) old ≡ true
    → mark_message_delivered local server old ≡ value table
    → (count (has_id server) table ≡ 1) × (local ≢ server → count (has_id local) table ≡ 0)
counts_delivered local server old table u there e = elim (ending local server old) [
  | refused x r ↦ absurd (cc (r, e))
  | stayed p r ↦
      rw (← value_inj _ _ (sym r ∙ e), count-same local server old, ← p)
        (omega (arith, u local, one_counted (has_id local) old there), λ d. absurd (d refl))
  | renamed d r free ↦
      rw
        (
          ← value_inj _ _ (sym r ∙ e),
          count-delivered local server old d,
          count-gone local server old d,
        )
        (one free, λ x. refl)
]
  where
    one :
        (any (has_id local) old ≡ false) ⊎ (any (has_id server) old ≡ false)
        → count (has_id local) old + count (has_id server) old ≡ 1
    one (inl a) = absurd (cc (a, there))
    one (inr b) =
        omega
          (arith, any-count (has_id server) old b, u local, one_counted (has_id local) old there)

insert_message-known :
    (m : Message) (table : Messages)
    → any (has_id m.id) table ≡ true
    → insert_message m table ≡ table
unfolding insert_message
insert_message-known m table e = rw e refl

any_of_count : (p : Message → Bool) (ms : Messages) → count p ms ≡ 1 → any p ms ≡ true
any_of_count p ms h = elim (Bool-cases (any p ms)) [
  | inl e ↦ e
  | inr e ↦ absurd (omega (arith, any-count p ms e))
]

-- After any run of statements on an empty table, a delivery that is answered leaves one message under
-- the id of the server and, where the ids differ, none under the local one, if there was one to be
-- delivered. When the server sends that message back, it is not stored again.
pub delivered_once :
    (changes : List Change) (local server : String) (table : Messages)
    → any (has_id local) (run changes []) ≡ true
    → mark_message_delivered local server (run changes []) ≡ value table
    → (count (has_id server) table ≡ 1)
      × (local ≢ server → count (has_id local) table ≡ 0)
      × ((m : Message) → m.id ≡ server → insert_message m table ≡ table)
delivered_once changes local server table there e =
    let (one, gone) =
      counts_delivered local server (run changes []) table
        (run-Unique changes [] (λ id. unfold count in omega arith)) there e in
    (
      one,
      gone,
      λ m same. insert_message-known m table (rw same (any_of_count (has_id server) table one)),
    )
