-- ===== src/Messaging/Broker/Session.antt =====
-- The life of one session of semestral/internal/messaging/broker.go, between its publishers, its
-- stream and those that close it.
use go_tasks.Prelude.{
  ◌≤◌, ◌≡◌, refl, String, Bool, true, false, ◌&&◌, ◌||◌, not, Option, none, some, List, [], ◌∷◌,
  ◌++◌, arith, ltb, length, length-append, Bool-cases, inl, inr, ◌∙◌, sym, ap, subst,
}
use mathlib.Core.List.{append_assoc, append-nil}
use go_tasks.Prelude.Outcome.{Outcome, ok}
use go_tasks.Messaging.Database.{Message}
use go_tasks.Messaging.Broker.{
  UserSession, message_capacity, new_user_session, close_session, offer, receive,
}

-- What happens to a session, in any interleaving.
pub data SessionOp : Type 0 where
  offers : Bool → Message → SessionOp
  receives : SessionOp
  closes : SessionOp

-- A session with the messages that its stream has taken.
abbrev pub Live : Type 0
Live = UserSession × List Message

abbrev after_receive : Option (Message × UserSession) → Live → Live
after_receive none l = l
after_receive (some (m, s)) l = (s, l.1 ++ m ∷ [])

unfoldable pub apply : SessionOp → Live → Outcome Live
apply (offers pick m) l = elim (offer pick m l.0) [
  | Outcome.ok s ↦ ok (s, l.1)
  | Outcome.panic ↦ Outcome.panic
]
apply receives l = ok (after_receive (receive l.0) l)
apply closes l = elim (close_session l.0) [
  | Outcome.ok s ↦ ok (s, l.1)
  | Outcome.panic ↦ Outcome.panic
]

unfoldable pub run : List SessionOp → Live → Outcome Live
run [] l = ok l
run (op ∷ ops) l = elim (apply op l) [ Outcome.ok l' ↦ run ops l' | Outcome.panic ↦ Outcome.panic ]

-- The messages that were published to the session, in order.
abbrev pub offered : List SessionOp → List Message
offered [] = []
offered (offers pick m ∷ ops) = m ∷ offered ops
offered (receives ∷ ops) = offered ops
offered (closes ∷ ops) = offered ops

-- A live session, where `sent` was published to it so far.
pub record Inv (sent : List Message) (l : Live) : Type 0 where
  pub once_done : l.0.close_once ≡ l.0.done
  pub bounded : length l.0.message_chan ≤ message_capacity
  pub complete : l.0.done ≡ false → l.1 ++ l.0.message_chan ≡ sent

offers-Inv :
    (pick : Bool) (m : Message) (sent : List Message) (l : Live)
    → Inv sent l
    → (l' : Live) × (apply (offers pick m) l ≡ ok l') × Inv (sent ++ m ∷ []) l'
unfolding apply offer close_session
offers-Inv pick m sent l v =
    elim (Bool-cases (ltb (length l.0.message_chan) message_capacity && (not l.0.done || pick))) [
      | inl b ↦ (
        (record (l.0) { message_chan = l.0.message_chan ++ m ∷ [] }, l.1),
        ground arith,
        record {
          once_done = v.once_done;
          bounded = ground (arith, length-append l.0.message_chan (m ∷ []));
          complete = λ d.
              sym (append_assoc l.1 l.0.message_chan (m ∷ []))
              ∙ ap (λ x. x ++ m ∷ []) (v.complete d);
        },
      )
      | inr b ↦ elim (Bool-cases l.0.done) [
        | inl d ↦ (
          l,
          ground arith,
          record {
            once_done = v.once_done;
            bounded = v.bounded;
            complete = λ o. absurd (ground arith);
          },
        )
        | inr d ↦ (
          (record (l.0) { done = true; close_once = true }, l.1),
          ground (arith, v.once_done),
          record { once_done = refl; bounded = v.bounded; complete = λ o. absurd (cc o) },
        )
      ]
    ]

receives-Inv :
    (sent : List Message) (l : Live)
    → Inv sent l
    → (l' : Live) × (apply receives l ≡ ok l') × Inv sent l'
unfolding apply receive
receives-Inv sent (s, got) v = taken s.message_chan refl
  where
    taken :
        (c : List Message)
        → s.message_chan ≡ c
        → (l' : Live) × (apply receives (s, got) ≡ ok l') × Inv sent l'
    taken [] e = ((s, got), ground arith, v)
    taken (m ∷ rest) e = (
      (record s { message_chan = rest }, got ++ m ∷ []),
      ground arith,
      record {
        once_done = v.once_done;
        bounded = ground (arith, v.bounded);
        complete = λ d. append_assoc got (m ∷ []) rest ∙ ap (λ c. got ++ c) (sym e) ∙ v.complete d;
      },
    )

closes-Inv :
    (sent : List Message) (l : Live)
    → Inv sent l
    → (l' : Live) × (apply closes l ≡ ok l') × Inv sent l'
unfolding apply close_session
closes-Inv sent l v = elim (Bool-cases l.0.done) [
  | inl d ↦ (l, ground (arith, v.once_done), v)
  | inr d ↦ (
    (record (l.0) { done = true; close_once = true }, l.1),
    ground (arith, v.once_done),
    record { once_done = refl; bounded = v.bounded; complete = λ o. absurd (cc o) },
  )
]

pub run-cons :
    (op : SessionOp) (ops : List SessionOp) (l l1 l2 : Live)
    → apply op l ≡ ok l1
    → run ops l1 ≡ ok l2
    → run (op ∷ ops) l ≡ ok l2
unfolding run
run-cons op ops l l1 l2 e f = ground arith

run-Inv :
    (ops : List SessionOp) (sent : List Message) (l : Live)
    → Inv sent l
    → (l' : Live) × (run ops l ≡ ok l') × Inv (sent ++ offered ops) l'
unfolding run
run-Inv [] sent l v = (l, refl, subst (λ x. Inv x l) (sym (append-nil sent)) v)
run-Inv (offers pick m ∷ ops) sent l v =
    let (l1, e, v1) = offers-Inv pick m sent l v in
    let (l2, e', v2) = run-Inv ops (sent ++ m ∷ []) l1 v1 in
    (
      l2,
      run-cons _ ops l l1 l2 e e',
      subst (λ x. Inv x l2) (append_assoc sent (m ∷ []) (offered ops)) v2,
    )
run-Inv (receives ∷ ops) sent l v =
    let (l1, e, v1) = receives-Inv sent l v in
    let (l2, e', v2) = run-Inv ops sent l1 v1 in (l2, run-cons _ ops l l1 l2 e e', v2)
run-Inv (closes ∷ ops) sent l v =
    let (l1, e, v1) = closes-Inv sent l v in
    let (l2, e', v2) = run-Inv ops sent l1 v1 in (l2, run-cons _ ops l l1 l2 e e', v2)

new-Inv : (uuid : String) → Inv [] (new_user_session uuid, [])
unfolding new_user_session
new-Inv uuid = record { once_done = refl; bounded = ground arith; complete = λ d. refl }

-- However publishers, the stream and closers interleave on a new session, no call panics and the
-- buffer never holds more than 30 messages. As long as the session is not closed, the messages that
-- its stream has taken, followed by those in the buffer, are all that were published to it, in order.
pub run-new_user_session :
    (ops : List SessionOp) (uuid : String)
    → (l : Live) × (run ops (new_user_session uuid, []) ≡ ok l)
      × (length l.0.message_chan ≤ 30)
      × (l.0.done ≡ false → l.1 ++ l.0.message_chan ≡ offered ops)
run-new_user_session ops uuid =
    let (l, e, v) = run-Inv ops [] (new_user_session uuid, []) (new-Inv uuid) in
    (l, e, v.bounded, v.complete)
