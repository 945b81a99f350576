-- ===== src/Messaging/Broker/Publishing.antt =====
-- What `Publish` of semestral/internal/messaging/broker.go does to each session.
use go_tasks.Prelude.{
  ◌≡◌, refl, ◌∙◌, ap, sym, String, Bool, true, ◌&&◌, ◌||◌, not, some, List, [], ◌∷◌, ◌++◌, arith,
  str_eq, eq_iff, ltb, length, if◌then◌else◌, Bool-cases, Option-cases, inl, inr,
}
use go_tasks.Prelude.Maps.{lookup, insert, lookup-insert}
use go_tasks.Prelude.Outcome.{ok}
use go_tasks.Messaging.Database.{Message, MessageAck}
use go_tasks.Messaging.Broker.{
  Broker, UserSession, message_capacity, offer, close_session, targets, broadcast, publish,
  subscribe, new_broker, new_user_session, sessions_of,
}
use go_tasks.Messaging.Broker.Session
use go_tasks.Messaging.Broker.Session.{SessionOp, offers, run-cons}

-- No session's `done` channel was closed past its once.
abbrev pub IsSound : Broker → Type 0
IsSound b = (id : String) (s : UserSession) → lookup id b.heap ≡ some s → s.close_once ≡ s.done

offer_once :
    (pick : Bool) (m : Message) (s : UserSession)
    → s.close_once ≡ s.done
    → (s' : UserSession) × (offer pick m s ≡ ok s') × (s'.close_once ≡ s'.done)
unfolding offer close_session
offer_once pick m s h =
    elim (Bool-cases (ltb (length s.message_chan) message_capacity && (not s.done || pick))) [
      | inl b ↦ (record s { message_chan = s.message_chan ++ m ∷ [] }, ground arith, h)
      | inr b ↦ elim (Bool-cases s.done) [
        | inl d ↦ (s, ground arith, h)
        | inr d ↦ (record s { done = true; close_once = true }, ground arith, refl)
      ]
    ]

module _ (pick : String → Bool) (m : Message) where
  -- The offers to a session: one for each time that it is a target.
  unfoldable pub offers_to : String → List String → List SessionOp
  offers_to id [] = []
  offers_to id (j ∷ ids) =
      let rest = offers_to id ids in if str_eq j id then offers (pick id) m ∷ rest else rest

  -- A session of the new broker has lived through the offers.
  abbrev pub Served : List String → Broker → Broker → Type 0
  Served ids b b' =
      (id : String) (s : UserSession) (got : List Message)
      → lookup id b.heap ≡ some s
      → (s' : UserSession) × (lookup id b'.heap ≡ some s')
        × (Session.run (offers_to id ids) (s, got) ≡ ok (s', got))

  offers_apply :
      (p : Bool) (s s' : UserSession) (got : List Message)
      → offer p m s ≡ ok s'
      → Session.apply (offers p m) (s, got) ≡ ok (s', got)
  unfolding Session.apply
  offers_apply p s s' got e = ground arith

  broadcast-Served :
      (ids : List String) (b : Broker)
      → IsSound b
      → (b' : Broker) × (broadcast pick m ids b ≡ ok b') × IsSound b' × Served ids b b'
  unfolding broadcast offers_to Session.run
  broadcast-Served [] b v = (b, refl, v, λ id s got e. (s, e, refl))
  broadcast-Served (j ∷ ids) b v = elim (Option-cases (lookup j b.heap)) [
    | inl p ↦
        let (b', e, v', f) = broadcast-Served ids b v in
        (
          b',
          ground arith,
          v',
          λ id s got h. let (s', h', r) = f id s got h in (s', h', ground (arith, (eq_iff j id).0)),
        )
    | inr (t, p) ↦
        let (t', o, w) = offer_once (pick j) m t (v j t p) in
        let b1 : Broker = record b { heap = insert j t' b.heap } in
        let v1 : IsSound b1 = λ id s h. elim (Bool-cases (str_eq j id)) [
          | inl q ↦ ground (arith, lookup-insert j id t' b.heap)
          | inr q ↦ ground (arith, lookup-insert j id t' b.heap, v id s)
        ] in
        let (b', e, v', f) = broadcast-Served ids b1 v1 in
        (
          b',
          ground arith,
          v',
          λ id s got h. elim (Bool-cases (str_eq j id)) [
            | inl q ↦
                let (s', h', r) = f id t' got (ground (arith, lookup-insert j id t' b.heap)) in
                (
                  s',
                  h',
                  rw q (
                      run-cons (offers (pick id) m) (offers_to id ids) (s, got) (t', got) (s', got)
                        (offers_apply (pick id) s t' got (ground (arith, (eq_iff j id).0 q))) r),
                )
            | inr q ↦
                let (s', h', r) = f id s got (ground (arith, lookup-insert j id t' b.heap)) in
                (s', h', ground arith)
          ],
        )
  ]

  -- The offers that are due to a session: for each ack, one for each time that it stands among the
  -- sessions of the ack's user.
  abbrev pub due : String → List MessageAck → Broker → List SessionOp
  due id [] b = []
  due id (a ∷ acks) b = offers_to id (sessions_of a.user_id b) ++ due id acks b

  -- Each session of the new broker has lived through the offers that are due to it.
  abbrev pub AllServed : List MessageAck → Broker → Broker → Type 0
  AllServed acks b b' =
      (id : String) (s : UserSession) (got : List Message)
      → lookup id b.heap ≡ some s
      → (s' : UserSession) × (lookup id b'.heap ≡ some s')
        × (Session.run (due id acks b) (s, got) ≡ ok (s', got))

  offers_to-append :
      (id : String) (ids js : List String)
      → offers_to id (ids ++ js) ≡ offers_to id ids ++ offers_to id js
  unfolding offers_to
  offers_to-append id [] js = refl
  offers_to-append id (i ∷ ids) js = ground (arith, offers_to-append id ids js)

  offers_to-targets :
      (id : String) (acks : List MessageAck) (b : Broker)
      → offers_to id (targets acks b) ≡ due id acks b
  unfolding targets offers_to
  offers_to-targets id [] b = refl
  offers_to-targets id (a ∷ acks) b =
      offers_to-append id (sessions_of a.user_id b) (targets acks b)
      ∙ ap (λ rest. offers_to id (sessions_of a.user_id b) ++ rest) (offers_to-targets id acks b)

  -- From a sound broker `Publish` returns, whatever the runtime picks: it panics on no closed channel.
  -- For each ack, every session gets the message offered once for each time that it stands among the
  -- sessions of the ack's user, and nothing else happens to it.
  pub publish-Served :
      (acks : List MessageAck) (b : Broker)
      → IsSound b
      → (b' : Broker) × (publish pick m acks b ≡ ok b') × IsSound b' × AllServed acks b b'
  unfolding publish
  publish-Served acks b v =
      let (b', e, v', f) = broadcast-Served (targets acks b) b v in
      (
        b',
        e,
        v',
        λ id s got h.
            let (s', h', r) = f id s got h in
            (s', h', ap (λ ops. Session.run ops (s, got)) (sym (offers_to-targets id acks b)) ∙ r),
      )

-- The keys of a sound broker stay sound when a session is added.
pub new_broker-IsSound : IsSound new_broker
unfolding new_broker lookup
new_broker-IsSound id s e = absurd (cc e)

pub subscribe-IsSound :
    (user uuid : String) (b : Broker) → IsSound b → IsSound (subscribe user uuid b)
unfolding subscribe new_user_session
subscribe-IsSound user uuid b v id s e = elim (Bool-cases (str_eq uuid id)) [
  | inl q ↦ ground (arith, lookup-insert uuid id (new_user_session uuid) b.heap)
  | inr q ↦ ground (arith, lookup-insert uuid id (new_user_session uuid) b.heap, v id s)
]
