-- ===== src/Messaging/Broker/Registry.antt =====
-- Who is registered at the broker of semestral/internal/messaging/broker.go.
use go_tasks.Prelude.{
  ◌≡◌, refl, ◌∙◌, ap, String, Bool, true, false, Option, none, some, List, [], ◌∷◌, ◌++◌, arith,
  str_eq, eq_iff, if◌then◌else◌, is_some, Option-cases, inl, inr, ◌⊎◌,
}
use go_tasks.Prelude.Maps.{lookup, lookup-insert, lookup-delete}
use go_tasks.Prelude.Tables.{select}
use go_tasks.Messaging.Broker.{
  Broker, new_broker, sessions_of, subscribe, unsubscribe, without, put_back,
}

-- A call that changes who is registered.
pub data Op : Type 0 where
  subscribes : String → String → Op
  unsubscribes : String → String → Op

unfoldable pub apply : Op → Broker → Broker
apply (subscribes user uuid) b = subscribe user uuid b
apply (unsubscribes user target) b = unsubscribe user target b

unfoldable pub run : List Op → Broker → Broker
run [] b = b
run (op ∷ ops) b = run ops (apply op b)

-- The list with no occurrence of the session.
abbrev pub taken_off : String → List String → List String
taken_off target [] = []
taken_off target (i ∷ ids) =
    if str_eq i target then taken_off target ids else i ∷ taken_off target ids

without-taken_off :
    (target : String) (ids : List String) → without target ids ≡ taken_off target ids
unfolding select
without-taken_off target [] = refl
without-taken_off target (i ∷ ids) = ground (arith, without-taken_off target ids)

-- The sessions of a user as a list of their own: a subscription adds one at the end, and the end of
-- one takes it off.
abbrev pub next_sessions : String → Op → List String → List String
next_sessions u (subscribes user uuid) ids = if str_eq user u then ids ++ uuid ∷ [] else ids
next_sessions u (unsubscribes user target) ids = if str_eq user u then taken_off target ids else ids

unfoldable pub expected : String → List Op → List String → List String
expected u [] ids = ids
expected u (op ∷ ops) ids = expected u ops (next_sessions u op ids)

abbrev pub is_cons : List String → Bool
is_cons [] = false
is_cons (i ∷ ids) = true

-- No entry of the map is an empty list.
abbrev pub IsTidy : String → Broker → Type 0
IsTidy u b = is_some (lookup u b.sessions) ≡ is_cons (sessions_of u b)

is_cons-append : (ids : List String) (i : String) → is_cons (ids ++ i ∷ []) ≡ true
is_cons-append [] i = refl
is_cons-append (j ∷ ids) i = refl

abbrev unless_nil : List String → Option (List String)
unless_nil [] = none
unless_nil (i ∷ ids) = some (i ∷ ids)

lookup-put_back :
    (u user : String) (ids : List String) (b : Broker)
    → lookup u (put_back user ids b).sessions
      ≡ (if str_eq user u then unless_nil ids else lookup u b.sessions)
lookup-put_back u user [] b = lookup-delete user u b.sessions
lookup-put_back u user (i ∷ ids) b = lookup-insert user u (i ∷ ids) b.sessions

nil_or_cons : (ids : List String) → (ids ≡ []) ⊎ (unless_nil ids ≡ some ids) × (is_cons ids ≡ true)
nil_or_cons [] = inl refl
nil_or_cons (i ∷ ids) = inr (refl, refl)

sessions_of-apply :
    (u : String) (op : Op) (b : Broker)
    → sessions_of u (apply op b) ≡ next_sessions u op (sessions_of u b)
unfolding apply subscribe unsubscribe
sessions_of-apply u (subscribes user uuid) b =
    ground
      (arith, lookup-insert user u (sessions_of user b ++ uuid ∷ []) b.sessions, (eq_iff user u).0)
sessions_of-apply u (unsubscribes user target) b = elim (Option-cases (lookup user b.sessions)) [
  | inl p ↦ unfold select in ground (arith, (eq_iff user u).0)
  | inr (ids, p) ↦
      let off = without-taken_off target ids in
      elim (nil_or_cons (without target ids)) [
        | inl n ↦
            ground (arith, off, lookup-put_back u user (without target ids) b, (eq_iff user u).0)
        | inr (s, c) ↦
            ground (arith, off, lookup-put_back u user (without target ids) b, (eq_iff user u).0)
      ]
]

apply-IsTidy : (u : String) (op : Op) (b : Broker) → IsTidy u b → IsTidy u (apply op b)
unfolding apply subscribe unsubscribe
apply-IsTidy u (subscribes user uuid) b t = ground (
  arith,
  lookup-insert user u (sessions_of user b ++ uuid ∷ []) b.sessions,
  is_cons-append (sessions_of user b) uuid,
)
apply-IsTidy u (unsubscribes user target) b t = elim (Option-cases (lookup user b.sessions)) [
  | inl p ↦ ground arith
  | inr (ids, p) ↦ elim (nil_or_cons (without target ids)) [
    | inl n ↦ ground (arith, lookup-put_back u user (without target ids) b)
    | inr (s, c) ↦ ground (arith, lookup-put_back u user (without target ids) b)
  ]
]

run-expected :
    (u : String) (ops : List Op) (b : Broker)
    → IsTidy u b
    → (sessions_of u (run ops b) ≡ expected u ops (sessions_of u b)) × IsTidy u (run ops b)
unfolding run expected
run-expected u [] b t = (refl, t)
run-expected u (op ∷ ops) b t =
    let (e, t') = run-expected u ops (apply op b) (apply-IsTidy u op b t) in
    (e ∙ ap (expected u ops) (sessions_of-apply u op b), t')

-- After any run of subscriptions and their ends, the broker lists for each user the sessions that
-- were begun and not ended since, in the order of their begin, and it has an entry for a user
-- exactly if there is such a session.
pub sessions_of-run :
    (u : String) (ops : List Op)
    → (sessions_of u (run ops new_broker) ≡ expected u ops [])
      × (is_some (lookup u (run ops new_broker).sessions) ≡ is_cons (expected u ops []))
unfolding new_broker lookup
sessions_of-run u ops = let (e, t) = run-expected u ops new_broker refl in (e, t ∙ ap is_cons e)
