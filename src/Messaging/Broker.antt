-- ===== src/Messaging/Broker.antt =====
-- semestral/internal/messaging/broker.go. Sessions are pointers: `heap` holds them under their ids,
-- which are fresh, and `sessions` lists the ids of each user. `message_chan` is the buffer of the
-- channel, `done` says whether that channel is closed, and `close_once` whether the once has run.
-- Logging is left out.
pub mod Session
pub mod Registry
pub mod Publishing
pub mod Examples
use go_tasks.Prelude.{
  ℕ, ◌≡◌, String, Bool, true, false, ◌&&◌, ◌||◌, not, Option, none, some, List, [], ◌∷◌, ◌++◌, map,
  str_eq, ltb, length, if◌then◌else◌,
}
use go_tasks.Prelude.Maps.{Map, lookup, insert, delete}
use go_tasks.Prelude.Outcome.{Outcome, ok, ◌>>=◌, close}
use go_tasks.Prelude.Tables.{select}
use go_tasks.Messaging.Database.{Message, MessageAck}

pub record UserSession : Type 0 where
  pub id : String
  pub message_chan : List Message
  pub done : Bool
  pub close_once : Bool

abbrev pub message_capacity : ℕ
message_capacity = 30

unfoldable pub new_user_session : String → UserSession
new_user_session uuid = record { id = uuid; message_chan = []; done = false; close_once = false }

-- `s.closeOnce.Do(func() { close(s.done) })`
unfoldable pub close_session : UserSession → Outcome UserSession
close_session s =
    if s.close_once
    then ok s
    else do closed ← close s.done; ok (record s { done = closed; close_once = true })

-- The `select` of `Publish`. Where the session is closed and its buffer has room, two cases are
-- ready and the runtime takes either: `pick` is its choice.
unfoldable pub offer : Bool → Message → UserSession → Outcome UserSession
unfolding close_session
offer pick message s =
    let room = ltb (length s.message_chan) message_capacity in
    if room && (not s.done || pick)
    then ok (record s { message_chan = s.message_chan ++ message ∷ [] })
    else if s.done
    then ok s
    else close_session s

-- The stream's receive from the channel: the oldest message, if there is one.
unfoldable pub receive : UserSession → Option (Message × UserSession)
receive s = elim s.message_chan [
  | [] ↦ none
  | m ∷ rest ↦ some (m, record s { message_chan = rest })
]

pub record Broker : Type 0 where
  pub sessions : Map (List String)
  pub heap : Map UserSession

unfoldable pub new_broker : Broker
new_broker = record { sessions = []; heap = [] }

abbrev or_nil : Option (List String) → List String
or_nil none = []
or_nil (some ids) = ids

-- `b.sessions[userId]`
abbrev pub sessions_of : String → Broker → List String
sessions_of user_id b = or_nil (lookup user_id b.sessions)

-- The fresh id is an argument.
unfoldable pub subscribe : String → String → Broker → Broker
unfolding new_user_session
subscribe user_id uuid b = record {
  sessions = insert user_id (sessions_of user_id b ++ uuid ∷ []) b.sessions;
  heap = insert uuid (new_user_session uuid) b.heap;
}

abbrev pub without : String → List String → List String
without target ids = select (λ i. not (str_eq i target)) ids

-- A filtered list is put back, or the entry dropped if nothing is left.
abbrev put_back : String → List String → Broker → Broker
put_back user_id [] b = record b { sessions = delete user_id b.sessions }
put_back user_id (i ∷ ids) b = record b { sessions = insert user_id (i ∷ ids) b.sessions }

unfoldable pub unsubscribe : String → String → Broker → Broker
unsubscribe user_id target b = elim (lookup user_id b.sessions) [
  | none ↦ b
  | some user_sessions ↦ put_back user_id (without target user_sessions) b
]

-- The sessions that `Publish` collects under the read lock.
unfoldable pub targets : List MessageAck → Broker → List String
targets [] b = []
targets (a ∷ acks) b = sessions_of a.user_id b ++ targets acks b

-- One round of the broadcast. `pick` is the runtime's choice for each session.
unfoldable pub offer_to : (String → Bool) → Message → String → Broker → Outcome Broker
unfolding offer
offer_to pick message id b = elim (lookup id b.heap) [
  | none ↦ ok b
  | some s ↦ do s' ← offer (pick id) message s; ok (record b { heap = insert id s' b.heap })
]

unfoldable pub broadcast : (String → Bool) → Message → List String → Broker → Outcome Broker
unfolding offer_to
broadcast pick message [] b = ok b
broadcast pick message (id ∷ ids) b = do
  b' ← offer_to pick message id b
  broadcast pick message ids b'

unfoldable pub publish : (String → Bool) → Message → List MessageAck → Broker → Outcome Broker
unfolding targets broadcast
publish pick message acks b = broadcast pick message (targets acks b) b
