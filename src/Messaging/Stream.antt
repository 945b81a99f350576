-- ===== src/Messaging/Stream.antt =====
-- The `Subscribe` stream of semestral/internal/messaging/service.go: what it does, in order, on what
-- its `select` sees. The updates of the user status only log their errors. Logging is left out.
pub mod Delivery
pub mod Endings
use go_tasks.Prelude.{
  ℕ, zero, suc, ◌≡◌, String, Bool, true, false, Option, none, some, List, [], ◌∷◌, ◌++◌,
  if◌then◌else◌,
}
use go_tasks.Prelude.Outcome.{Failable, value, failure}
use go_tasks.Messaging.Database.{Db, Message}
use go_tasks.Messaging.Repository
use go_tasks.Messaging.Repository.{Fault}
use go_tasks.Messaging.Handler.{Code, internal}

-- `sets_status true` is ONLINE. `begins` and `ends` are the broker's `Subscribe` and `Unsubscribe`.
pub data Effect : Type 0 where
  sets_status : Bool → Effect
  begins : Effect
  sends : Message → Effect
  ends : Effect

-- What one round of the `select` sees: the session killed by the broker, a message of its channel,
-- the channel closed, or the client gone.
pub data Wake : Type 0 where
  killed : Wake
  message : Message → Wake
  chan_closed : Wake
  disconnected : Wake

-- How the call stands: still waiting, ended well, ended by a failed send, or refused.
pub data Ending : Type 0 where
  waiting returned send_failed : Ending
  refused : Code → Ending

-- The number of sends that work, or `none` if all do.
abbrev pub Budget : Type 0
Budget = Option ℕ

abbrev spend : Budget → Option Budget
spend none = some none
spend (some zero) = none
spend (some (suc n)) = some (some n)

-- `none` is a send that failed.
unfoldable pub send_all : List Message → Budget → List Effect × Option Budget
send_all [] b = ([], some b)
send_all (m ∷ ms) b = elim (spend b) [
  | none ↦ ([], none)
  | some b' ↦ let (es, r) = send_all ms b' in (sends m ∷ es, r)
]

-- `sendUndeliveredMessages`: what it sends, and what is left unless it fails.
unfoldable pub send_undelivered_messages :
    Fault → Budget → String → Db → List Effect × Option Budget
unfolding send_all
send_undelivered_messages fault budget user_id db =
    elim (Repository.get_undelivered_messages fault user_id db) [
      | failure e ↦ ([], none)
      | value messages ↦ send_all messages budget
    ]

unfoldable pub serve_session : List Wake → Budget → List Effect × Ending
serve_session [] b = ([], waiting)
serve_session (killed ∷ ws) b = ([], returned)
serve_session (chan_closed ∷ ws) b = ([], returned)
serve_session (disconnected ∷ ws) b = ([], returned)
serve_session (message m ∷ ws) b = elim (spend b) [
  | none ↦ ([], send_failed)
  | some b' ↦ let (es, r) = serve_session ws b' in (sends m ∷ es, r)
]

-- The deferred calls, last first.
abbrev deferred : Ending → List Effect
deferred waiting = []
deferred _ = ends ∷ sets_status false ∷ []

after_flush : List Wake → Option Budget → List Effect × Ending
after_flush ws none = ([], refused internal)
after_flush ws (some b) = serve_session ws b

unfoldable pub subscribe :
    Option String → Bool → Fault → Budget → List Wake → Db → List Effect × Ending
unfolding after_flush serve_session send_undelivered_messages
subscribe none is_invisible fault budget wakes db = ([], refused internal)
subscribe (some user_id) is_invisible fault budget wakes db =
    let (flushed, rest) = send_undelivered_messages fault budget user_id db in
    let (served, ending) = after_flush wakes rest in
    (
      (if is_invisible then [] else sets_status true ∷ [])
          ++ begins ∷ (flushed ++ (served ++ deferred ending)),
      ending,
    )
