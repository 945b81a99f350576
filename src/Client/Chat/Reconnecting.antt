-- ===== src/Client/Chat/Reconnecting.antt =====
-- How the screen of a chat gets its stream (semestral/internal/client/tui/models/chat_model.go): the
-- commands and the messages that follow each other, for the answers that the server gives in turn.
use go_tasks.Prelude.{
  ap, inl, inr, Bool-cases, ℕ, ◌+◌, ◌≤◌, ◌≡◌, refl, true, false, some, List, [], ◌∷◌, ◌++◌, length,
  leb, arith,
}
use go_tasks.Client.Requests.{CallError, nil, plain, status, is_retriable}
use go_tasks.Client.Chat.{
  Screen, NetworkMsg, subscription_error, reconnect, fatal, subscribe, recv_message, reconnect_now,
  raise, Next, stays, on_network, on_subscription_error, on_reconnect, cancel,
}
use go_tasks.Client.Chat.Commands.{subscribe_cmd, answer_subscribe}

pub data Connection (I : Type 0) : Type 0 where
  established gave_up : Screen I → Connection I
  unanswered stuck : Connection I

abbrev pub AllRetriable : List CallError → Type 0
AllRetriable [] = Unit
AllRetriable (err ∷ errs) = (is_retriable err ≡ true) × AllRetriable errs

module _ {I : Type 0} where
  abbrev pub resubscribe : (Screen I → Connection I) → Next I → Connection I
  resubscribe later (stays s (subscribe delay ∷ [])) = later s
  resubscribe later (stays s (raise (fatal r) ∷ [])) = gave_up s
  resubscribe later _ = stuck

  abbrev pub follow : (Screen I → Connection I) → Next I → Connection I
  follow later (stays s (recv_message ∷ [])) = established s
  follow later (stays s (reconnect_now ∷ [])) =
      resubscribe later (on_network (reconnect s.stream_retry_count) s)
  follow later (stays s (raise (fatal r) ∷ [])) = gave_up s
  follow later _ = stuck

  abbrev pub deliver_msg : (Screen I → Connection I) → Screen I × NetworkMsg → Connection I
  deliver_msg later (s, msg) = follow later (on_network msg s)

  -- `subscribe`, and what follows until the stream stands or a fatal error is raised.
  abbrev pub connect : List CallError → Screen I → Connection I
  connect [] s = unanswered
  connect (answer ∷ answers) s = deliver_msg (connect answers) (subscribe_cmd answer s)

  -- The screen behind one more call to `Subscribe`.
  abbrev called : Screen I → Screen I
  called s = record s {
    cancelled = (cancel s).cancelled;
    subscribed = s.subscribed + 1;
    cancel_stream = some s.subscribed;
  }

  abbrev retried : Screen I → Screen I
  retried s = record (called s) { stream_retry_count = s.stream_retry_count + 1 }

  deliver_error :
      (later : Screen I → Connection I) (err : CallError) (s : Screen I)
      → is_retriable err ≡ true
      → leb 5 s.stream_retry_count ≡ false
      → deliver_msg later (called s, subscription_error err) ≡ later (retried s)
  unfolding on_network on_subscription_error on_reconnect
  deliver_error later err s r n = rw (r, n) refl

  connect_error :
      (err : CallError) (answers : List CallError) (s : Screen I)
      → is_retriable err ≡ true
      → leb 5 s.stream_retry_count ≡ false
      → connect (err ∷ answers) s ≡ connect answers (retried s)
  unfolding subscribe_cmd answer_subscribe is_retriable
  connect_error nil answers s r n = ground arith
  connect_error plain answers s r n = deliver_error (connect answers) plain s r n
  connect_error (status code) answers s r n = deliver_error (connect answers) (status code) s r n

  -- What the answers decide: a stream of the context that is live, or no stream, in both cases after
  -- so many calls at most.
  abbrev pub Decided : ℕ → Connection I → Type 0
  Decided calls (established s) =
      (s.message_stream ≡ s.cancel_stream) × (s.stream_retry_count ≡ 0) × (s.subscribed ≤ calls)
  Decided calls (gave_up s) = s.subscribed ≤ calls
  Decided calls _ = ⊥

  error-Decided :
      (later : Screen I → Connection I) (err : CallError) (s : Screen I) (calls : ℕ)
      → s.subscribed + 1 ≤ calls
      → (leb 5 s.stream_retry_count ≡ false → Decided calls (later (retried s)))
      → Decided calls (deliver_msg later (called s, subscription_error err))
  unfolding on_network on_subscription_error on_reconnect
  error-Decided later err s calls h k = elim (Bool-cases (is_retriable err)) [
    | inr r ↦ rw r h
    | inl r ↦ elim (Bool-cases (leb 5 s.stream_retry_count)) [
      | inl n ↦ rw (r, n) h
      | inr n ↦ rw (r, n) (k n)
    ]
  ]

  connect-Decided :
      (answers : List CallError) (s : Screen I) (calls : ℕ)
      → s.stream_retry_count ≤ 5
      → 6 ≤ length answers + s.stream_retry_count
      → s.subscribed + 6 ≤ calls + s.stream_retry_count
      → Decided calls (connect answers s)
  unfolding subscribe_cmd answer_subscribe on_network
  connect-Decided [] s calls c l b = absurd (omega arith)
  connect-Decided (nil ∷ answers) s calls c l b = (refl, refl, omega arith)
  connect-Decided (plain ∷ answers) s calls c l b =
      error-Decided (connect answers) plain s calls (omega arith)
        (λ n. connect-Decided answers (retried s) calls (ground arith) (omega arith) (omega arith))
  connect-Decided (status code ∷ answers) s calls c l b =
      error-Decided (connect answers) (status code) s calls (omega arith)
        (λ n. connect-Decided answers (retried s) calls (ground arith) (omega arith) (omega arith))

  -- From a count of retries of 0, six answers to `Subscribe` are enough: whatever they are, the
  -- screen comes to a stream, or to a fatal error, behind at most six calls. The stream is that of
  -- the context made last, and it sets the count back to 0.
  pub connect_ends :
      (answers : List CallError) (s : Screen I)
      → s.stream_retry_count ≡ 0
      → 6 ≤ length answers
      → Decided (s.subscribed + 6) (connect answers s)
  connect_ends answers s z l =
      connect-Decided answers s (s.subscribed + 6) (omega arith) (omega arith) (omega arith)

  abbrev pub Recovered : ℕ → Connection I → Type 0
  Recovered ctx r =
      (s' : Screen I) × (r ≡ established s')
      × (s'.message_stream ≡ some ctx)
      × (s'.cancel_stream ≡ some ctx)
      × (s'.stream_retry_count ≡ 0)
      × (s'.subscribed ≡ ctx + 1)

  recovers :
      (errs rest : List CallError) (s : Screen I) (ctx : ℕ)
      → AllRetriable errs
      → length errs + s.stream_retry_count ≤ 5
      → ctx ≡ s.subscribed + length errs
      → Recovered ctx (connect (errs ++ nil ∷ rest) s)
  unfolding subscribe_cmd answer_subscribe on_network
  recovers [] rest s ctx h l e =
      (_, refl, ap some (omega arith), ap some (omega arith), refl, omega arith)
  recovers (err ∷ errs) rest s ctx (r, rs) l e =
      rw (connect_error err (errs ++ nil ∷ rest) s r (ground arith))
        (recovers errs rest (retried s) ctx rs (omega arith) (omega arith))

  -- Up to five errors in a row that may be retried do not end it: the call behind them that is
  -- answered gives the stream. Each call takes the next context, and the stream is that of the last.
  pub connect_recovers :
      (errs rest : List CallError) (s : Screen I)
      → s.stream_retry_count ≡ 0
      → AllRetriable errs
      → length errs ≤ 5
      → Recovered (s.subscribed + length errs) (connect (errs ++ nil ∷ rest) s)
  connect_recovers errs rest s z h l = recovers errs rest s _ h (omega arith) refl
