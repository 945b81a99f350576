-- ===== src/Downloader/Task/Mixed.antt =====
-- The events of an execution mixed with those of its progress ticker
-- (hw3/pkg/downloader/download_task.go, tickProgress), and the record that they lead to.
use go_tasks.Prelude.{ℕ, ◌≡◌, refl, ◌∙◌, ap, subst, true, false, some, List, [], ◌∷◌, All, arith}
use go_tasks.Prelude.Int.{ℤ}
use go_tasks.Prelude.Outcome.{ok}
use go_tasks.Downloader.Record.{DownloadRecord, DownloadStatus, is_in_final_state}
use go_tasks.Downloader.Record.Lifecycle
use go_tasks.Downloader.Record.Lifecycle.{
  Call, starts, updates, cancels, fails, completes, run, first_verdict, run-Decided, verdict,
}
use go_tasks.Downloader.Event.{
  DownloadTask, DownloadEvent, new_download_update, DownloadEventType, Payload, FitsType,
}
use go_tasks.Downloader.Calls.{call_of, calls}
use go_tasks.Downloader.Task.{Io, execute}
use go_tasks.Downloader.Task.Trace.{
  Shape, IsOf, only, verdict_of, execute-Shape, status_of_execution,
}

-- Two goroutines send into one channel: each keeps its own order.
pub data Mix : List DownloadEvent → List DownloadEvent → List DownloadEvent → Type 0 where
  done : Mix [] [] []
  main :
      {xs ys zs : List DownloadEvent} (e : DownloadEvent) → Mix xs ys zs → Mix (e ∷ xs) ys (e ∷ zs)
  tick :
      {xs ys zs : List DownloadEvent} (e : DownloadEvent) → Mix xs ys zs → Mix xs (e ∷ ys) (e ∷ zs)

abbrev pub IsTick : DownloadTask → DownloadEvent → Type 0
IsTick t e = (n : ℤ) × (e ≡ new_download_update t n)

first_verdict-tick :
    (now : ℕ) (t : DownloadTask) (e : DownloadEvent) (es : List DownloadEvent)
    → IsTick t e
    → first_verdict (calls now (e ∷ es)) ≡ first_verdict (calls now es)
unfolding first_verdict new_download_update
first_verdict-tick now t e es (n, p) = ap (λ x. first_verdict (calls now (x ∷ es))) p

first_verdict-cons :
    (now : ℕ) (e : DownloadEvent) (xs ys : List DownloadEvent)
    → first_verdict (calls now xs) ≡ first_verdict (calls now ys)
    → first_verdict (calls now (e ∷ xs)) ≡ first_verdict (calls now (e ∷ ys))
unfolding first_verdict
first_verdict-cons now e xs ys h = ground arith

first_verdict-Mix :
    (now : ℕ) (t : DownloadTask) {xs ys zs : List DownloadEvent}
    → Mix xs ys zs
    → All (IsTick t) ys
    → first_verdict (calls now zs) ≡ first_verdict (calls now xs)
first_verdict-Mix now t done h = refl
first_verdict-Mix now t (main {xs} {ys} {zs} e m) h =
    first_verdict-cons now e zs xs (first_verdict-Mix now t m h)
first_verdict-Mix now t (tick {xs} {ys} {zs} e m) h =
    first_verdict-tick now t e zs h.0 ∙ first_verdict-Mix now t m h.1

-- The call that an event with a fitting value leads to.
call_of-settles :
    (ty : DownloadEventType) (p : Payload) (s : DownloadStatus)
    → FitsType ty p
    → verdict_of ty ≡ some s
    → (c : Call) × (call_of ty p ≡ some c) × (verdict c ≡ some s)
call_of-settles DownloadEventType.start p s (n, e) h = absurd (cc)
call_of-settles DownloadEventType.update p s (n, e) h = absurd (cc)
call_of-settles DownloadEventType.cancel p s f h = (cancels, refl, h)
call_of-settles DownloadEventType.error p s (x, e) h =
    (fails x, ap (call_of DownloadEventType.error) e, h)
call_of-settles DownloadEventType.complete p s (n, e) h =
    (completes n, ap (call_of DownloadEventType.complete) e, h)
call_of-settles (DownloadEventType.other x) p s f h = absurd (cc)

first_verdict-settles :
    (now : ℕ) (t : DownloadTask) (s : DownloadStatus) (e : DownloadEvent) (es : List DownloadEvent)
    → IsOf t e
    → verdict_of e.event_type ≡ some s
    → first_verdict (calls now (e ∷ es)) ≡ some (s, now)
unfolding first_verdict
first_verdict-settles now t s e es k h =
    let (c, e1, e2) = call_of-settles e.event_type e.payload s k.2 h in ground arith

first_verdict-start :
    (now : ℕ) (t : DownloadTask) (b : DownloadEvent) (es : List DownloadEvent)
    → IsOf t b
    → b.event_type ≡ DownloadEventType.start
    → first_verdict (calls now (b ∷ es)) ≡ first_verdict (calls now es)
unfolding first_verdict
first_verdict-start now t b es k h = ground arith

first_verdict-Shape :
    (now : ℕ) (t : DownloadTask) (s : DownloadStatus) (es : List DownloadEvent)
    → Shape t s es
    → first_verdict (calls now es) ≡ some (s, now)
first_verdict-Shape now t s es (only e p k h) =
    ap (λ x. first_verdict (calls now x)) p ∙ first_verdict-settles now t s e [] k h
first_verdict-Shape now t s es (Shape.started b e p kb hb k h) =
    ap (λ x. first_verdict (calls now x)) p
    ∙ first_verdict-start now t b (e ∷ []) kb hb
    ∙ first_verdict-settles now t s e [] k h

-- However the progress ticker's updates fall among the events of an execution, also after the last
-- of them, a record that is in no final state takes them all without a panic and ends in the final
-- state of the execution, with its channel closed.
pub execute_settles :
    (io : Io) (t : DownloadTask) (now : ℕ) (ticks zs : List DownloadEvent) (d : DownloadRecord)
    → Mix (execute io t).work.sent ticks zs
    → All (IsTick t) ticks
    → Lifecycle.Inv d
    → is_in_final_state d ≡ false
    → (d' : DownloadRecord) × (run (calls now zs) d ≡ ok d')
      × (d'.status ≡ status_of_execution io)
      × (d'.end_time ≡ now)
      × (d'.done ≡ true)
execute_settles io t now ticks zs d m h v f =
    let (d', e, k) = run-Decided (calls now zs) d v f in
    let first : first_verdict (calls now zs) ≡ some (status_of_execution io, now) =
      first_verdict-Mix now t m h
      ∙ first_verdict-Shape now t (status_of_execution io) _ (execute-Shape io t) in
    let k' : Lifecycle.Decided (some (status_of_execution io, now)) d' =
      subst (λ o. Lifecycle.Decided o d') first k in
    (d', e, k'.0, k'.1, k'.2)
