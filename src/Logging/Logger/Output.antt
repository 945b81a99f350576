-- ===== src/Logging/Logger/Output.antt =====
-- The output of a sink that works, alone and among others (hw2/pkg/logging).
use mathlib.Core.List.{append_assoc, append-nil}
use go_tasks.Prelude.{
  ℕ, zero, suc, ◌≡◌, refl, sym, ap, ◌∙◌, String, none, List, [], ◌∷◌, ◌++◌, map, ltb, Bool-cases,
  inl, inr, if◌then◌else◌,
}
use go_tasks.Prelude.Text.{concat}
use go_tasks.Prelude.Outcome.{value}
use go_tasks.Logging.Record.{LogRecord, LogLevel}
use go_tasks.Logging.Sink.{
  Sink, Appender, AppenderKind, console, file, flush, append, append_as, write,
}
use go_tasks.Logging.Logger.{BaseLogger, Call}
use go_tasks.Logging.Logger.Delivery.{log_all, records, flush_each, log_all-sinks}

-- What one record adds to the output of a sink.
abbrev pub lines_of : AppenderKind → String → List String
lines_of console text = concat text "\n" ∷ []
lines_of file text = text ∷ "\n" ∷ []

-- The output for the records of at least the level of the sink.
abbrev pub output : (LogRecord → String) → AppenderKind → LogLevel → List LogRecord → List String
output format kind level [] = []
output format kind level (r ∷ rs) =
    if ltb r.level level
    then output format kind level rs
    else lines_of kind (format r) ++ output format kind level rs

-- A sink that formats every record and whose writes do not fail.
pub record Works (format : LogRecord → String) (sink : Sink) : Type 0 where
  pub formats : (r : LogRecord) → sink.formatter r ≡ value (format r)
  pub writes : (n : ℕ) → sink.appender.fault n ≡ none

after_write : String → Appender → Appender
after_write text a = record a { writes = suc a.writes; written = a.written ++ text ∷ [] }

write-works :
    (text : String) (a : Appender)
    → ((n : ℕ) → a.fault n ≡ none)
    → write text a ≡ (after_write text a, none)
unfolding write after_write
write-works text a h = rw (write, h a.writes) refl

append_as-written :
    (kind : AppenderKind) (text : String) (a : Appender)
    → ((n : ℕ) → a.fault n ≡ none)
    → ((append_as kind text a).0.written ≡ a.written ++ lines_of kind text)
      × ((append_as kind text a).0.kind ≡ a.kind)
      × ((append_as kind text a).0.fault ≡ a.fault)
unfolding append_as
append_as-written console text a h =
    rw (append_as, write-works (concat text "\n") a h) (unfold after_write in (refl, refl, refl))
append_as-written file text a h =
    rw
      (
        append_as,
        write-works text a h,
        write-works text a h,
        write-works "\n" (after_write text a) (unfold after_write in h),
      )
      (unfold after_write in (append_assoc a.written (text ∷ []) ("\n" ∷ []), refl, refl))

flush-output :
    (format : LogRecord → String) (r : LogRecord) (sink : Sink)
    → Works format sink
    → ((flush r sink).0.appender.written
        ≡ sink.appender.written ++ output format sink.appender.kind sink.level (r ∷ []))
      × ((flush r sink).0.appender.kind ≡ sink.appender.kind)
      × ((flush r sink).0.level ≡ sink.level)
      × Works format (flush r sink).0
unfolding flush append
flush-output format r sink w = elim (Bool-cases (ltb r.level sink.level)) [
  | inl e ↦ rw e (sym (append-nil sink.appender.written), refl, refl, w)
  | inr e ↦
      let (kept, same, faultless) =
        append_as-written sink.appender.kind (format r) sink.appender w.writes in
      rw (e, w.formats r, append-nil (lines_of sink.appender.kind (format r)))
        (
          kept,
          same,
          refl,
          record { formats = w.formats; writes = λ n. ap (λ f. f n) faultless ∙ w.writes n },
        )
]

output-cons :
    (format : LogRecord → String) (kind : AppenderKind) (level : LogLevel) (r : LogRecord)
    (rs : List LogRecord)
    → output format kind level (r ∷ rs)
      ≡ output format kind level (r ∷ []) ++ output format kind level rs
output-cons format kind level r rs = elim (Bool-cases (ltb r.level level)) [
  | inl e ↦ rw e refl
  | inr e ↦ rw (e, append-nil (lines_of kind (format r))) refl
]

flush_each-output :
    (format : LogRecord → String) (rs : List LogRecord) (sink : Sink)
    → Works format sink
    → (flush_each rs sink).appender.written
      ≡ sink.appender.written ++ output format sink.appender.kind sink.level rs
flush_each-output format [] sink w = sym (append-nil sink.appender.written)
flush_each-output format (r ∷ rs) sink w =
    let (kept, same_kind, same_level, w') = flush-output format r sink w in
    let later = flush_each-output format rs (flush r sink).0 w' in
    rw (kept, same_kind, same_level) at later
    ∙ append_assoc sink.appender.written _ _
    ∙ ap (λ out. sink.appender.written ++ out)
        (sym (output-cons format sink.appender.kind sink.level r rs))

-- Where a sink stands among the sinks of a logger.
pub data Stands (sink : Sink) : ℕ → List Sink → Type 0 where
  here : {sinks : List Sink} → Stands sink zero (sink ∷ sinks)
  behind :
      {n : ℕ} {other : Sink} {sinks : List Sink}
      → Stands sink n sinks
      → Stands sink (suc n) (other ∷ sinks)

Stands-map :
    (f : Sink → Sink) {sink : Sink} {n : ℕ} {sinks : List Sink}
    → Stands sink n sinks
    → Stands (f sink) n (map f sinks)
Stands-map f here = here
Stands-map f (behind there) = behind (Stands-map f there)

-- After any calls of a logger, each sink that formats every record and whose writes do not fail has
-- added exactly the texts of the records of at least its level, in the order of the calls, each
-- closed by a line feed. A call whose data are no pairs gives no record, and what fails at another
-- sink changes nothing.
pub log_all-delivers :
    (format : LogRecord → String) (calls : List Call) (b : BaseLogger) (n : ℕ) (sink : Sink)
    → Stands sink n b.sinks
    → Works format sink
    → (sink' : Sink) × Stands sink' n (log_all calls b).sinks
      × (sink'.appender.written
          ≡ sink.appender.written ++ output format sink.appender.kind sink.level (records calls))
log_all-delivers format calls b n sink there w = (
  flush_each (records calls) sink,
  rw (log_all-sinks calls b) (Stands-map (flush_each (records calls)) there),
  flush_each-output format (records calls) sink w,
)
