-- ===== src/Logging/Logger/Delivery.antt =====
-- What arrives at the sinks of a logger (hw2/pkg/logging/logger.go and sink.go).
use go_tasks.Prelude.{
  ◌%◌, ◌≡◌, refl, sym, ap, ◌∙◌, true, false, List, [], ◌∷◌, map, length, ◌==◌, Bool-cases, inl, inr,
  if◌then◌else◌,
}
use go_tasks.Logging.Record.{LogRecord, new_log_record}
use go_tasks.Logging.Sink.{Sink, flush}
use go_tasks.Logging.Logger.{BaseLogger, Call, log, flush_all}

-- The calls one after the other.
abbrev pub log_all : List Call → BaseLogger → BaseLogger
log_all [] b = b
log_all (call ∷ calls) b = log_all calls (log call b)

-- The records of the calls whose data are pairs.
abbrev pub records : List Call → List LogRecord
records [] = []
records (call ∷ calls) =
    if length call.properties % 2 == 1
    then records calls
    else new_log_record call.message call.now call.level call.properties ∷ records calls

-- A sink alone.
abbrev pub flush_each : List LogRecord → Sink → Sink
flush_each [] sink = sink
flush_each (r ∷ rs) sink = flush_each rs (flush r sink).0

flush_all-map :
    (r : LogRecord) (sinks : List Sink)
    → (flush_all r sinks).0 ≡ map (λ sink. (flush r sink).0) sinks
unfolding flush_all
flush_all-map r [] = refl
flush_all-map r (sink ∷ sinks) = ap (λ rest. (flush r sink).0 ∷ rest) (flush_all-map r sinks)

map-map :
    (f g : Sink → Sink) (sinks : List Sink) → map g (map f sinks) ≡ map (λ sink. g (f sink)) sinks
map-map f g [] = refl
map-map f g (sink ∷ sinks) = ap (λ rest. g (f sink) ∷ rest) (map-map f g sinks)

map-id : (sinks : List Sink) → map (λ sink. sink) sinks ≡ sinks
map-id [] = refl
map-id (sink ∷ sinks) = ap (λ rest. sink ∷ rest) (map-id sinks)

log_odd :
    (call : Call) (b : BaseLogger)
    → length call.properties % 2 == 1 ≡ true
    → (log call b).sinks ≡ b.sinks
unfolding log
log_odd call b e = rw e refl

log_even :
    (call : Call) (b : BaseLogger)
    → length call.properties % 2 == 1 ≡ false
    → (log call b).sinks
      ≡ map
          (λ sink. (flush (new_log_record call.message call.now call.level call.properties) sink).0)
          b.sinks
unfolding log
log_even call b e = rw e (flush_all-map _ b.sinks)

-- Whatever fails, each sink ends as if it alone had been given the records of all well-formed calls,
-- in their order.
pub log_all-sinks :
    (calls : List Call) (b : BaseLogger)
    → (log_all calls b).sinks ≡ map (flush_each (records calls)) b.sinks
log_all-sinks [] b = sym (map-id b.sinks)
log_all-sinks (call ∷ calls) b = elim (Bool-cases (length call.properties % 2 == 1)) [
  | inl e ↦
      rw e (
        log_all-sinks calls (log call b) ∙ ap (map (flush_each (records calls))) (log_odd call b e))
  | inr e ↦ rw e (
      log_all-sinks calls (log call b)
      ∙ ap (map (flush_each (records calls))) (log_even call b e)
      ∙ map-map _ (flush_each (records calls)) b.sinks)
]
