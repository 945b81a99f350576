-- ===== src/Downloader/Calls.antt =====
-- Which method of the record an event of a task leads to (handleDownloadEvent of
-- hw3/pkg/downloader/downloader.go).
use go_tasks.Prelude.{ℕ, Option, none, some, List, [], ◌∷◌}
use go_tasks.Downloader.Event.{DownloadEvent, DownloadEventType, Payload, int64}
use go_tasks.Downloader.Record.Lifecycle.{Call, starts, updates, cancels, fails, completes}

abbrev pub call_of : DownloadEventType → Payload → Option Call
call_of DownloadEventType.start (int64 n) = some (starts n)
call_of DownloadEventType.update (int64 n) = some (updates n)
call_of DownloadEventType.complete (int64 n) = some (completes n)
call_of DownloadEventType.error (Payload.error e) = some (fails e)
call_of DownloadEventType.cancel p = some cancels
call_of _ _ = none

-- The calls of a list of events that are handled at one time.
abbrev pub calls : ℕ → List DownloadEvent → List (ℕ × Call)
calls now [] = []
calls now (e ∷ es) = elim (call_of e.event_type e.payload) [
  | none ↦ calls now es
  | some c ↦ (now, c) ∷ calls now es
]
