-- ===== src/Downloader/Core/System.antt =====
-- The manager of hw3/pkg/downloader/downloader.go with the goroutines that are between two of their
-- steps: the event loop, the callers of `SubmitDownload` and those of `CancelDownload`. What one lock
-- covers is a step, so that these goroutines interleave as they do in the program.
pub mod Stores
pub mod Changes
pub mod Held
pub mod Invariant
pub mod Loop
pub mod Submitting
pub mod Reached
pub mod Promises
use mathlib.Core.List.{Memᴰ}
use go_tasks.Prelude.{ℕ, ◌≡◌, ◌≢◌, String, Option, none, some, List, [], ◌∷◌, if◌then◌else◌}
use go_tasks.Prelude.Maps.{Map, lookup, insert, delete}
use go_tasks.Prelude.Outcome.{Outcome, ok, ◌>>=◌, Failable, value, failure, Err}
use go_tasks.Downloader.Record.{DownloadRecord}
use go_tasks.Downloader.Event.{DownloadTask, DownloadEvent, new_external_download_error}
use go_tasks.Downloader.Downloads
use go_tasks.Downloader.Core.{
  Downloader, new_downloader, broadcast_public, ends_task, leave_tasks, call_record, send_event,
  add_task, add_record, new_submission, find_task, cancel_task, subscribe, shutdown_refuse,
  shutdown_drain, shutdown_grace_expired, shutdown_finish,
}
use go_tasks.Downloader.Core.Invariant.{IsGenuine, entries_of, downloads_of}

-- A submission whose task is stored and whose record is not yet.
pub record Submission : Type 0 where
  pub task : DownloadTask
  pub download : DownloadRecord

-- `settling` is the event whose task has left the store, if the event loop has still to call its
-- record. `submitting` has the submissions under the ids of their tasks, and `looked_up` the id of a
-- task and of its download for each look of `CancelDownload` at a record.
pub record System : Type 0 where
  pub manager : Downloader
  pub settling : Option DownloadEvent
  pub submitting : Map Submission
  pub looked_up : List (String × String)

unfoldable pub new_system : String → ℕ → System
unfolding new_downloader
new_system user_agent interval = record {
  manager = new_downloader user_agent interval;
  settling = none;
  submitting = [];
  looked_up = [];
}

-- The download whose task has left the store and whose record is still to be called.
abbrev pub busy_of : Option DownloadEvent → Option String
busy_of none = none
busy_of (some e) = if ends_task e.event_type then some e.download_id else none

-- The event loop takes an event, looks up its record, and takes the task out of its store if the event
-- ends it. The first two change no store, and a record once found stays where it is.
unfoldable pub take_event : DownloadEvent → List DownloadEvent → System → Outcome System
unfolding broadcast_public leave_tasks
take_event event rest s =
    let d = record (s.manager) { events_chan = rest } in
    elim (Downloads.get event.download_id d.downloads_store) [
      | failure err ↦ ok (record s {
        manager = broadcast_public (new_external_download_error event.download_id err) d;
      })
      | value download ↦ do
        d' ← leave_tasks event.event_type event d
        ok (record s { manager = d'; settling = some event })
    ]

-- Then it calls the record, which is never dropped from the store.
unfoldable pub settle_event : ℕ → DownloadEvent → System → Outcome System
unfolding call_record
settle_event now event s = elim (Downloads.get event.download_id s.manager.downloads_store) [
  | failure err ↦ ok (record s { settling = none })
  | value download ↦ do
    d' ← call_record event.event_type now event download s.manager
    ok (record s { manager = d'; settling = none })
]

-- The next step of the event loop; with no event it waits.
unfoldable pub event_loop_step : ℕ → System → Outcome System
unfolding take_event settle_event
event_loop_step now s = elim s.settling [
  | some event ↦ settle_event now event s
  | none ↦ elim s.manager.events_chan [ [] ↦ ok s | event ∷ rest ↦ take_event event rest s ]
]

-- What fresh UUIDs give: neither is in use, in a store or by a goroutine.
pub record Fresh (s : System) (download_uuid task_uuid : String) : Type 0 where
  pub new_download : lookup download_uuid (downloads_of s.manager) ≡ none
  pub new_task : lookup task_uuid (entries_of s.manager) ≡ none
  pub named : task_uuid ≢ ""
  pub no_record :
      (id : String) (r : DownloadRecord)
      → lookup id (downloads_of s.manager) ≡ some r
      → r.task_id ≢ task_uuid
  pub not_started :
      (t : DownloadTask)
      → Memᴰ t s.manager.running
      → (t.id ≢ task_uuid) × (t.download_id ≢ download_uuid)
  pub not_submitting :
      (tid : String) (x : Submission)
      → lookup tid s.submitting ≡ some x
      → (tid ≢ task_uuid) × (x.task.download_id ≢ download_uuid)
  pub not_looked_up :
      (p : String × String) → Memᴰ p s.looked_up → (p.0 ≢ task_uuid) × (p.1 ≢ download_uuid)

abbrev pub with_manager : Downloader → System → System
with_manager d s = record s { manager = d }

module _ (now : ℕ) (du tu url destination : String) where
  abbrev pub task_of : DownloadTask
  task_of = (new_submission now du tu url destination).0

  abbrev pub submission_of : Submission
  submission_of = record { task = task_of; download = (new_submission now du tu url destination).1 }

-- A step of a caller, of a task's goroutine, of the event loop or of `Shutdown`. A caller of
-- `SubmitDownload` may have looked at `shuttingDown` long before.
pub data Step (s : System) : System → Type 0 where
  adds :
      (now : ℕ) (du tu url destination : String) (d : Downloader)
      → Fresh s du tu
      → add_task (task_of now du tu url destination) s.manager ≡ (d, none)
      → Step s (record s {
        manager = d;
        submitting = insert tu (submission_of now du tu url destination) s.submitting;
      })
  refuses :
      (task : DownloadTask) (d : Downloader) (err : Err)
      → add_task task s.manager ≡ (d, some err)
      → Step s (with_manager d s)
  stores :
      (tid : String) (x : Submission) (d : Downloader) (r : Failable String)
      → lookup tid s.submitting ≡ some x
      → add_record x.task x.download s.manager ≡ ok (d, r)
      → Step s (record s { manager = d; submitting = delete tid s.submitting })
  sends :
      (e : DownloadEvent) (d : Downloader)
      → IsGenuine s.manager.running e
      → send_event e s.manager ≡ some d
      → Step s (with_manager d s)
  loops : (now : ℕ) (s' : System) → event_loop_step now s ≡ ok s' → Step s s'
  looks :
      (id tid : String)
      → find_task id s.manager ≡ value tid
      → Step s (record s { looked_up = (tid, id) ∷ s.looked_up })
  cancels : (tid : String) → Step s (with_manager (cancel_task tid s.manager).0 s)
  subscribes : Step s (with_manager (subscribe s.manager).0 s)
  shuts : Step s (with_manager (shutdown_refuse s.manager) s)
  drains : (d : Downloader) → shutdown_drain s.manager ≡ ok d → Step s (with_manager d s)
  expires : Step s (with_manager (shutdown_grace_expired s.manager) s)
  finishes : (d : Downloader) → shutdown_finish s.manager ≡ ok d → Step s (with_manager d s)

pub data Reach : System → Type 0 where
  begin : (user_agent : String) (interval : ℕ) → Reach (new_system user_agent interval)
  next : {s s' : System} → Reach s → Step s s' → Reach s'
