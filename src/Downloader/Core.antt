-- ===== src/Downloader/Core.antt =====
-- hw3/pkg/downloader/downloader.go. The channels, the running tasks and the cancelled contexts are
-- fields of the state. What one lock covers is a function of its own: System runs these as steps of
-- their own, and a method is their composition. Logging is left out.
pub mod Links
pub mod Linked
pub mod Invariant
pub mod EventLoop
pub mod Submit
pub mod Sequential
pub mod System
use go_tasks.Prelude.{
  ℕ, ◌+◌, ◌-◌, ◌/◌, ◌≡◌, String, Bool, true, false, ◌&&◌, Option, none, some, List, [], ◌∷◌, ◌++◌,
  map, ltb, length, if◌then◌else◌,
}
use go_tasks.Prelude.Int.{ℤ, pos, negsuc}
use go_tasks.Prelude.Maps.{Map, lookup, insert, delete, values}
use go_tasks.Prelude.Outcome.{Outcome, ok, panic, ◌>>=◌, close, Failable, value, failure, Err}
use go_tasks.Downloader.Record.{
  DownloadRecord, DownloadView, new_download_record, set_task_id, detached_view, start,
  set_bytes_downloaded, cancel, fail, complete,
}
use go_tasks.Downloader.Event.{
  DownloadTask, new_download_task, DownloadEvent, DownloadEventType, event_int64, event_error,
  ExternalDownloadEvent, new_external_download_start, new_external_download_cancel,
  new_external_download_complete, new_external_download_error,
}
use go_tasks.Downloader.Tasks
use go_tasks.Downloader.Tasks.{TasksStore, TaskEntry, new_tasks_store, new_task_entry}
use go_tasks.Downloader.Downloads
use go_tasks.Downloader.Downloads.{DownloadsStore, new_downloads_store}

-- `running` lists the tasks whose goroutine was started, and `cancelled` the contexts whose cancel
-- function was called.
pub record Downloader : Type 0 where
  pub user_agent : String
  pub status_update_interval : ℕ
  pub download_tasks : TasksStore
  pub downloads_store : DownloadsStore
  pub events_chan : List DownloadEvent
  pub subscribers : List (List ExternalDownloadEvent)
  pub shutdown_chan : Bool
  pub shutting_down : Bool
  pub running : List DownloadTask
  pub cancelled : List String

unfoldable pub new_downloader : String → ℕ → Downloader
unfolding new_tasks_store new_downloads_store
new_downloader user_agent status_update_interval = record {
  user_agent = user_agent;
  status_update_interval = status_update_interval;
  download_tasks = new_tasks_store;
  downloads_store = new_downloads_store;
  events_chan = [];
  subscribers = [];
  shutdown_chan = false;
  shutting_down = false;
  running = [];
  cancelled = [];
}

-- In milliseconds.
unfoldable pub new_default_downloader : Downloader
unfolding new_downloader
new_default_downloader = new_downloader "BOT FIT/CTU (student project)" 200

abbrev pub subscriber_capacity : ℕ
subscriber_capacity = 10

-- A send under `select` with a default: it is dropped where the buffer is full.
unfoldable pub offer :
    ExternalDownloadEvent → List ExternalDownloadEvent → List ExternalDownloadEvent
offer e sub = if ltb (length sub) subscriber_capacity then sub ++ e ∷ [] else sub

unfoldable pub broadcast_public : ExternalDownloadEvent → Downloader → Downloader
broadcast_public e d = record d { subscribers = map (offer e) d.subscribers }

-- The index of the new channel.
unfoldable pub subscribe : Downloader → Downloader × ℕ
subscribe d = (record d { subscribers = d.subscribers ++ [] ∷ [] }, length d.subscribers)

-- The entry is dropped, and its context is cancelled if asked for.
unfoldable pub handle_task_removal : DownloadEvent → Bool → Downloader → Outcome Downloader
handle_task_removal event with_cancel d = do
  (tasks, found) ← Tasks.remove event.task_id d.download_tasks
  elim found [
    | failure _ ↦ ok (record d { download_tasks = tasks })
    | value entry ↦ ok (record d {
      download_tasks = tasks;
      cancelled = if with_cancel then entry.cancel ∷ d.cancelled else d.cancelled;
    })
  ]

-- Writes through the pointer to the record of the event's download.
abbrev pub store_download : String → DownloadRecord → Downloader → Downloader
store_download id r d = record d {
  downloads_store = record { downloads = insert id r d.downloads_store.downloads };
}

-- Whether an event of the kind ends its task.
abbrev pub ends_task : DownloadEventType → Bool
ends_task DownloadEventType.cancel = true
ends_task DownloadEventType.error = true
ends_task DownloadEventType.complete = true
ends_task _ = false

-- `handleDownloadEvent` up to the call on the record: the task leaves the task store.
unfoldable pub leave_tasks : DownloadEventType → DownloadEvent → Downloader → Outcome Downloader
leave_tasks DownloadEventType.cancel event d = handle_task_removal event false d
leave_tasks DownloadEventType.error event d = handle_task_removal event true d
leave_tasks DownloadEventType.complete event d = handle_task_removal event true d
leave_tasks _ event d = ok d

-- The rest of it: the call on the record, and the broadcast.
unfoldable pub call_record :
    DownloadEventType → ℕ → DownloadEvent → DownloadRecord → Downloader → Outcome Downloader
call_record DownloadEventType.start now event download d = do
  n ← event_int64 event
  ok (
      broadcast_public (new_external_download_start event.download_id n)
        (store_download event.download_id (start now n download) d))
call_record DownloadEventType.update now event download d = do
  n ← event_int64 event
  ok (store_download event.download_id (set_bytes_downloaded n download) d)
call_record DownloadEventType.cancel now event download d = do
  download' ← cancel now download
  ok (
      broadcast_public (new_external_download_cancel event.download_id)
        (store_download event.download_id download' d))
call_record DownloadEventType.error now event download d = do
  e ← event_error event
  download' ← fail now e download
  ok (
      broadcast_public (new_external_download_error event.download_id e)
        (store_download event.download_id download' d))
call_record DownloadEventType.complete now event download d = do
  n ← event_int64 event
  download' ← complete now n download
  ok (
      broadcast_public (new_external_download_complete event.download_id n)
        (store_download event.download_id download' d))
call_record (DownloadEventType.other s) now event download d = ok d

-- Both parts, where nothing comes between them.
unfoldable pub handle_download_event :
    ℕ → DownloadEvent → DownloadRecord → Downloader → Outcome Downloader
unfolding leave_tasks call_record
handle_download_event now event download d = do
  d' ← leave_tasks event.event_type event d
  call_record event.event_type now event download d'

-- One round of the event loop, with the event that it received.
unfoldable pub on_event : ℕ → DownloadEvent → Downloader → Outcome Downloader
on_event now event d = elim (Downloads.get event.download_id d.downloads_store) [
  | failure err ↦ ok (broadcast_public (new_external_download_error event.download_id err) d)
  | value download ↦ handle_download_event now event download d
]

abbrev pub events_capacity : ℕ
events_capacity = 10

-- A task's send of an event; `none` where the buffer is full and the sender waits.
unfoldable pub send_event : DownloadEvent → Downloader → Option Downloader
send_event e d =
    if ltb (length d.events_chan) events_capacity
    then some (record d { events_chan = d.events_chan ++ e ∷ [] })
    else none

-- `SubmitDownload` after its look at `shuttingDown`: the task is stored.
unfoldable pub add_task : DownloadTask → Downloader → Downloader × Option Err
add_task task d =
    let (tasks, err) = Tasks.add (new_task_entry task task.id) d.download_tasks in
    elim err [
      | some e ↦ (record d { download_tasks = tasks; cancelled = task.id ∷ d.cancelled }, some e)
      | none ↦ (record d { download_tasks = tasks }, none)
    ]

-- Then the record is stored and the task started; if that fails the task is taken back.
unfoldable pub add_record :
    DownloadTask → DownloadRecord → Downloader → Outcome (Downloader × Failable String)
add_record task download d =
    let (downloads, store_err) = Downloads.add download d.downloads_store in
    elim store_err [
      | some err ↦ do
        (tasks, _) ← Tasks.remove task.id d.download_tasks
        ok (record d { download_tasks = tasks; cancelled = task.id ∷ d.cancelled }, failure err)
      | none ↦
          ok (
            record d { downloads_store = downloads; running = task ∷ d.running },
            value download.id,
          )
    ]

-- The record and the task of a submission, under two fresh ids.
unfoldable pub new_submission :
    ℕ → String → String → String → String → DownloadTask × DownloadRecord
new_submission now download_uuid task_uuid url destination =
    let download = new_download_record download_uuid now url destination in
    let task = new_download_task task_uuid download.id url destination in
    (task, set_task_id task.id download)

-- The new state, and the id or the error, where nothing comes between the parts.
unfoldable pub submit_download :
    ℕ → String → String → String → String → Downloader → Outcome (Downloader × Failable String)
unfolding add_task add_record new_submission
submit_download now download_uuid task_uuid url destination d =
    let (task, download) = new_submission now download_uuid task_uuid url destination in
    let (d', add_err) = add_task task d in
    if d.shutting_down
    then ok (d, failure "downloader is shutting down")
    else elim add_err [ some err ↦ ok (d', failure err) | none ↦ add_record task download d' ]

unfoldable pub get_download : String → Downloader → Failable DownloadView
get_download id d = elim (Downloads.get id d.downloads_store) [
  | failure err ↦ failure err
  | value download ↦ value (detached_view download)
]

-- `CancelDownload` up to its look into the task store: the id of the task.
unfoldable pub find_task : String → Downloader → Failable String
find_task id d = elim (Downloads.get id d.downloads_store) [
  | failure err ↦ failure err
  | value download ↦ value download.task_id
]

-- The rest of it.
unfoldable pub cancel_task : String → Downloader → Downloader × Option Err
cancel_task task_id d = elim (Tasks.get task_id d.download_tasks) [
  | failure _ ↦ (d, some "download is not cancellable anymore")
  | value entry ↦ (record d { cancelled = entry.cancel ∷ d.cancelled }, none)
]

unfoldable pub cancel_download : String → Downloader → Downloader × Option Err
unfolding find_task cancel_task
cancel_download id d = elim (find_task id d) [
  | failure err ↦ (d, some err)
  | value task_id ↦ cancel_task task_id d
]

-- Whether the channel is closed.
unfoldable pub get_completion_chan : String → Downloader → Failable Bool
get_completion_chan id d = elim (Downloads.get id d.downloads_store) [
  | failure err ↦ failure err
  | value download ↦ value download.done
]

-- The time for the graceful phase and for the drain phase, from the time left to the deadline.
unfoldable pub shutdown_times : ℤ → ℕ × ℕ
shutdown_times (pos total) = (total / 2, total - total / 2)
shutdown_times (negsuc n) = (0, 0)

-- `Shutdown` refuses new submissions from here on.
unfoldable pub shutdown_refuse : Downloader → Downloader
shutdown_refuse d = record d { shutting_down = true }

unfoldable pub shutdown_drain : Downloader → Outcome Downloader
shutdown_drain d = do
  tasks ← Tasks.enter_drain_only d.download_tasks
  ok (record d { download_tasks = tasks })

-- `Shutdown` up to its first wait.
unfoldable pub shutdown_start : Downloader → Outcome Downloader
unfolding shutdown_refuse shutdown_drain
shutdown_start d = shutdown_drain (shutdown_refuse d)

-- The graceful phase timed out.
unfoldable pub shutdown_grace_expired : Downloader → Downloader
shutdown_grace_expired d = record d { cancelled = Tasks.cancel_all d.download_tasks ++ d.cancelled }

-- The end of `Shutdown`.
unfoldable pub shutdown_finish : Downloader → Outcome Downloader
shutdown_finish d = do closed ← close d.shutdown_chan; ok (record d { shutdown_chan = closed })
