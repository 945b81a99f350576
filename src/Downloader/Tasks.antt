-- ===== src/Downloader/Tasks.antt =====
-- hw3/pkg/downloader/tasks_store.go. Each method runs under the store's lock, so it is one step. A
-- context is known by a name, which is what an entry keeps in place of its cancel function.
pub mod Draining
use go_tasks.Prelude.{
  ◌≡◌, String, Bool, true, false, ◌&&◌, Option, none, some, List, [], ◌∷◌, map, if◌then◌else◌,
}
use go_tasks.Prelude.Maps.{Map, lookup, insert, delete, values}
use go_tasks.Prelude.Outcome.{Outcome, ok, panic, ◌>>=◌, close, Failable, value, failure}
use go_tasks.Downloader.Event.{DownloadTask}

pub record TaskEntry : Type 0 where
  pub task : DownloadTask
  pub cancel : String

unfoldable pub new_task_entry : DownloadTask → String → TaskEntry
new_task_entry task cancel = record { task = task; cancel = cancel }

-- `drained_chan` says whether the channel is closed, and `drain_once` whether the once has run.
pub record TasksStore : Type 0 where
  pub entries : Map TaskEntry
  pub drain_only : Bool
  pub drained_chan : Bool
  pub drain_once : Bool

unfoldable pub new_tasks_store : TasksStore
new_tasks_store = record {
  entries = [];
  drain_only = false;
  drained_chan = false;
  drain_once = false;
}

abbrev pub is_empty : Map TaskEntry → Bool
is_empty [] = true
is_empty (e ∷ es) = false

-- `s.drainOnce.Do(func() { close(s.drainedChan) })`
unfoldable pub close_drained : TasksStore → Outcome TasksStore
close_drained s = if s.drain_once then ok s else do
  closed ← close s.drained_chan
  ok (record s { drained_chan = closed; drain_once = true })

unfoldable pub enter_drain_only : TasksStore → Outcome TasksStore
unfolding close_drained
enter_drain_only s =
    let t = record s { drain_only = true } in if is_empty t.entries then close_drained t else ok t

-- The contexts that `CancelAll` cancels.
unfoldable pub cancel_all : TasksStore → List String
cancel_all s = map (λ e. e.cancel) (values s.entries)

abbrev pub task_not_found : String
task_not_found = "task not found"

unfoldable pub remove : String → TasksStore → Outcome (TasksStore × Failable TaskEntry)
unfolding close_drained
remove task_id s = elim (lookup task_id s.entries) [
  | none ↦ ok (s, failure task_not_found)
  | some entry ↦ do
    let t = record s { entries = delete task_id s.entries }
    t' ← (if t.drain_only && is_empty t.entries then close_drained t else ok t)
    ok (t', value entry)
]

unfoldable pub get : String → TasksStore → Failable TaskEntry
get task_id s = elim (lookup task_id s.entries) [
  | none ↦ failure task_not_found
  | some entry ↦ value entry
]

-- The new store, and the error if there is one.
unfoldable pub add : TaskEntry → TasksStore → TasksStore × Option String
add entry s =
    if s.drain_only
    then (s, some "tasks store in drain only mode, no new tasks accepted")
    else elim (lookup entry.task.id s.entries) [
      | some _ ↦ (s, some "task already stored")
      | none ↦ (record s { entries = insert entry.task.id entry s.entries }, none)
    ]
