-- ===== src/Downloader/Examples.antt =====
-- Runs of the download manager (hw3/pkg/downloader) on concrete input.
use mathlib.Core.List.{Memᴰ}
use mathlib.Core.List.Memᴰ
use go_tasks.Prelude.{
  ◌≡◌, refl, ◌↔◌, ◌⊎◌, false, String, true, false, not, ◌&&◌, ◌||◌, is_some, none, some, List, [],
  ◌∷◌, arith, eq_iff, str_eq,
}
use go_tasks.Prelude.Int.{pos, add_int64}
use go_tasks.Prelude.Maps.{lookup, insert, delete}
use go_tasks.Prelude.Outcome.{ok, value}
use go_tasks.Downloader.Record.{
  DownloadRecord, new_download_record, set_task_id, is_in_final_state, status_eq, completed,
}
use go_tasks.Downloader.Record.Lifecycle
use go_tasks.Downloader.Record.Lifecycle.{
  starts, updates, cancels, fails, completes, run, run_final, run-Decided, first_verdict, Decided,
}
use go_tasks.Downloader.Event.{
  DownloadTask, new_download_task, new_download_start, new_download_update, new_download_complete,
  reset_progress, DownloadEvent, write_progress,
}
use go_tasks.Downloader.Calls.{call_of, calls}
use go_tasks.Downloader.Task.{Io, execute, copy, is_ok}
use go_tasks.Downloader.Tasks.{new_tasks_store, new_task_entry, enter_drain_only, add}
use go_tasks.Downloader.Downloads
use go_tasks.Downloader.Downloads.{new_downloads_store}
use go_tasks.Downloader.Task.Trace.{execute_file, status_of_execution}
use go_tasks.Downloader.Task.Mixed.{Mix, execute_settles}
use go_tasks.Downloader.Core.{
  Downloader, new_downloader, on_event, add_task, add_record, new_submission, find_task,
  cancel_task, shutdown_refuse, shutdown_drain,
}
use go_tasks.Downloader.Core.Invariant.{Inv, IsGenuine, downloads_of}
use go_tasks.Downloader.Core.EventLoop.{Effect, on_event-Effect}
use go_tasks.Downloader.Core.Submit.{Fresh, submitted, submitted-Inv, new_task_of, new_record_of}
use go_tasks.Downloader.Core.Sequential.{new-Inv}
use go_tasks.Downloader.Core.System
use go_tasks.Downloader.Core.System.{
  System, Submission, Reach, new_system, submission_of, busy_of, event_loop_step, begin, next, adds,
  stores, looks, shuts, drains,
}
use go_tasks.Downloader.Core.System.Submitting.{with_task, with_record_of}
use go_tasks.Downloader.Core.System.Promises.{
  event_loop_step_ok, cancel_task_iff, drained_iff_final,
}

abbrev fresh_record : DownloadRecord
fresh_record = new_download_record "d1" 5 "http://host/file" "file"

run-Decided_example :
    (d' : DownloadRecord) × (run
        ((6, starts (pos 9)) ∷ (7, completes (pos 9)) ∷ (8, cancels) ∷ [])
        fresh_record
      ≡ ok d')
    × ((d'.status ≡ completed) × (d'.end_time ≡ 7) × (d'.done ≡ true))
unfolding first_verdict
run-Decided_example =
    run-Decided ((6, starts (pos 9)) ∷ (7, completes (pos 9)) ∷ (8, cancels) ∷ []) fresh_record
      (Lifecycle.new-Inv "d1" 5 "http://host/file" "file") (unfold new_download_record in refl)

abbrev task : DownloadTask
task = new_download_task "t1" "d1" "http://host/file" "file"

-- The server answers, and the body comes in two reads.
abbrev good : Io
good = record {
  open_file_err = none;
  build_request_err = none;
  response = value (record { status_code = 200; status = "200 OK"; content_length = pos 9 });
  cancelled_in_request = false;
  chunks = 4 ∷ 5 ∷ [];
  copy_err = none;
  cancelled_in_copy = false;
  remove_err = none;
}

execute_file_example :
    ((execute good task).file_created && not (execute good task).file_removed) ≡ (
      status_eq (status_of_execution good) completed
      || not (is_some good.open_file_err) && is_some good.remove_err)
execute_file_example = execute_file good task (unfold new_download_task in refl)

abbrev late_tick : DownloadEvent
late_tick = new_download_update task (pos 4)

-- The events of `good`, with a tick that comes after the last of them.
abbrev mixed : List DownloadEvent
mixed = new_download_start task (pos 9) ∷ new_download_complete task (pos 9) ∷ late_tick ∷ []

mixed-Mix : Mix (execute good task).work.sent (late_tick ∷ []) mixed
unfolding execute copy write_progress add_int64 new_download_task new_download_start
    new_download_complete reset_progress is_ok
mixed-Mix = Mix.main _ (Mix.main _ (Mix.tick _ Mix.done))

execute_settles_example :
    (d' : DownloadRecord) × (run (calls 7 mixed) fresh_record ≡ ok d')
    × (d'.status ≡ status_of_execution good)
    × (d'.end_time ≡ 7)
    × (d'.done ≡ true)
execute_settles_example =
    execute_settles good task 7 (late_tick ∷ []) mixed fresh_record mixed-Mix ((pos 4, refl), tt)
      (Lifecycle.new-Inv "d1" 5 "http://host/file" "file") (unfold new_download_record in refl)

abbrev idle : Downloader
idle = new_downloader "agent" 200

-- One download was submitted.
abbrev busy : Downloader
busy = submitted 5 "d1" "t1" "http://host/file" "file" idle

idle-Fresh : Fresh idle "d1" "t1"
unfolding new_downloader lookup new_tasks_store new_downloads_store str_eq
idle-Fresh = record {
  new_download = refl;
  new_task = refl;
  named = ground (arith, eq_iff "t1" "");
  unused = λ t m. absurd (Memᴰ.not-nil m);
}

busy-Inv : Inv busy
busy-Inv =
    submitted-Inv 5 "d1" "t1" "http://host/file" "file" idle (new-Inv "agent" 200) idle-Fresh
      (unfold new_downloader new_tasks_store in refl)

abbrev busy_record : DownloadRecord
busy_record = new_record_of 5 "d1" "t1" "http://host/file" "file"

busy_found : lookup "d1" (downloads_of busy) ≡ some busy_record
unfolding lookup insert new_downloader new_downloads_store str_eq
busy_found = refl

abbrev sent_start : DownloadEvent
sent_start = new_download_start (new_task_of 5 "d1" "t1" "http://host/file" "file") (pos 9)

sent_start-IsGenuine : IsGenuine busy.running sent_start
unfolding new_download_start
sent_start-IsGenuine = record {
  fits = (pos 9, refl);
  source = new_task_of 5 "d1" "t1" "http://host/file" "file";
  started = Memᴰ.head refl;
  same_task = refl;
  same_download = refl;
}

on_event-Effect_example :
    (d' : Downloader) × (on_event 6 sent_start busy ≡ ok d')
    × Effect 6
        (call_of sent_start.event_type sent_start.payload)
        sent_start.download_id
        busy_record
        busy
        d'
on_event-Effect_example =
    on_event-Effect 6 sent_start busy busy_record busy-Inv sent_start-IsGenuine
      (unfold new_download_start new_download_task in busy_found)

-- The manager with its goroutines, before and within the submission.
abbrev at_rest : System
at_rest = new_system "agent" 200

at_rest-Fresh : System.Fresh at_rest "d1" "t1"
unfolding new_system new_downloader lookup new_tasks_store new_downloads_store str_eq
at_rest-Fresh = record {
  new_download = refl;
  new_task = refl;
  named = ground (arith, eq_iff "t1" "");
  no_record = λ id r e. absurd (cc e);
  not_started = λ t m. absurd (Memᴰ.not-nil m);
  not_submitting = λ tid x h. absurd (cc h);
  not_looked_up = λ p m. absurd (Memᴰ.not-nil m);
}

abbrev submission : Submission
submission = submission_of 5 "d1" "t1" "http://host/file" "file"

abbrev task_added : System
task_added = record at_rest {
  manager = with_task 5 "d1" "t1" "http://host/file" "file" at_rest.manager;
  submitting = insert "t1" submission at_rest.submitting;
}

task_added-Reach : Reach task_added
unfolding new_system new_downloader new_tasks_store new_downloads_store add_task add lookup insert
    new_task_entry new_submission new_download_task new_download_record
task_added-Reach = next (begin "agent" 200) (
    adds 5 "d1" "t1" "http://host/file" "file"
      (with_task 5 "d1" "t1" "http://host/file" "file" at_rest.manager) at_rest-Fresh refl)

abbrev at_work : System
at_work = record task_added {
  manager = with_record_of submission task_added.manager;
  submitting = delete "t1" task_added.submitting;
}

at_work-Reach : Reach at_work
unfolding new_system new_downloader new_tasks_store new_downloads_store add_record Downloads.add
    lookup insert new_submission new_download_task new_download_record set_task_id str_eq
at_work-Reach =
    next task_added-Reach
      (stores "t1" submission (with_record_of submission task_added.manager) (value "d1") refl refl)

event_loop_step_ok_example : (s' : System) × (event_loop_step 6 at_work ≡ ok s')
event_loop_step_ok_example = event_loop_step_ok 6 at_work at_work-Reach

abbrev looked : System
looked = record at_work { looked_up = ("t1", "d1") ∷ at_work.looked_up }

looked-Reach : Reach looked
unfolding new_system new_downloader new_downloads_store find_task Downloads.get lookup insert
    new_submission new_download_task new_download_record set_task_id str_eq
looked-Reach = next at_work-Reach (looks "d1" "t1" refl)

looked_found : lookup "d1" (downloads_of looked.manager) ≡ some submission.download
unfolding new_system new_downloader new_downloads_store lookup insert new_submission
    new_download_task new_download_record str_eq
looked_found = refl

cancel_task_iff_example :
    ((cancel_task "t1" looked.manager).1 ≡ none)
    ↔ ((is_in_final_state submission.download ≡ false) × (busy_of looked.settling ≡ some "d1" → ⊥))
cancel_task_iff_example =
    cancel_task_iff looked "d1" "t1" submission.download looked-Reach (Memᴰ.head refl) looked_found

-- `Shutdown` has begun while the download runs.
abbrev draining : System
draining = record at_work {
  manager = record (at_work.manager) {
    shutting_down = true;
    download_tasks = record (at_work.manager.download_tasks) { drain_only = true };
  };
}

draining-Reach : Reach draining
unfolding shutdown_refuse shutdown_drain enter_drain_only new_system new_downloader new_tasks_store
    insert
draining-Reach = next (next at_work-Reach shuts) (drains draining.manager refl)

drained_iff_final_example : (draining.manager.download_tasks.drained_chan ≡ true) ↔ (
    ((tid : String) → lookup tid draining.submitting ≡ none)
    × ((id : String) (r : DownloadRecord)
        → lookup id (downloads_of draining.manager) ≡ some r
        → (is_in_final_state r ≡ true) ⊎ (busy_of draining.settling ≡ some id)))
drained_iff_final_example = drained_iff_final draining draining-Reach refl
