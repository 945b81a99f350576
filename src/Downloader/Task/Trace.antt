-- ===== src/Downloader/Task/Trace.antt =====
-- The events of an execution (hw3/pkg/downloader/download_task.go), alone and mixed with those of
-- the progress ticker, and the record that the manager ends with.
use go_tasks.Prelude.{
  ℕ, ◌≡◌, refl, Bool, true, false, Option, none, some, List, [], ◌∷◌, not, ◌&&◌, ◌||◌, is_some, ap,
  ◌∙◌, if◌then◌else◌, Bool-cases, inl, inr,
}
use go_tasks.Prelude.Outcome.{Failable, value, failure, Err}
use go_tasks.Downloader.Record.{DownloadStatus, canceled, failed, completed, status_eq}
use go_tasks.Downloader.Event.{
  DownloadTask, reset_progress, write_progress, DownloadEvent, new_download_start,
  new_download_cancel, new_download_error, new_download_complete, DownloadEventType, FitsType,
}
use go_tasks.Downloader.Task.{Response, Io, is_ok, copy, execute}

-- The final state that a kind of event leads to.
abbrev pub verdict_of : DownloadEventType → Option DownloadStatus
verdict_of DownloadEventType.cancel = some canceled
verdict_of DownloadEventType.error = some failed
verdict_of DownloadEventType.complete = some completed
verdict_of DownloadEventType.start = none
verdict_of DownloadEventType.update = none
verdict_of (DownloadEventType.other s) = none

-- The event comes from the task and has a value of the right type.
abbrev pub IsOf : DownloadTask → DownloadEvent → Type 0
IsOf t e = (e.task_id ≡ t.id) × (e.download_id ≡ t.download_id) × FitsType e.event_type e.payload

-- The shape of what an execution sends: one event that leads to a final state, or the start of the
-- body and then such an event.
pub data Shape (t : DownloadTask) (s : DownloadStatus) (es : List DownloadEvent) : Type 0 where
  only :
      (e : DownloadEvent) → es ≡ e ∷ [] → IsOf t e → verdict_of e.event_type ≡ some s → Shape t s es
  started :
      (b e : DownloadEvent)
      → es ≡ b ∷ e ∷ []
      → IsOf t b
      → b.event_type ≡ DownloadEventType.start
      → IsOf t e
      → verdict_of e.event_type ≡ some s
      → Shape t s es

pub status_of_execution : Io → DownloadStatus
status_of_execution io = elim io.open_file_err [
  | some _ ↦ failed
  | none ↦ elim io.build_request_err [
    | some _ ↦ failed
    | none ↦ elim io.response [
      | failure _ ↦ if io.cancelled_in_request then canceled else failed
      | value resp ↦ elim io.copy_err [
        | none ↦ if is_ok resp then completed else failed
        | some _ ↦
            if is_ok resp then (if io.cancelled_in_copy then canceled else failed) else failed
      ]
    ]
  ]
]

copy_ids :
    (ns : List ℕ) (t : DownloadTask)
    → ((copy ns t).id ≡ t.id) × ((copy ns t).download_id ≡ t.download_id)
unfolding copy write_progress
copy_ids [] t = (refl, refl)
copy_ids (n ∷ ns) t = copy_ids ns (write_progress n t)

copy_exited : (ns : List ℕ) (t : DownloadTask) → (copy ns t).error_exited ≡ t.error_exited
unfolding copy write_progress
copy_exited [] t = refl
copy_exited (n ∷ ns) t = copy_exited ns (write_progress n t)

double_not : (b : Bool) → not (not b) ≡ b
double_not true = refl
double_not false = refl

abbrev io_of :
    Option Err
    → Option Err
    → Failable Response
    → Bool
    → List ℕ
    → Option Err
    → Bool
    → Option Err
    → Io
io_of open_err build_err resp in_request chunks copy_err in_copy remove_err = record {
  open_file_err = open_err;
  build_request_err = build_err;
  response = resp;
  cancelled_in_request = in_request;
  chunks = chunks;
  copy_err = copy_err;
  cancelled_in_copy = in_copy;
  remove_err = remove_err;
}

module _ (t : DownloadTask) (ns : List ℕ) (rm : Option Err) where
  abbrev HasShape : Io → Type 0
  HasShape io = Shape t (status_of_execution io) (execute io t).work.sent

  answered :
      (resp : Response) (b : Bool) (copy_err : Option Err) (c : Bool)
      → HasShape (io_of none none (value resp) b ns copy_err c rm)
  unfolding execute status_of_execution new_download_error new_download_start new_download_complete
      new_download_cancel reset_progress
  answered resp b none c = elim (Bool-cases (is_ok resp)) [
    | inl h ↦ rw h (
        Shape.started _ _ refl (refl, refl, (_, refl)) refl
          ((copy_ids ns _).0, (copy_ids ns _).1, (_, refl)) refl)
    | inr h ↦ rw h (only _ refl (refl, refl, (_, refl)) refl)
  ]
  answered resp b (some e) true = elim (Bool-cases (is_ok resp)) [
    | inl h ↦ rw h (
        Shape.started _ _ refl (refl, refl, (_, refl)) refl
          ((copy_ids ns _).0, (copy_ids ns _).1, tt) refl)
    | inr h ↦ rw h (only _ refl (refl, refl, (_, refl)) refl)
  ]
  answered resp b (some e) false = elim (Bool-cases (is_ok resp)) [
    | inl h ↦ rw h (
        Shape.started _ _ refl (refl, refl, (_, refl)) refl
          ((copy_ids ns _).0, (copy_ids ns _).1, (_, refl)) refl)
    | inr h ↦ rw h (only _ refl (refl, refl, (_, refl)) refl)
  ]

  abbrev KeepsFile : Io → Type 0
  KeepsFile io = ((execute io t).file_created && not (execute io t).file_removed) ≡ (
      status_eq (status_of_execution io) completed
      || not (is_some io.open_file_err) && is_some io.remove_err)

  answered-KeepsFile :
      (resp : Response) (b : Bool) (copy_err : Option Err) (c : Bool)
      → t.error_exited ≡ false
      → KeepsFile (io_of none none (value resp) b ns copy_err c rm)
  unfolding execute status_of_execution reset_progress
  answered-KeepsFile resp b none c f = elim (Bool-cases (is_ok resp)) [
    | inl h ↦ rw h (ap (λ e. not (e && not (is_some rm))) (copy_exited ns _ ∙ f))
    | inr h ↦ rw h (double_not (is_some rm))
  ]
  answered-KeepsFile resp b (some e) true f = elim (Bool-cases (is_ok resp)) [
    | inl h ↦ rw h (double_not (is_some rm))
    | inr h ↦ rw h (double_not (is_some rm))
  ]
  answered-KeepsFile resp b (some e) false f = elim (Bool-cases (is_ok resp)) [
    | inl h ↦ rw h (double_not (is_some rm))
    | inr h ↦ rw h (double_not (is_some rm))
  ]

  execute-KeepsFile :
      (open_err build_err : Option Err) (r : Failable Response) (b : Bool) (copy_err : Option Err)
      (c : Bool)
      → t.error_exited ≡ false
      → KeepsFile (io_of open_err build_err r b ns copy_err c rm)
  unfolding execute status_of_execution
  execute-KeepsFile (some e) build_err r b copy_err c f = refl
  execute-KeepsFile none (some e) r b copy_err c f = double_not (is_some rm)
  execute-KeepsFile none none (failure e) true copy_err c f = double_not (is_some rm)
  execute-KeepsFile none none (failure e) false copy_err c f = double_not (is_some rm)
  execute-KeepsFile none none (value resp) b copy_err c f = answered-KeepsFile resp b copy_err c f

  execute-Shape_of :
      (open_err build_err : Option Err) (r : Failable Response) (b : Bool) (copy_err : Option Err)
      (c : Bool)
      → HasShape (io_of open_err build_err r b ns copy_err c rm)
  unfolding execute status_of_execution new_download_error new_download_cancel
  execute-Shape_of (some e) build_err r b copy_err c = only _ refl (refl, refl, (e, refl)) refl
  execute-Shape_of none (some e) r b copy_err c = only _ refl (refl, refl, (e, refl)) refl
  execute-Shape_of none none (failure e) true copy_err c = only _ refl (refl, refl, tt) refl
  execute-Shape_of none none (failure e) false copy_err c = only _ refl (refl, refl, (e, refl)) refl
  execute-Shape_of none none (value resp) b copy_err c = answered resp b copy_err c

-- Whatever the file system, the server and the context answer, an execution sends one event that
-- leads to a final state, and sends it last; before it there is at most the start of the body. The
-- final state is that of the answers, and every event names the task and has a fitting value.
pub execute-Shape :
    (io : Io) (t : DownloadTask) → Shape t (status_of_execution io) (execute io t).work.sent
execute-Shape io t =
    execute-Shape_of t io.chunks io.remove_err io.open_file_err io.build_request_err io.response
      io.cancelled_in_request io.copy_err io.cancelled_in_copy

-- An execution of a new task leaves a file behind exactly when the answers make the download
-- complete, or when it made the file and the removal of it failed: otherwise, on every error and every
-- cancellation, the file is not created or is removed.
pub execute_file :
    (io : Io) (t : DownloadTask)
    → t.error_exited ≡ false
    → ((execute io t).file_created && not (execute io t).file_removed) ≡ (
        status_eq (status_of_execution io) completed
        || not (is_some io.open_file_err) && is_some io.remove_err)
execute_file io t f =
    execute-KeepsFile t io.chunks io.remove_err io.open_file_err io.build_request_err io.response
      io.cancelled_in_request io.copy_err io.cancelled_in_copy f
