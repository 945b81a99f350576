-- ===== src/Downloader/Task.antt =====
-- hw3/pkg/downloader/download_task.go. What the file system, the HTTP client and the context answer
-- is an argument, `Io`. A send into the event channel appends to `sent`; the sends of the ticker's
-- goroutine are interleaved in Task/Trace.antt. Logging is left out.
pub mod Trace
pub mod Mixed
use go_tasks.Prelude.{
  ℕ, ◌≡◌, String, Bool, true, false, ◌&&◌, Option, none, some, List, [], ◌∷◌, ◌++◌, not, is_some,
  if◌then◌else◌, ◌==◌,
}
use go_tasks.Prelude.Int.{ℤ}
use go_tasks.Prelude.Outcome.{Failable, value, failure, Err}
use go_tasks.Downloader.Event.{
  DownloadTask, reset_progress, write_progress, DownloadEvent, new_download_start,
  new_download_cancel, new_download_error, new_download_complete,
}

pub record Response : Type 0 where
  pub status_code : ℕ
  pub status : String
  pub content_length : ℤ

-- The answers to one execution. `chunks` are the sizes of the reads that pass the progress writer.
-- Two flags say whether the context was cancelled when the request, and when the copy, failed.
pub record Io : Type 0 where
  pub open_file_err : Option Err
  pub build_request_err : Option Err
  pub response : Failable Response
  pub cancelled_in_request : Bool
  pub chunks : List ℕ
  pub copy_err : Option Err
  pub cancelled_in_copy : Bool
  pub remove_err : Option Err

pub record Work : Type 0 where
  pub task : DownloadTask
  pub sent : List DownloadEvent

-- A part of `Execute`: it changes the work and may return an error.
abbrev pub Exec : Type 0 → Type 0
Exec A = Work → Failable A × Work

abbrev continue : {A B : Type 0} → Failable A → (A → Exec B) → Exec B
continue (value a) f w = f a w
continue (failure e) f w = (failure e, w)

infixl 5 ◌>>=◌ ◌>>◌
abbrev pub ◌>>=◌ : {A B : Type 0} → Exec A → (A → Exec B) → Exec B
◌>>=◌ m f w = let (r, w') = m w in continue r f w'

abbrev pub ◌>>◌ : {B : Type 0} → Exec (Unit {0}) → Exec B → Exec B
m >> k = m >>= λ _. k

abbrev emit : (DownloadTask → DownloadEvent) → Exec (Unit {0})
emit make w = (value tt, record w { sent = w.sent ++ make w.task ∷ [] })

abbrev raise : {A : Type 0} → Err → Exec A
raise e w = (failure e, w)

abbrev change : (DownloadTask → DownloadTask) → Exec (Unit {0})
change f w = (value tt, record w { task = f w.task })

pub open_file : Io → Exec (Unit {0})
open_file io = elim io.open_file_err [
  | none ↦ λ w. (value tt, w)
  | some err ↦ do emit (λ t. new_download_error t err); raise err
]

send_request : Io → Exec Response
send_request io = elim io.response [
  | value resp ↦ λ w. (value resp, w)
  | failure err ↦
      if io.cancelled_in_request
      then (do emit new_download_cancel; raise err)
      else (do emit (λ t. new_download_error t err); raise err)
]

pub do_request : Io → Exec Response
unfolding send_request
do_request io = elim io.build_request_err [
  | some err ↦ do emit (λ t. new_download_error t err); raise err
  | none ↦ send_request io
]

-- Whether the status code is `http.StatusOK`.
unfoldable pub is_ok : Response → Bool
is_ok resp = resp.status_code == 200

pub validate_response : Response → Exec (Unit {0})
validate_response resp =
    if not (is_ok resp)
    then (do emit (λ t. new_download_error t resp.status); raise resp.status)
    else λ w. (value tt, w)

pub start_download : Response → Exec (Unit {0})
start_download resp = do emit (λ t. new_download_start t resp.content_length); change reset_progress

-- `io.Copy` through the tee reader: each chunk is counted.
unfoldable pub copy : List ℕ → DownloadTask → DownloadTask
copy [] t = t
copy (n ∷ ns) t = copy ns (write_progress n t)

pub download_body : Io → Exec (Unit {0})
download_body io = do
  change (copy io.chunks)
  elim io.copy_err [
    | none ↦ λ w. (value tt, w)
    | some err ↦
        if io.cancelled_in_copy
        then (do emit new_download_cancel; raise err)
        else (do emit (λ t. new_download_error t err); raise err)
  ]

pub finish_download : Exec (Unit {0})
finish_download = emit (λ t. new_download_complete t t.progress)

-- `Execute` once the file is open.
pub transfer : Io → Exec (Unit {0})
unfolding do_request validate_response start_download download_body finish_download
transfer io = do
  resp ← do_request io
  validate_response resp
  start_download resp
  download_body io
  finish_download

-- What an execution leaves behind.
pub record Execution : Type 0 where
  pub work : Work
  pub file_created : Bool
  pub file_removed : Bool

abbrev fail_task : Work → Work
fail_task w = record w { task = record (w.task) { error_exited = true } }

-- The deferred call: it closes the file, and removes it if the task was left with an error. A
-- removal that fails is only logged, and the file stays.
abbrev clean : Io → Work → Execution
clean io w = record {
  work = w;
  file_created = true;
  file_removed = w.task.error_exited && not (is_some io.remove_err);
}

abbrev close_and_clean : Io → Failable (Unit {0}) → Work → Execution
close_and_clean io (value _) w = clean io w
close_and_clean io (failure _) w = clean io (fail_task w)

abbrev after_open : Io → Failable (Unit {0}) → Work → Execution
after_open io (failure _) w = record {
  work = fail_task w;
  file_created = false;
  file_removed = false;
}
after_open io (value _) w = let (r, w') = transfer io w in close_and_clean io r w'

unfoldable pub execute : Io → DownloadTask → Execution
unfolding open_file transfer
execute io t = let (r, w) = open_file io (record { task = t; sent = [] }) in after_open io r w
