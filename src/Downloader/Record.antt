-- ===== src/Downloader/Record.antt =====
-- hw3/pkg/downloader/download_record.go and download_view.go. A method that changes the record
-- returns the new one; the clock's reading and the fresh ids are arguments. Each method runs under
-- the record's lock, so it is one step.
pub mod Lifecycle
use go_tasks.Prelude.{
  ℕ, ◌≡◌, String, Bool, true, false, ◌||◌, Option, none, some, if◌then◌else◌, not,
}
use go_tasks.Prelude.Int.{ℤ, pos, negsuc}
use go_tasks.Prelude.Outcome.{Outcome, ok, Err, close, ◌>>=◌}

pub data DownloadStatus : Type 0 where
  requested in_progress failed canceled completed : DownloadStatus

abbrev pub status_eq : DownloadStatus → DownloadStatus → Bool
status_eq requested requested = true
status_eq in_progress in_progress = true
status_eq failed failed = true
status_eq canceled canceled = true
status_eq completed completed = true
status_eq _ _ = false

-- The zero time of Go is 0. `done` says whether the channel is closed.
pub record DownloadRecord : Type 0 where
  pub id : String
  pub task_id : String
  pub url : String
  pub destination : String
  pub status : DownloadStatus
  pub bytes_downloaded : ℤ
  pub expected_size : ℤ
  pub total_size : ℤ
  pub requested_time : ℕ
  pub start_time : ℕ
  pub end_time : ℕ
  pub cause : Option Err
  pub done : Bool

pub record DownloadView : Type 0 where
  pub id : String
  pub url : String
  pub destination : String
  pub status : DownloadStatus
  pub bytes_downloaded : ℤ
  pub expected_size : ℤ
  pub total_size : ℤ
  pub requested_time : ℕ
  pub start_time : ℕ
  pub end_time : ℕ
  pub cause : Option Err

unfoldable pub new_download_record : String → ℕ → String → String → DownloadRecord
new_download_record uuid now url destination = record {
  id = uuid;
  task_id = "";
  url = url;
  destination = destination;
  status = requested;
  bytes_downloaded = pos 0;
  expected_size = negsuc 0;
  total_size = pos 0;
  requested_time = now;
  start_time = 0;
  end_time = 0;
  cause = none;
  done = false;
}

unfoldable pub set_task_id : String → DownloadRecord → DownloadRecord
set_task_id task_id d = record d { task_id = task_id }

unfoldable pub detached_view : DownloadRecord → DownloadView
detached_view d = record {
  id = d.id;
  url = d.url;
  destination = d.destination;
  status = d.status;
  bytes_downloaded = d.bytes_downloaded;
  expected_size = d.expected_size;
  total_size = d.total_size;
  requested_time = d.requested_time;
  start_time = d.start_time;
  end_time = d.end_time;
  cause = d.cause;
}

abbrev pub is_in_final_state : DownloadRecord → Bool
is_in_final_state d =
    status_eq d.status completed || status_eq d.status canceled || status_eq d.status failed

unfoldable pub start : ℕ → ℤ → DownloadRecord → DownloadRecord
start now expected_size d =
    if not (status_eq d.status requested)
    then d
    else record d { status = in_progress; expected_size = expected_size; start_time = now }

unfoldable pub set_bytes_downloaded : ℤ → DownloadRecord → DownloadRecord
set_bytes_downloaded bytes d =
    if not (status_eq d.status in_progress) then d else record d { bytes_downloaded = bytes }

unfoldable pub cancel : ℕ → DownloadRecord → Outcome DownloadRecord
cancel now d = if is_in_final_state d then ok d else do
  closed ← close d.done
  ok (record d { status = canceled; task_id = ""; end_time = now; done = closed })

unfoldable pub fail : ℕ → Err → DownloadRecord → Outcome DownloadRecord
fail now cause d = if is_in_final_state d then ok d else do
  closed ← close d.done
  ok (record d { status = failed; cause = some cause; task_id = ""; end_time = now; done = closed })

unfoldable pub complete : ℕ → ℤ → DownloadRecord → Outcome DownloadRecord
complete now total_size d = if is_in_final_state d then ok d else do
  closed ← close d.done
  ok (record d {
    status = completed;
    bytes_downloaded = total_size;
    total_size = total_size;
    task_id = "";
    end_time = now;
    done = closed;
  })
