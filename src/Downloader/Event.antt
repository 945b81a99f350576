-- ===== src/Downloader/Event.antt =====
-- hw3/pkg/downloader/download_event.go, external_download_event.go, progress_writer.go and the
-- fields of a task (download_task.go).
use go_tasks.Prelude.{ℕ, String, Bool, false, Option, none, some, ◌≡◌}
use go_tasks.Prelude.Int.{ℤ, pos, add_int64}
use go_tasks.Prelude.Outcome.{Outcome, ok, panic, Err}

pub record DownloadTask : Type 0 where
  pub id : String
  pub download_id : String
  pub url : String
  pub destination : String
  pub error_exited : Bool
  pub progress : ℤ

-- The progress writer is a counter of bytes.
unfoldable pub reset_progress : DownloadTask → DownloadTask
reset_progress t = record t { progress = pos 0 }

unfoldable pub write_progress : ℕ → DownloadTask → DownloadTask
write_progress n t = record t { progress = add_int64 t.progress n }

unfoldable pub new_download_task : String → String → String → String → DownloadTask
new_download_task uuid download_id url destination = record {
  id = uuid;
  download_id = download_id;
  url = url;
  destination = destination;
  error_exited = false;
  progress = pos 0;
}

-- A Go string type: besides the five constants it may hold any other text.
pub data DownloadEventType : Type 0 where
  start cancel update error complete : DownloadEventType
  other : String → DownloadEventType

-- The dynamic value of the `any` field.
pub data Payload : Type 0 where
  nil : Payload
  int64 : ℤ → Payload
  error : Err → Payload

pub record DownloadEvent : Type 0 where
  pub task_id : String
  pub download_id : String
  pub event_type : DownloadEventType
  pub payload : Payload

unfoldable pub new_download_start : DownloadTask → ℤ → DownloadEvent
new_download_start d expected_size = record {
  task_id = d.id;
  download_id = d.download_id;
  event_type = DownloadEventType.start;
  payload = int64 expected_size;
}

unfoldable pub new_download_cancel : DownloadTask → DownloadEvent
new_download_cancel d = record {
  task_id = d.id;
  download_id = d.download_id;
  event_type = DownloadEventType.cancel;
  payload = nil;
}

unfoldable pub new_download_update : DownloadTask → ℤ → DownloadEvent
new_download_update d bytes_downloaded = record {
  task_id = d.id;
  download_id = d.download_id;
  event_type = DownloadEventType.update;
  payload = int64 bytes_downloaded;
}

unfoldable pub new_download_error : DownloadTask → Err → DownloadEvent
new_download_error d err = record {
  task_id = d.id;
  download_id = d.download_id;
  event_type = DownloadEventType.error;
  payload = Payload.error err;
}

unfoldable pub new_download_complete : DownloadTask → ℤ → DownloadEvent
new_download_complete d total_size = record {
  task_id = d.id;
  download_id = d.download_id;
  event_type = DownloadEventType.complete;
  payload = int64 total_size;
}

abbrev payload_int64 : Payload → Outcome ℤ
payload_int64 (int64 n) = ok n
payload_int64 nil = panic
payload_int64 (Payload.error e) = panic

abbrev payload_error : Payload → Outcome Err
payload_error (Payload.error e) = ok e
payload_error nil = panic
payload_error (int64 n) = panic

-- `e.data.(int64)` and `e.data.(error)` panic on a value of another type.
unfoldable pub event_int64 : DownloadEvent → Outcome ℤ
event_int64 e = payload_int64 e.payload

unfoldable pub event_error : DownloadEvent → Outcome Err
event_error e = payload_error e.payload

pub data ExternalEventType : Type 0 where
  start cancel error complete : ExternalEventType

pub record ExternalDownloadEvent : Type 0 where
  pub download_id : String
  pub event_type : ExternalEventType
  pub bytes : ℤ
  pub err : Option Err

unfoldable pub new_external_download_start : String → ℤ → ExternalDownloadEvent
new_external_download_start download_id expected_size = record {
  download_id = download_id;
  event_type = ExternalEventType.start;
  bytes = expected_size;
  err = none;
}

unfoldable pub new_external_download_cancel : String → ExternalDownloadEvent
new_external_download_cancel download_id = record {
  download_id = download_id;
  event_type = ExternalEventType.cancel;
  bytes = pos 0;
  err = none;
}

unfoldable pub new_external_download_complete : String → ℤ → ExternalDownloadEvent
new_external_download_complete download_id total_size = record {
  download_id = download_id;
  event_type = ExternalEventType.complete;
  bytes = total_size;
  err = none;
}

unfoldable pub new_external_download_error : String → Err → ExternalDownloadEvent
new_external_download_error download_id err = record {
  download_id = download_id;
  event_type = ExternalEventType.error;
  bytes = pos 0;
  err = some err;
}

-- The value of an event has the type that its kind asks for.
abbrev pub FitsType : DownloadEventType → Payload → Type 0
FitsType DownloadEventType.start p = (n : ℤ) × (p ≡ int64 n)
FitsType DownloadEventType.update p = (n : ℤ) × (p ≡ int64 n)
FitsType DownloadEventType.complete p = (n : ℤ) × (p ≡ int64 n)
FitsType DownloadEventType.error p = (e : Err) × (p ≡ Payload.error e)
FitsType DownloadEventType.cancel p = Unit {0}
FitsType (DownloadEventType.other s) p = Unit {0}
