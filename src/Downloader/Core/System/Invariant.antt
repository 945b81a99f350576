-- ===== src/Downloader/Core/System/Invariant.antt =====
-- What holds of the manager and its goroutines between any two steps
-- (hw3/pkg/downloader/downloader.go), and how the two steps of the event loop keep it.
use mathlib.Core.List.{Memᴰ}
use go_tasks.Prelude.{ℕ, ◌≡◌, refl, String, Bool, true, false, none, some, inl, inr, ◌⊎◌, All}
use go_tasks.Prelude.Maps.{lookup, insert}
use go_tasks.Prelude.Outcome.{Outcome, ok}
use go_tasks.Downloader.Record.{DownloadRecord, DownloadStatus, start, set_bytes_downloaded}
use go_tasks.Downloader.Record.Lifecycle
use go_tasks.Downloader.Record.Lifecycle.{
  Call, starts, updates, cancels, fails, completes, apply, apply-Inv, apply_keeps, apply_settles,
  verdict,
}
use go_tasks.Downloader.Event.{
  DownloadTask, DownloadEvent, DownloadEventType, FitsType, new_external_download_start,
  new_external_download_cancel, new_external_download_complete, new_external_download_error,
}
use go_tasks.Downloader.Tasks.Draining
use go_tasks.Downloader.Core.{
  Downloader, handle_task_removal, broadcast_public, store_download, ends_task, leave_tasks,
  call_record,
}
use go_tasks.Downloader.Core.Invariant.{IsGenuine, entries_of, downloads_of}
use go_tasks.Downloader.Core.EventLoop.{event_int64_of, event_error_of}
use go_tasks.Downloader.Core.System.{System, busy_of}
use go_tasks.Downloader.Core.System.Stores.{Stores}
use go_tasks.Downloader.Core.System.Held.{Held}

abbrev pub HeldIn : System → String → String → Type 0
HeldIn s tid did = Held (entries_of s.manager) (downloads_of s.manager) s.submitting tid did

pub record Inv (s : System) : Type 0 where
  pub store : Draining.Inv s.manager.download_tasks
  pub stores :
      Stores (entries_of s.manager) (downloads_of s.manager) (busy_of s.settling) s.submitting
  pub started : (t : DownloadTask) → Memᴰ t s.manager.running → HeldIn s t.id t.download_id
  pub looked : (p : String × String) → Memᴰ p s.looked_up → HeldIn s p.0 p.1
  pub genuine : All (IsGenuine s.manager.running) s.manager.events_chan
  pub settles :
      (e : DownloadEvent)
      → s.settling ≡ some e
      → IsGenuine s.manager.running e
        × ((r : DownloadRecord) × (lookup e.download_id (downloads_of s.manager) ≡ some r))

-- What a call on a record may be: one that settles it, for an event that ends its task, or another.
pub data Kind (ty : DownloadEventType) (c : Call) : Type 0 where
  settling : {st : DownloadStatus} → verdict c ≡ some st → ends_task ty ≡ true → Kind ty c
  going_on : verdict c ≡ none → ends_task ty ≡ false → Kind ty c

-- What `call_record` comes to.
pub data Called (ty : DownloadEventType) (now : ℕ) (e : DownloadEvent) (r : DownloadRecord)
    (d : Downloader) : Type 0 where
  ignored : call_record ty now e r d ≡ ok d → ends_task ty ≡ false → Called ty now e r d
  called :
      (c : Call) (r' : DownloadRecord) (d' : Downloader)
      → call_record ty now e r d ≡ ok d'
      → apply now c r ≡ ok r'
      → Kind ty c
      → d'.download_tasks ≡ d.download_tasks
      → downloads_of d' ≡ insert e.download_id r' (downloads_of d)
      → d'.running ≡ d.running
      → d'.events_chan ≡ d.events_chan
      → Called ty now e r d

pub call_case :
    (ty : DownloadEventType) (now : ℕ) (e : DownloadEvent) (r : DownloadRecord) (d : Downloader)
    → Lifecycle.Inv r
    → FitsType ty e.payload
    → Called ty now e r d
unfolding call_record apply broadcast_public
call_case DownloadEventType.start now e r d v (n, p) =
    called (starts n) (start now n r)
      (broadcast_public (new_external_download_start e.download_id n)
        (store_download e.download_id (start now n r) d))
      (rw (event_int64_of e p) refl) refl (going_on refl refl) refl refl refl refl
call_case DownloadEventType.update now e r d v (n, p) =
    called (updates n) (set_bytes_downloaded n r)
      (store_download e.download_id (set_bytes_downloaded n r) d) (rw (event_int64_of e p) refl)
      refl (going_on refl refl) refl refl refl refl
call_case DownloadEventType.cancel now e r d v _ =
    let (r', h, _, _, _) = apply_settles now cancels r v refl in
    called cancels r'
      (broadcast_public (new_external_download_cancel e.download_id)
        (store_download e.download_id r' d))
      (rw h refl) h (settling refl refl) refl refl refl refl
call_case DownloadEventType.error now e r d v (x, p) =
    let (r', h, _, _, _) = apply_settles now (fails x) r v refl in
    called (fails x) r'
      (broadcast_public (new_external_download_error e.download_id x)
        (store_download e.download_id r' d))
      (rw (event_error_of e p, h) refl) h (settling refl refl) refl refl refl refl
call_case DownloadEventType.complete now e r d v (n, p) =
    let (r', h, _, _, _) = apply_settles now (completes n) r v refl in
    called (completes n) r'
      (broadcast_public (new_external_download_complete e.download_id n)
        (store_download e.download_id r' d))
      (rw (event_int64_of e p, h) refl) h (settling refl refl) refl refl refl refl
call_case (DownloadEventType.other x) now e r d v _ = ignored refl refl

-- What `leave_tasks` comes to.
pub leave_case :
    (ty : DownloadEventType) (e : DownloadEvent) (d : Downloader)
    → ((ends_task ty ≡ false) × (leave_tasks ty e d ≡ ok d))
      ⊎ ((ends_task ty ≡ true) × ((b : Bool) × (leave_tasks ty e d ≡ handle_task_removal e b d)))
unfolding leave_tasks
leave_case DownloadEventType.start e d = inl (refl, refl)
leave_case DownloadEventType.update e d = inl (refl, refl)
leave_case DownloadEventType.cancel e d = inr (refl, (false, refl))
leave_case DownloadEventType.error e d = inr (refl, (true, refl))
leave_case DownloadEventType.complete e d = inr (refl, (true, refl))
leave_case (DownloadEventType.other x) e d = inl (refl, refl)

pub busy-settling :
    (e : DownloadEvent) → ends_task e.event_type ≡ true → busy_of (some e) ≡ some e.download_id
busy-settling e h = rw h refl

pub busy-going_on : (e : DownloadEvent) → ends_task e.event_type ≡ false → busy_of (some e) ≡ none
busy-going_on e h = rw h refl

abbrev pub StepsTo : Outcome System → Type 0
StepsTo o = (s' : System) × (o ≡ ok s') × Inv s'
