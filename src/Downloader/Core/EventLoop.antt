-- ===== src/Downloader/Core/EventLoop.antt =====
-- The event loop (hw3/pkg/downloader/downloader.go): each event that a started task sent is handled
-- without a panic, and the invariant holds afterwards.
use go_tasks.Prelude.{ℕ, ◌≡◌, refl, sym, ap, subst, String, Bool, true, false, Option, none, some}
use go_tasks.Prelude.Maps.{lookup, insert}
use go_tasks.Prelude.Outcome.{Outcome, ok, ◌>>=◌, Err}
use go_tasks.Prelude.Int.{ℤ}
use go_tasks.Downloader.Record.{DownloadRecord, DownloadStatus, start, set_bytes_downloaded}
use go_tasks.Downloader.Record.Lifecycle.{
  starts, updates, cancels, fails, completes, apply, Call, verdict,
}
use go_tasks.Downloader.Event.{
  ExternalDownloadEvent, DownloadEvent, DownloadEventType, Payload, int64, FitsType, event_int64,
  event_error, new_external_download_start, new_external_download_cancel,
  new_external_download_complete, new_external_download_error,
}
use go_tasks.Downloader.Calls.{call_of}
use go_tasks.Downloader.Downloads
use go_tasks.Downloader.Core.{
  Downloader, handle_task_removal, broadcast_public, store_download, leave_tasks, call_record,
  handle_download_event, on_event,
}
use go_tasks.Downloader.Core.Links.{Linked}
use go_tasks.Downloader.Core.Invariant.{
  Inv, Kept, IsGenuine, entries_of, downloads_of, broadcast-Kept, update-Kept, settle-Kept,
}

pub event_int64_of : (e : DownloadEvent) {n : ℤ} → e.payload ≡ int64 n → event_int64 e ≡ ok n
unfolding event_int64
event_int64_of e h = rw h

pub event_error_of :
    (e : DownloadEvent) {x : Err} → e.payload ≡ Payload.error x → event_error e ≡ ok x
unfolding event_error
event_error_of e h = rw h

-- What an event does to the records: the record of its download takes the call that the event
-- stands for, and no other record changes.
abbrev pub Effect : ℕ → Option Call → String → DownloadRecord → Downloader → Downloader → Type 0
Effect now none id r d d' = downloads_of d' ≡ downloads_of d
Effect now (some c) id r d d' =
    (r' : DownloadRecord) × (apply now c r ≡ ok r')
    × (downloads_of d' ≡ insert id r' (downloads_of d))

self-Kept : (d : Downloader) → Inv d → Kept d d
self-Kept d v = record {
  store = v.store;
  links = v.links;
  linked = v.linked;
  same_running = refl;
  same_events = refl;
}

module _ (now : ℕ) (event : DownloadEvent) (d : Downloader) (v : Inv d) (r : DownloadRecord)
    (found : lookup event.download_id (downloads_of d) ≡ some r)
    (k : Linked (entries_of d) (downloads_of d) event.task_id event.download_id) where
  abbrev handle_as : DownloadEventType → Outcome Downloader
  handle_as ty = leave_tasks ty event d >>= λ d'. call_record ty now event r d'

  abbrev Handled : DownloadEventType → Type 0
  Handled ty =
      (d' : Downloader) × (handle_as ty ≡ ok d')
      × Kept d d'
      × Effect now (call_of ty event.payload) event.download_id r d d'

  -- An event that settles the record, with what is broadcast after it.
  settled :
      (ty : DownloadEventType) (x : ExternalDownloadEvent) (with_cancel : Bool) (c : Call)
      {s : DownloadStatus}
      → verdict c ≡ some s
      → call_of ty event.payload ≡ some c
      → ((d' : Downloader) (r' : DownloadRecord)
          → handle_task_removal event with_cancel d ≡ ok d'
          → apply now c r ≡ ok r'
          → handle_as ty ≡ ok (broadcast_public x (store_download event.download_id r' d')))
      → Handled ty
  unfolding broadcast_public
  settled ty x with_cancel c e called run_it =
      let (d', r', h1, h2, same_downloads, kept) =
        settle-Kept now d v event.download_id r found event with_cancel c k e in
      (
        broadcast_public x (store_download event.download_id r' d'),
        run_it d' r' h1 h2,
        broadcast-Kept _ d _ kept,
        subst
            (λ o.
              Effect now o event.download_id r d
                (broadcast_public x (store_download event.download_id r' d')))
            (sym called) (r', h2, ap (λ s. insert event.download_id r' s.downloads) same_downloads),
      )

  on_event_type-Kept : (ty : DownloadEventType) → FitsType ty event.payload → Handled ty
  unfolding leave_tasks call_record apply broadcast_public
  on_event_type-Kept DownloadEventType.start (n, p) = (
    broadcast_public (new_external_download_start event.download_id n)
        (store_download event.download_id (start now n r) d),
    rw (event_int64_of event p) refl,
    broadcast-Kept _ d _ (update-Kept now d v event.download_id r found (starts n) _ refl refl),
    rw p (start now n r, refl, refl),
  )
  on_event_type-Kept DownloadEventType.update (n, p) = (
    store_download event.download_id (set_bytes_downloaded n r) d,
    rw (event_int64_of event p) refl,
    update-Kept now d v event.download_id r found (updates n) _ refl refl,
    rw p (set_bytes_downloaded n r, refl, refl),
  )
  on_event_type-Kept DownloadEventType.cancel _ =
      settled DownloadEventType.cancel (new_external_download_cancel event.download_id) false
        cancels refl refl (λ d' r' h1 h2. rw (h1, h2) refl)
  on_event_type-Kept DownloadEventType.error (e, p) =
      settled DownloadEventType.error (new_external_download_error event.download_id e) true
        (fails e) refl (rw p refl) (λ d' r' h1 h2. rw (h1, event_error_of event p, h2) refl)
  on_event_type-Kept DownloadEventType.complete (n, p) =
      settled DownloadEventType.complete (new_external_download_complete event.download_id n) true
        (completes n) refl (rw p refl) (λ d' r' h1 h2. rw (h1, event_int64_of event p, h2) refl)
  on_event_type-Kept (DownloadEventType.other s) _ = (d, refl, self-Kept d v, refl)

-- Handling an event is a step of the record's life: from a state that satisfies the invariant, an
-- event that a started task sent makes exactly one call on the record of its download, the one that
-- its kind stands for, and changes no other record.
pub on_event-Effect :
    (now : ℕ) (event : DownloadEvent) (d : Downloader) (r : DownloadRecord)
    → Inv d
    → IsGenuine d.running event
    → lookup event.download_id (downloads_of d) ≡ some r
    → (d' : Downloader) × (on_event now event d ≡ ok d')
      × Effect now (call_of event.event_type event.payload) event.download_id r d d'
unfolding on_event handle_download_event Downloads.get
on_event-Effect now event d r v g e =
    let k : Linked (entries_of d) (downloads_of d) event.task_id event.download_id =
      rw (g.same_task, g.same_download) (v.linked g.source g.started) in
    let (d', h, _, effect) = on_event_type-Kept now event d v r e k event.event_type g.fits in
    (d', rw (e, on_event) h, effect)
