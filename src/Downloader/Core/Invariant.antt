-- ===== src/Downloader/Core/Invariant.antt =====
-- What holds of the manager between two whole calls (hw3/pkg/downloader/downloader.go), and how a call on
-- a record and the removal of a task keep it.
use mathlib.Core.List.{Memᴰ}
use go_tasks.Prelude.{
  ℕ, ◌≡◌, refl, sym, ◌∙◌, subst, String, Bool, none, some, List, ◌∷◌, inl, inr, Option-cases, All,
  if◌then◌else◌,
}
use go_tasks.Prelude.Maps.{Map, lookup, delete, delete_missing}
use go_tasks.Prelude.Outcome.{ok, ok_inj}
use go_tasks.Downloader.Record.{DownloadRecord, DownloadStatus}
use go_tasks.Downloader.Record.Lifecycle
use go_tasks.Downloader.Record.Lifecycle.{
  starts, updates, cancels, fails, completes, apply, apply-Inv, apply_keeps, apply_settles, verdict,
}
use go_tasks.Downloader.Event.{DownloadTask, ExternalDownloadEvent, DownloadEvent, FitsType}
use go_tasks.Downloader.Tasks.{TaskEntry}
use go_tasks.Downloader.Tasks.Draining
use go_tasks.Downloader.Core.{Downloader, handle_task_removal, broadcast_public, store_download}
use go_tasks.Downloader.Core.Links.{Links, Linked, Links-update, Links-finish}
use go_tasks.Downloader.Core.Linked.{Linked-update, Linked-finish}

abbrev pub entries_of : Downloader → Map TaskEntry
entries_of d = d.download_tasks.entries

abbrev pub downloads_of : Downloader → Map DownloadRecord
downloads_of d = d.downloads_store.downloads

-- The event was made by one of the constructors for a task that was started.
pub record IsGenuine (running : List DownloadTask) (e : DownloadEvent) : Type 0 where
  pub fits : FitsType e.event_type e.payload
  pub source : DownloadTask
  pub started : Memᴰ source running
  pub same_task : e.task_id ≡ source.id
  pub same_download : e.download_id ≡ source.download_id

pub record Inv (d : Downloader) : Type 0 where
  pub store : Draining.Inv d.download_tasks
  pub links : Links (entries_of d) (downloads_of d)
  pub linked :
      (t : DownloadTask)
      → Memᴰ t d.running
      → Linked (entries_of d) (downloads_of d) t.id t.download_id
  pub genuine : All (IsGenuine d.running) d.events_chan

-- `on_event` keeps this much, whatever the event loop does with its channel.
pub record Kept (d d' : Downloader) : Type 0 where
  pub store : Draining.Inv d'.download_tasks
  pub links : Links (entries_of d') (downloads_of d')
  pub linked :
      (t : DownloadTask)
      → Memᴰ t d'.running
      → Linked (entries_of d') (downloads_of d') t.id t.download_id
  pub same_running : d'.running ≡ d.running
  pub same_events : d'.events_chan ≡ d.events_chan

-- Removal of a task whether or not it is still there.
pub removal :
    (event : DownloadEvent) (with_cancel : Bool) (d : Downloader)
    → Draining.Inv d.download_tasks
    → (d' : Downloader) × (handle_task_removal event with_cancel d ≡ ok d')
      × Draining.Inv d'.download_tasks
      × (entries_of d' ≡ delete event.task_id (entries_of d))
      × (d'.downloads_store ≡ d.downloads_store)
      × (d'.running ≡ d.running)
      × (d'.events_chan ≡ d.events_chan)
unfolding handle_task_removal
removal event with_cancel d v = elim (Option-cases (lookup event.task_id (entries_of d))) [
  | inl e ↦ (
    d,
    rw (Draining.remove_missing event.task_id d.download_tasks e) refl,
    v,
    sym (delete_missing event.task_id (entries_of d) e),
    refl,
    refl,
    refl,
  )
  | inr (x, e) ↦
      let (t, e1, v', e2, _) = Draining.remove-Inv event.task_id d.download_tasks x v e in
      (
        record d {
          download_tasks = t;
          cancelled = if with_cancel then x.cancel ∷ d.cancelled else d.cancelled;
        },
        rw e1 refl,
        v',
        e2,
        refl,
        refl,
        refl,
      )
]

pub broadcast-Kept :
    (x : ExternalDownloadEvent) (d d' : Downloader) → Kept d d' → Kept d (broadcast_public x d')
unfolding broadcast_public
broadcast-Kept x d d' k = record {
  store = k.store;
  links = k.links;
  linked = k.linked;
  same_running = k.same_running;
  same_events = k.same_events;
}

module _ (now : ℕ) (d : Downloader) (v : Inv d) (id : String) (r : DownloadRecord)
    (found : lookup id (downloads_of d) ≡ some r) where
  Inv-of : Lifecycle.Inv r
  Inv-of = (v.links.records id r found).0

  -- A call on the record that asks for no final state.
  pub update-Kept :
      (c : Lifecycle.Call) (r' : DownloadRecord)
      → verdict c ≡ none
      → apply now c r ≡ ok r'
      → Kept d (store_download id r' d)
  update-Kept c r' e h =
      let (r1, h1, inv) = apply-Inv now c r Inv-of in
      let (same_id, same_task, same_final) = apply_keeps now c r r' e h in
      record {
        store = v.store;
        links =
            Links-update _ _ v.links id r r' found (subst Lifecycle.Inv (ok_inj (sym h1 ∙ h)) inv)
              same_id same_task same_final;
        linked = λ t m.
            Linked-update _ _ t.id t.download_id (v.linked t m) id r r' found same_task same_final;
        same_running = refl;
        same_events = refl;
      }

  -- The removal of the task, and then a call that settles the record.
  pub settle-Kept :
      (event : DownloadEvent) (with_cancel : Bool) (c : Lifecycle.Call) {s : DownloadStatus}
      → Linked (entries_of d) (downloads_of d) event.task_id id
      → verdict c ≡ some s
      → (d' : Downloader) × (r' : DownloadRecord) × (handle_task_removal event with_cancel d
          ≡ ok d')
        × (apply now c r ≡ ok r')
        × (d'.downloads_store ≡ d.downloads_store)
        × Kept d (store_download id r' d')
  settle-Kept event with_cancel c k e =
      let (d', h1, store, gone, same_downloads, same_running, same_events) =
        removal event with_cancel d v.store in
      let (r', h2, inv, same_id, final) = apply_settles now c r Inv-of e in
      (
        d',
        r',
        h1,
        h2,
        same_downloads,
        record {
          store = store;
          links =
              rw (gone, same_downloads)
                (Links-finish _ _ v.links event.task_id id r r' k found inv same_id final);
          linked = λ t m.
              rw (gone, same_downloads)
                (Linked-finish _ _ t.id t.download_id (v.linked t (subst (Memᴰ t) same_running m))
                  event.task_id id r' final);
          same_running = same_running;
          same_events = same_events;
        },
      )
