-- ===== src/Downloader/Core/Submit.antt =====
-- `SubmitDownload` (hw3/pkg/downloader/downloader.go), under ids that are fresh.
use mathlib.Core.List.{Memᴰ}
use go_tasks.Prelude.{
  ℕ, ◌≡◌, refl, sym, ◌≢◌, subst, String, true, false, none, List, ◌∷◌, inl, inr, ◌⊎◌, arith,
  Bool-cases, All-map,
}
use go_tasks.Prelude.Maps.{lookup, insert}
use go_tasks.Prelude.Outcome.{ok, Failable, value, failure, Err}
use go_tasks.Downloader.Record.{DownloadRecord, new_download_record, set_task_id}
use go_tasks.Downloader.Record.Lifecycle
use go_tasks.Downloader.Event.{DownloadTask, DownloadEvent, new_download_task}
use go_tasks.Downloader.Tasks
use go_tasks.Downloader.Tasks.{TasksStore, TaskEntry, new_task_entry}
use go_tasks.Downloader.Downloads
use go_tasks.Downloader.Core.{Downloader, submit_download, add_task, add_record, new_submission}
use go_tasks.Downloader.Core.Links.{Linked, Links-submit}
use go_tasks.Downloader.Core.Linked.{Linked-submit, Linked-new}
use go_tasks.Downloader.Core.Invariant.{Inv, IsGenuine, entries_of, downloads_of}

-- What fresh UUIDs give: neither is in use, now or by a task that was started before.
pub record Fresh (d : Downloader) (download_uuid task_uuid : String) : Type 0 where
  pub new_download : lookup download_uuid (downloads_of d) ≡ none
  pub new_task : lookup task_uuid (entries_of d) ≡ none
  pub named : task_uuid ≢ ""
  pub unused :
      (t : DownloadTask) → Memᴰ t d.running → (t.id ≢ task_uuid) × (t.download_id ≢ download_uuid)

pub IsGenuine-cons :
    (t : DownloadTask) (running : List DownloadTask) (e : DownloadEvent)
    → IsGenuine running e
    → IsGenuine (t ∷ running) e
IsGenuine-cons t running e g = record {
  fits = g.fits;
  source = g.source;
  started = Memᴰ.tail g.started;
  same_task = g.same_task;
  same_download = g.same_download;
}

pub cancelled-Inv : (d : Downloader) (c : List String) → Inv d → Inv (record d { cancelled = c })
cancelled-Inv d c v = record {
  store = v.store;
  links = v.links;
  linked = v.linked;
  genuine = v.genuine;
}

module _ (now : ℕ) (du tu url destination : String) where
  abbrev pub new_task_of : DownloadTask
  new_task_of = new_download_task tu du url destination

  abbrev pub new_record_of : DownloadRecord
  new_record_of = set_task_id tu (new_download_record du now url destination)

  -- The state after a submission that is accepted.
  abbrev pub submitted : Downloader → Downloader
  submitted d = record d {
    download_tasks = record (d.download_tasks) {
      entries = insert tu (record { task = new_task_of; cancel = tu }) (entries_of d);
    };
    downloads_store = record { downloads = insert du new_record_of (downloads_of d) };
    running = new_task_of ∷ d.running;
  }

  pub submit_accepted :
      (d : Downloader)
      → Fresh d du tu
      → d.shutting_down ≡ false
      → d.download_tasks.drain_only ≡ false
      → submit_download now du tu url destination d ≡ ok (submitted d, value du)
  unfolding submit_download add_task add_record new_submission Tasks.add Downloads.add
      new_task_entry new_download_task set_task_id new_download_record
  submit_accepted d f s o = ground (arith, f.new_download, f.new_task)

  submitted-Linked :
      (d : Downloader)
      → Inv d
      → Fresh d du tu
      → (t : DownloadTask) → Memᴰ t (new_task_of ∷ d.running)
      → Linked (entries_of (submitted d)) (downloads_of (submitted d)) t.id t.download_id
  unfolding new_download_task set_task_id new_download_record
  submitted-Linked d v f t (Memᴰ.head e) =
      subst (λ x. Linked (entries_of (submitted d)) (downloads_of (submitted d)) x.id x.download_id)
        (sym e) (Linked-new _ _ tu du _ new_record_of refl refl)
  submitted-Linked d v f t (Memᴰ.tail m) =
      Linked-submit _ _ t.id t.download_id (v.linked t m) tu du _ new_record_of (f.unused t m).0
        (f.unused t m).1

  pub submitted-Inv :
      (d : Downloader)
      → Inv d
      → Fresh d du tu
      → d.download_tasks.drain_only ≡ false
      → Inv (submitted d)
  unfolding new_download_task set_task_id new_download_record
  submitted-Inv d v f o = record {
    store = ground (arith, v.store);
    links =
        Links-submit _ _ v.links tu du _ new_record_of f.new_task f.new_download f.named refl
          (Lifecycle.new-Inv_task du now url destination tu) refl refl refl;
    linked = submitted-Linked d v f;
    genuine =
        All-map (IsGenuine d.running) (IsGenuine (new_task_of ∷ d.running)) d.events_chan
          (IsGenuine-cons new_task_of d.running) v.genuine;
  }

  pub submit_refused :
      (d : Downloader)
      → (d.shutting_down ≡ true) ⊎ (d.download_tasks.drain_only ≡ true)
      → (c : List String) × (x : Err) × (submit_download now du tu url destination d
          ≡ ok (record d { cancelled = c }, failure x))
  unfolding submit_download add_task add_record new_submission Tasks.add new_task_entry
      new_download_task set_task_id new_download_record
  submit_refused d h = elim (Bool-cases d.shutting_down) [
    | inl s ↦ (d.cancelled, "downloader is shutting down", ground arith)
    | inr s ↦
        (tu ∷ d.cancelled, "tasks store in drain only mode, no new tasks accepted", ground arith)
  ]

  -- A submission under fresh ids returns, and keeps the invariant.
  pub submit_download-Inv :
      (d : Downloader)
      → Inv d
      → Fresh d du tu
      → (d' : Downloader) × (r : Failable String) × (submit_download now du tu url destination d
          ≡ ok (d', r))
        × Inv d'
  submit_download-Inv d v f = elim (Bool-cases d.shutting_down) [
    | inl s ↦
        let (c, x, e) = submit_refused d (inl s) in
        (record d { cancelled = c }, failure x, e, cancelled-Inv d c v)
    | inr s ↦ elim (Bool-cases d.download_tasks.drain_only) [
      | inl o ↦
          let (c, x, e) = submit_refused d (inr o) in
          (record d { cancelled = c }, failure x, e, cancelled-Inv d c v)
      | inr o ↦ (submitted d, value du, submit_accepted d f s o, submitted-Inv d v f o)
    ]
  ]
