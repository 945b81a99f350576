-- ===== src/Downloader/Core/System/Submitting.antt =====
-- The two stores of `SubmitDownload` keep the invariant, each on its own
-- (hw3/pkg/downloader/downloader.go).
use mathlib.Core.List.{Memᴰ}
use go_tasks.Prelude.{
  ℕ, ◌≡◌, refl, sym, ◌∙◌, ap, subst, String, true, false, Option, none, some, ◌∷◌, inl, inr, arith,
  some_inj, Bool-cases, All-map,
}
use go_tasks.Prelude.Maps.{lookup, insert, delete, lookup-insert_self, lookup-insert_ne}
use go_tasks.Prelude.Outcome.{ok, Failable}
use go_tasks.Downloader.Record.{DownloadRecord, new_download_record, set_task_id}
use go_tasks.Downloader.Record.Lifecycle
use go_tasks.Downloader.Event.{DownloadTask, DownloadEvent, new_download_task}
use go_tasks.Downloader.Tasks
use go_tasks.Downloader.Tasks.{TaskEntry, new_task_entry}
use go_tasks.Downloader.Downloads
use go_tasks.Downloader.Core.{Downloader, add_task, add_record, new_submission, ends_task}
use go_tasks.Downloader.Core.Invariant.{IsGenuine, entries_of, downloads_of}
use go_tasks.Downloader.Core.Submit.{IsGenuine-cons}
use go_tasks.Downloader.Core.System.{System, Submission, Fresh, busy_of, task_of, submission_of}
use go_tasks.Downloader.Core.System.Stores.{Pending}
use go_tasks.Downloader.Core.System.Changes.{Stores-add, Stores-store}
use go_tasks.Downloader.Core.System.Held.{Held, Held-add, Held-store, Held-started}
use go_tasks.Downloader.Core.System.Invariant.{Inv}

module _ (now : ℕ) (du tu url destination : String) where
  abbrev pub entry_of : TaskEntry
  entry_of = record { task = task_of now du tu url destination; cancel = tu }

  -- The manager with the new task.
  abbrev pub with_task : Downloader → Downloader
  with_task d = record d {
    download_tasks = record (d.download_tasks) { entries = insert tu entry_of (entries_of d) };
  }

  added :
      (d d' : Downloader)
      → lookup tu (entries_of d) ≡ none
      → add_task (task_of now du tu url destination) d ≡ (d', none)
      → (with_task d ≡ d') × (d.download_tasks.drain_only ≡ false)
  unfolding add_task Tasks.add new_task_entry new_submission new_download_task new_download_record
  added d d' f h = elim (Bool-cases d.download_tasks.drain_only) [
    | inl o ↦ absurd (ground (arith, h))
    | inr o ↦ (ground (arith, f, h), o)
  ]

  new-Pending :
      (d : Downloader)
      → lookup du (downloads_of d) ≡ none
      → Pending
          (insert tu entry_of (entries_of d))
          (downloads_of d)
          tu
          (submission_of now du tu url destination)
  unfolding new_submission new_download_task new_download_record set_task_id
  new-Pending d f = record {
    same_task = refl;
    entry = (entry_of, lookup-insert_self tu entry_of (entries_of d), refl);
    not_stored = f;
    record_task = refl;
    record_id = refl;
    record_fine = Lifecycle.new-Inv_task du now url destination tu;
    record_open = refl;
  }

  pub adds-Inv :
      (s : System) (d : Downloader)
      → Inv s
      → Fresh s du tu
      → add_task (task_of now du tu url destination) s.manager ≡ (d, none)
      → Inv (record s {
        manager = d;
        submitting = insert tu (submission_of now du tu url destination) s.submitting;
      })
  unfolding new_submission new_download_task new_download_record set_task_id
  adds-Inv s d v f h =
      let (same, o) = added s.manager d f.new_task h in
      subst
        (λ x. Inv (record s {
          manager = x;
          submitting = insert tu (submission_of now du tu url destination) s.submitting;
        }))
        same
        (record {
          store = ground (arith, v.store);
          stores =
              Stores-add _ _ _ (busy_of s.settling) tu entry_of
                (submission_of now du tu url destination) v.stores f.new_task f.named f.no_record
                f.not_submitting refl (new-Pending s.manager f.new_download);
          started = λ t m.
              Held-add _ _ _ t.id t.download_id (v.started t m) tu entry_of
                (submission_of now du tu url destination) (f.not_started t m).0
                (f.not_started t m).1;
          looked = λ p m.
              Held-add _ _ _ p.0 p.1 (v.looked p m) tu entry_of
                (submission_of now du tu url destination) (f.not_looked_up p m).0
                (f.not_looked_up p m).1;
          genuine = v.genuine;
          settles = v.settles;
        })

-- The manager with the record of a submission, and its task started.
abbrev pub with_record_of : Submission → Downloader → Downloader
with_record_of x d = record d {
  downloads_store = record { downloads = insert x.task.download_id x.download (downloads_of d) };
  running = x.task ∷ d.running;
}

pub busy_of-inv :
    (o : Option DownloadEvent) (id : String)
    → busy_of o ≡ some id
    → (e : DownloadEvent) × (o ≡ some e) × (e.download_id ≡ id) × (ends_task e.event_type ≡ true)
busy_of-inv none id h = absurd (cc h)
busy_of-inv (some e) id h = elim (Bool-cases (ends_task e.event_type)) [
  | inl t ↦ (e, refl, some_inj (rw t at h), t)
  | inr t ↦ absurd (cc (rw t at h))
]

module _ (s : System) (v : Inv s) (tid : String) (x : Submission)
    (found : lookup tid s.submitting ≡ some x) where
  k : Pending (entries_of s.manager) (downloads_of s.manager) tid x
  k = v.stores.pending tid x found

  not_busy : busy_of s.settling ≡ some x.task.download_id → ⊥
  not_busy b =
      let (e, at, same, _) = busy_of-inv s.settling x.task.download_id b in
      let (r, here) = (v.settles e at).1 in
      cc (here, ap (λ i. lookup i (downloads_of s.manager)) same, k.not_stored)

  abbrev with_record : Downloader
  with_record = with_record_of x s.manager

  stored :
      (d : Downloader) (r : Failable String)
      → add_record x.task x.download s.manager ≡ ok (d, r)
      → with_record ≡ d
  unfolding add_record Downloads.add
  stored d r h = ground (arith, h, k.record_id, k.not_stored)

  started_task :
      (t : DownloadTask)
      → Memᴰ t (x.task ∷ s.manager.running)
      → Held
          (entries_of s.manager)
          (insert x.task.download_id x.download (downloads_of s.manager))
          (delete tid s.submitting)
          t.id
          t.download_id
  started_task t (Memᴰ.head e) =
      subst
        (λ y.
          Held (entries_of s.manager)
            (insert x.task.download_id x.download (downloads_of s.manager))
            (delete tid s.submitting) y.id y.download_id)
        (sym e) (Held-started _ _ _ (busy_of s.settling) v.stores tid x found)
  started_task t (Memᴰ.tail m) = Held-store _ _ _ t.id t.download_id (v.started t m) tid x found

  other_download :
      (id : String) (r : DownloadRecord)
      → lookup id (downloads_of s.manager) ≡ some r
      → lookup id (insert x.task.download_id x.download (downloads_of s.manager)) ≡ some r
  other_download id r h =
      lookup-insert_ne x.task.download_id id x.download (downloads_of s.manager)
        (λ q. cc (ap (λ i. lookup i (downloads_of s.manager)) q, h, k.not_stored))
      ∙ h

  pub stores-Inv :
      (d : Downloader) (r : Failable String)
      → add_record x.task x.download s.manager ≡ ok (d, r)
      → Inv (record s { manager = d; submitting = delete tid s.submitting })
  stores-Inv d r h =
      subst (λ y. Inv (record s { manager = y; submitting = delete tid s.submitting }))
        (stored d r h)
        (record {
          store = v.store;
          stores = Stores-store _ _ _ (busy_of s.settling) tid x v.stores found not_busy;
          started = started_task;
          looked = λ p m. Held-store _ _ _ p.0 p.1 (v.looked p m) tid x found;
          genuine =
              All-map (IsGenuine s.manager.running) (IsGenuine (x.task ∷ s.manager.running))
                s.manager.events_chan (IsGenuine-cons x.task s.manager.running) v.genuine;
          settles = λ e at.
              let (g, (y, here)) = v.settles e at in
              (
                IsGenuine-cons x.task s.manager.running e g,
                (y, other_download e.download_id y here),
              );
        })
