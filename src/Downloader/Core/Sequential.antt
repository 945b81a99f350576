-- ===== src/Downloader/Core/Sequential.antt =====
-- Whole calls of the manager with nothing between their steps keep its invariant
-- (hw3/pkg/downloader/downloader.go).
use mathlib.Core.List.Memᴰ
use go_tasks.Prelude.{ℕ, ◌≡◌, refl, String, true, inl, inr, arith, Option-cases}
use go_tasks.Prelude.Maps.{lookup}
use go_tasks.Prelude.Outcome.{ok}
use go_tasks.Downloader.Tasks
use go_tasks.Downloader.Tasks.{new_tasks_store}
use go_tasks.Downloader.Tasks.Draining
use go_tasks.Downloader.Downloads
use go_tasks.Downloader.Downloads.{new_downloads_store}
use go_tasks.Downloader.Core.{
  Downloader, new_downloader, cancel_download, find_task, cancel_task, shutdown_start,
  shutdown_refuse, shutdown_drain,
}
use go_tasks.Downloader.Core.Invariant.{Inv, entries_of, downloads_of}
use go_tasks.Downloader.Core.Submit.{cancelled-Inv}

pub new-Inv : (user_agent : String) (interval : ℕ) → Inv (new_downloader user_agent interval)
unfolding new_downloader new_tasks_store new_downloads_store lookup
new-Inv user_agent interval = record {
  store = ground arith;
  links = record {
    records = λ id r e. absurd (cc e);
    active = λ id r e f. absurd (cc e);
    live = λ tid e h. absurd (cc h);
    unnamed = refl;
  };
  linked = λ t m. absurd (Memᴰ.not-nil m);
  genuine = tt;
}

pub cancel_download-Inv : (id : String) (d : Downloader) → Inv d → Inv (cancel_download id d).0
unfolding cancel_download find_task cancel_task Downloads.get Tasks.get
cancel_download-Inv id d v = elim (Option-cases (lookup id (downloads_of d))) [
  | inl e ↦ rw (e, cancel_download) v
  | inr (r, e) ↦ elim (Option-cases (lookup r.task_id (entries_of d))) [
    | inl e' ↦ rw (e, cancel_download) (rw (e', cancel_task) v)
    | inr (t, e') ↦ rw (e, cancel_download) (rw (e', cancel_task) (cancelled-Inv d _ v))
  ]
]

pub shutdown_start-Inv :
    (d : Downloader) → Inv d → (d' : Downloader) × (shutdown_start d ≡ ok d') × Inv d'
unfolding shutdown_start shutdown_refuse shutdown_drain
shutdown_start-Inv d v =
    let (t, e, store, same, _) = Draining.enter_drain_only-Inv d.download_tasks v.store in
    (
      record d { shutting_down = true; download_tasks = t },
      rw e refl,
      record {
        store = store;
        links = rw same v.links;
        linked = rw same v.linked;
        genuine = v.genuine;
      },
    )
