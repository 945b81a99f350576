-- ===== src/Shell/Manager.antt =====
-- The downloader of hw3/pkg/downloader as the backend of the shell, as hw3/internal/shell/shell.go
-- builds it: the clock's reading, the UUIDs that a state gets next, and what the other goroutines do
-- while `Shutdown` waits are arguments.
use go_tasks.Prelude.{
  ℕ, ◌≡◌, refl, ap, sym, ◌∙◌, String, true, false, ◌⊎◌, inl, inr, Bool-cases, arith,
}
use go_tasks.Prelude.Outcome.{ok, ok_inj, Failable, ◌>>=◌}
use go_tasks.Downloader.Downloads
use go_tasks.Downloader.Core.{
  Downloader, submit_download, cancel_download, find_task, cancel_task, get_download,
  shutdown_start, shutdown_refuse, shutdown_drain, shutdown_finish,
}
use go_tasks.Downloader.Core.Invariant.{Inv}
use go_tasks.Downloader.Core.Submit.{Fresh, submit_download-Inv, submit_accepted, submit_refused}
use go_tasks.Downloader.Core.Sequential.{cancel_download-Inv, shutdown_start-Inv}
use go_tasks.Shell.Commands.{Backend}
use go_tasks.Shell.Commands.Dispatch.{Sound}

started_chan : (d d1 : Downloader) → shutdown_start d ≡ ok d1 → d1.shutdown_chan ≡ d.shutdown_chan
unfolding shutdown_start shutdown_refuse shutdown_drain
started_chan d d1 h = ground (arith, h)

module _ (now : ℕ) (uuids : Downloader → String × String) (waiting : Downloader → Downloader) where
  unfoldable pub downloader_backend : Backend Downloader
  downloader_backend = record {
    submit_download =
        λ url destination d. submit_download now (uuids d).0 (uuids d).1 url destination d;
    cancel_download = cancel_download;
    get_download = get_download;
    get_all_downloads = λ d. Downloads.get_all_views d.downloads_store;
    get_all_download_ids = λ d. Downloads.get_all_ids d.downloads_store;
    shutdown = λ d. shutdown_start d >>= λ started. shutdown_finish (waiting started);
  }

  -- The invariant of the manager, with `Shutdown` not called yet.
  abbrev pub Open : Downloader → Type 0
  Open d = Inv d × (d.shutdown_chan ≡ false)

  -- A submission under fresh ids returns, accepted or refused, and is no shutdown.
  submit-Open :
      (url destination : String) (d : Downloader)
      → Fresh d (uuids d).0 (uuids d).1
      → Open d
      → (d' : Downloader) × (r : Failable String) × (submit_download now
            (uuids d).0
            (uuids d).1
            url
            destination
            d
          ≡ ok (d', r))
        × Open d'
  submit-Open url destination d f (v, e) =
      let (d', r, h, v') = submit_download-Inv now (uuids d).0 (uuids d).1 url destination d v f in
      (d', r, h, (v', same_chan d' r h ∙ e))
    where
      refused :
          (d' : Downloader) (r : Failable String)
          → submit_download now (uuids d).0 (uuids d).1 url destination d ≡ ok (d', r)
          → (d.shutting_down ≡ true) ⊎ (d.download_tasks.drain_only ≡ true)
          → d'.shutdown_chan ≡ d.shutdown_chan
      refused d' r h why =
          let (c, x, g) = submit_refused now (uuids d).0 (uuids d).1 url destination d why in
          ap (λ x. x.0.shutdown_chan) (ok_inj (sym h ∙ g))

      same_chan :
          (d' : Downloader) (r : Failable String)
          → submit_download now (uuids d).0 (uuids d).1 url destination d ≡ ok (d', r)
          → d'.shutdown_chan ≡ d.shutdown_chan
      same_chan d' r h = elim (Bool-cases d.shutting_down) [
        | inl s ↦ refused d' r h (inl s)
        | inr s ↦ elim (Bool-cases d.download_tasks.drain_only) [
          | inl o ↦ refused d' r h (inr o)
          | inr o ↦
              ap (λ x. x.0.shutdown_chan)
                (ok_inj
                  (sym h ∙ submit_accepted now (uuids d).0 (uuids d).1 url destination d f s o))
        ]
      ]

  cancel-Open : (id : String) (d : Downloader) → Open d → Open (cancel_download id d).0
  unfolding cancel_download find_task cancel_task
  cancel-Open id d (v, e) = (cancel_download-Inv id d v, ground (arith, e))

  shutdown-Open :
      ((d : Downloader) → (waiting d).shutdown_chan ≡ d.shutdown_chan)
      → (d : Downloader) → Open d
      → (d' : Downloader) × (downloader_backend.shutdown d ≡ ok d')
  unfolding downloader_backend shutdown_finish
  shutdown-Open w d (v, e) =
      let (d1, h, v1) = shutdown_start-Inv d v in
      let chan : (waiting d1).shutdown_chan ≡ false = w d1 ∙ started_chan d d1 h ∙ e in
      rw (h, chan) (_, refl)

  -- The manager is a sound backend for the shell.
  pub downloader_backend-Sound :
      ((d : Downloader) → Fresh d (uuids d).0 (uuids d).1)
      → ((d : Downloader) → (waiting d).shutdown_chan ≡ d.shutdown_chan)
      → Sound downloader_backend Open
  unfolding downloader_backend
  downloader_backend-Sound fresh w = record {
    submits = λ url destination d g. submit-Open url destination d (fresh d) g;
    cancels = cancel-Open;
    shuts = shutdown-Open w;
  }
