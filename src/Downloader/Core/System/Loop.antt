-- ===== src/Downloader/Core/System/Loop.antt =====
-- The two steps of the event loop keep the invariant (hw3/pkg/downloader/downloader.go).
use mathlib.Core.List.{Memᴰ}
use go_tasks.Prelude.{
  ℕ, ◌≡◌, refl, sym, ◌∙◌, subst, String, Bool, true, Option, none, some, List, [], ◌∷◌, inl, inr,
  Option-cases, All, ap, some_inj,
}
use go_tasks.Prelude.Maps.{lookup, insert}
use go_tasks.Prelude.Outcome.{ok, ok_inj}
use go_tasks.Downloader.Record.{DownloadRecord, is_in_final_state}
use go_tasks.Downloader.Record.Lifecycle
use go_tasks.Downloader.Record.Lifecycle.{apply, apply-Inv, apply_keeps, apply_settles, verdict}
use go_tasks.Downloader.Event.{DownloadEvent, new_external_download_error}
use go_tasks.Downloader.Downloads
use go_tasks.Downloader.Core.{
  Downloader, broadcast_public, ends_task, leave_tasks, call_record, handle_task_removal,
}
use go_tasks.Downloader.Core.Invariant.{IsGenuine, entries_of, downloads_of, removal}
use go_tasks.Downloader.Core.System.{System, busy_of, take_event, settle_event, event_loop_step}
use go_tasks.Downloader.Core.System.Stores.{Stores, Stores-update}
use go_tasks.Downloader.Core.System.Changes.{Stores-leave, Stores-settle}
use go_tasks.Downloader.Core.System.Held.{Held, Held-update, Held-leave, Held-settle}
use go_tasks.Downloader.Core.System.Invariant.{
  Inv, HeldIn, StepsTo, leave_case, call_case, Called, ignored, called, settling, going_on,
  busy-settling, busy-going_on,
}

-- The task and the download of a genuine event are held by its task.
source-Held :
    (s : System) (e : DownloadEvent)
    → Inv s
    → IsGenuine s.manager.running e
    → HeldIn s e.task_id e.download_id
source-Held s e v g = rw (g.same_task, g.same_download) (v.started g.source g.started)

module _ (e : DownloadEvent) (rest : List DownloadEvent) (s : System) (v : Inv s)
    (idle : s.settling ≡ none) (g : IsGenuine s.manager.running e)
    (others : All (IsGenuine s.manager.running) rest) where
  abbrev shorter : Downloader
  shorter = record (s.manager) { events_chan = rest }

  fit_idle : Stores (entries_of s.manager) (downloads_of s.manager) none s.submitting
  fit_idle =
      subst (λ o. Stores (entries_of s.manager) (downloads_of s.manager) (busy_of o) s.submitting)
        idle v.stores

  -- The event ends its task, which leaves.
  leaving :
      (b : Bool) (r : DownloadRecord)
      → ends_task e.event_type ≡ true
      → lookup e.download_id (downloads_of s.manager) ≡ some r
      → leave_tasks e.event_type e shorter ≡ handle_task_removal e b shorter
      → (d' : Downloader) × (leave_tasks e.event_type e shorter ≡ ok d')
        × Inv (record s { manager = d'; settling = some e })
  leaving b r t found h =
      let (d', h', store, gone, same_downloads, same_running, same_events) =
        removal e b shorter v.store in
      let k = source-Held s e v g in
      let same_maps : downloads_of d' ≡ downloads_of s.manager =
        ap (λ x. x.downloads) same_downloads in
      (
        d',
        h ∙ h',
        record {
          store = store;
          stores =
              rw (gone, same_maps, busy-settling e t)
                (Stores-leave _ _ _ e.task_id e.download_id fit_idle k.linked.entry_of
                  k.linked.record_of (λ u y q. (k.apart u y q).0));
          started = λ x m.
              rw (gone, same_maps)
                (Held-leave _ _ _ x.id x.download_id (v.started x (subst (Memᴰ x) same_running m))
                  e.task_id);
          looked = λ p m. rw (gone, same_maps) (Held-leave _ _ _ p.0 p.1 (v.looked p m) e.task_id);
          genuine = rw (same_running, same_events) others;
          settles = λ e' q.
              subst
                (λ y.
                  IsGenuine d'.running y
                  × ((r : DownloadRecord) × (lookup y.download_id (downloads_of d') ≡ some r)))
                (some_inj q) (rw same_running g, rw same_maps (r, found));
        },
      )

  take_event-Inv : StepsTo (take_event e rest s)
  unfolding take_event Downloads.get broadcast_public
  take_event-Inv = elim (Option-cases (lookup e.download_id (downloads_of s.manager))) [
    | inl n ↦ (
      record s {
        manager =
            broadcast_public
              (new_external_download_error e.download_id Downloads.download_not_found) shorter;
      },
      rw (n, take_event) refl,
      record {
        store = v.store;
        stores = v.stores;
        started = v.started;
        looked = v.looked;
        genuine = others;
        settles = v.settles;
      },
    )
    | inr (r, n) ↦ elim (leave_case e.event_type e shorter) [
      | inl (t, h) ↦ (
        record s { manager = shorter; settling = some e },
        rw (n, take_event, h) refl,
        record {
          store = v.store;
          stores = rw (busy-going_on e t) fit_idle;
          started = v.started;
          looked = v.looked;
          genuine = others;
          settles = λ e' q.
              subst
                (λ y.
                  IsGenuine s.manager.running y
                  × ((r : DownloadRecord) × (lookup y.download_id (downloads_of s.manager)
                        ≡ some r)))
                (some_inj q) (g, (r, n));
        },
      )
      | inr (t, (b, h)) ↦
          let (d', h', v') = leaving b r t n h in
          (record s { manager = d'; settling = some e }, rw (n, take_event, h') refl, v')
    ]
  ]

module _ (now : ℕ) (e : DownloadEvent) (s : System) (v : Inv s) (at : s.settling ≡ some e)
    (r : DownloadRecord) (found : lookup e.download_id (downloads_of s.manager) ≡ some r) where
  fine : Lifecycle.Inv r
  fine = (v.stores.records e.download_id r found).0

  abbrev done : Downloader → System
  done d' = record s { manager = d'; settling = none }

  fit_for :
      (b : Option String)
      → busy_of (some e) ≡ b
      → Stores (entries_of s.manager) (downloads_of s.manager) b s.submitting
  fit_for b h =
      subst (λ o. Stores (entries_of s.manager) (downloads_of s.manager) o s.submitting)
        (ap busy_of at ∙ h) v.stores

  -- The invariant behind a call that changes this record only.
  after_call :
      (d' : Downloader) (r' : DownloadRecord)
      → d'.download_tasks ≡ s.manager.download_tasks
      → downloads_of d' ≡ insert e.download_id r' (downloads_of s.manager)
      → d'.running ≡ s.manager.running
      → d'.events_chan ≡ s.manager.events_chan
      → Stores
          (entries_of s.manager)
          (insert e.download_id r' (downloads_of s.manager))
          none
          s.submitting
      → ((t d : String)
          → HeldIn s t d
          → Held
              (entries_of s.manager)
              (insert e.download_id r' (downloads_of s.manager))
              s.submitting
              t
              d)
      → Inv (done d')
  after_call d' r' tasks downloads running events stores held = record {
    store = rw tasks v.store;
    stores = rw (tasks, downloads) stores;
    started = λ t m.
        rw (tasks, downloads) (held t.id t.download_id (v.started t (subst (Memᴰ t) running m)));
    looked = λ p m. rw (tasks, downloads) (held p.0 p.1 (v.looked p m));
    genuine = rw (running, events) v.genuine;
    settles = λ e' q. absurd (cc q);
  }

  called-Inv :
      Called e.event_type now e r s.manager
      → (d' : Downloader) × (call_record e.event_type now e r s.manager ≡ ok d') × Inv (done d')
  called-Inv (ignored h t) = (
    s.manager,
    h,
    record {
      store = v.store;
      stores = fit_for none (busy-going_on e t);
      started = v.started;
      looked = v.looked;
      genuine = v.genuine;
      settles = λ e' q. absurd (cc q);
    },
  )
  called-Inv (called c r' d' h a (going_on w t) tasks downloads running events) =
      let (r1, h1, inv) = apply-Inv now c r fine in
      let (same_id, same_task, same_final) = apply_keeps now c r r' w a in
      (
        d',
        h,
        after_call d' r' tasks downloads running events
            (Stores-update _ _ _ e.download_id r r' (fit_for none (busy-going_on e t)) found
              (subst Lifecycle.Inv (ok_inj (sym h1 ∙ a)) inv) same_id same_task same_final)
            (λ x y k. Held-update _ _ _ x y k e.download_id r r' found same_task same_final),
      )
  called-Inv (called c r' d' h a (settling w t) tasks downloads running events) =
      let (r1, h1, inv, same_id, final) = apply_settles now c r fine w in
      let same : r1 ≡ r' = ok_inj (sym h1 ∙ a) in
      (
        d',
        h,
        after_call d' r' tasks downloads running events
            (Stores-settle _ _ _ e.download_id r r'
              (fit_for (some e.download_id) (busy-settling e t)) found
              (subst Lifecycle.Inv same inv) (ap (λ y. y.id) (sym same) ∙ same_id)
              (ap is_in_final_state (sym same) ∙ final))
            (λ x y k.
              Held-settle _ _ _ x y k e.download_id r' (ap is_in_final_state (sym same) ∙ final)),
      )

settle_event-Inv :
    (now : ℕ) (e : DownloadEvent) (s : System)
    → Inv s
    → s.settling ≡ some e
    → StepsTo (settle_event now e s)
unfolding settle_event Downloads.get
settle_event-Inv now e s v at =
    let (g, (r, found)) = v.settles e at in
    let (d', h, v') = called-Inv now e s v at r found (
      call_case e.event_type now e r s.manager (v.stores.records e.download_id r found).0 g.fits) in
    (record s { manager = d'; settling = none }, rw (found, settle_event, h) refl, v')

take_next-Inv :
    (es : List DownloadEvent) (s : System)
    → Inv s
    → s.settling ≡ none
    → All (IsGenuine s.manager.running) es
    → StepsTo (elim es [ [] ↦ ok s | event ∷ rest ↦ take_event event rest s ])
take_next-Inv [] s v idle g = (s, refl, v)
take_next-Inv (e ∷ rest) s v idle (g, others) = take_event-Inv e rest s v idle g others

step_from :
    (now : ℕ) (s : System) (o : Option DownloadEvent)
    → Inv s
    → s.settling ≡ o
    → StepsTo (elim o [
      | some event ↦ settle_event now event s
      | none ↦ elim s.manager.events_chan [ [] ↦ ok s | event ∷ rest ↦ take_event event rest s ]
    ])
step_from now s none v h = take_next-Inv s.manager.events_chan s v h v.genuine
step_from now s (some e) v h = settle_event-Inv now e s v h

-- From a state that satisfies the invariant the event loop can take its next step, whichever of the
-- two it is, and the state after it satisfies the invariant.
pub event_loop_step-Inv : (now : ℕ) (s : System) → Inv s → StepsTo (event_loop_step now s)
unfolding event_loop_step
event_loop_step-Inv now s v = step_from now s s.settling v refl
