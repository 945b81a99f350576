-- ===== src/Downloader/Core/System/Reached.antt =====
-- Every state that the manager and its goroutines can come to satisfies the invariant
-- (hw3/pkg/downloader/downloader.go).
use mathlib.Core.List.{Memᴰ}
use mathlib.Core.List.Memᴰ
use go_tasks.Prelude.{
  ℕ, ◌≡◌, refl, sym, ◌∙◌, subst, String, some, [], ◌∷◌, inl, inr, arith, some_inj, Bool-cases,
  Option-cases, All-append, ltb, length,
}
use go_tasks.Prelude.Maps.{lookup}
use go_tasks.Prelude.Outcome.{ok, value, Err, ok_inj}
use go_tasks.Downloader.Event.{DownloadTask, DownloadEvent}
use go_tasks.Downloader.Tasks
use go_tasks.Downloader.Tasks.{TasksStore, TaskEntry, new_tasks_store, new_task_entry}
use go_tasks.Downloader.Tasks.Draining
use go_tasks.Downloader.Downloads
use go_tasks.Downloader.Downloads.{new_downloads_store}
use go_tasks.Downloader.Core.{
  Downloader, new_downloader, send_event, events_capacity, add_task, find_task, cancel_task,
  subscribe, shutdown_refuse, shutdown_drain, shutdown_grace_expired, shutdown_finish,
}
use go_tasks.Downloader.Core.Invariant.{IsGenuine, entries_of, downloads_of}
use go_tasks.Downloader.Core.System.{
  System, Step, Reach, new_system, busy_of, with_manager, adds, refuses, stores, sends, loops,
  looks, cancels, subscribes, shuts, drains, expires, finishes, begin, next,
}
use go_tasks.Downloader.Core.System.Held.{Held-looked}
use go_tasks.Downloader.Core.System.Invariant.{Inv, HeldIn}
use go_tasks.Downloader.Core.System.Loop.{event_loop_step-Inv}
use go_tasks.Downloader.Core.System.Submitting.{adds-Inv, stores-Inv}

new-Inv : (user_agent : String) (interval : ℕ) → Inv (new_system user_agent interval)
unfolding new_system new_downloader new_tasks_store new_downloads_store lookup
new-Inv user_agent interval = record {
  store = ground arith;
  stores = record {
    records = λ id r e. absurd (cc e);
    active = λ id r e f. absurd (cc e);
    live = λ tid e h. absurd (cc h);
    left = λ id r b e f. absurd (cc e);
    unnamed = refl;
    pending = λ tid x h. absurd (cc h);
    distinct = λ t u x y h g e. absurd (cc h);
  };
  started = λ t m. absurd (Memᴰ.not-nil m);
  looked = λ p m. absurd (Memᴰ.not-nil m);
  genuine = tt;
  settles = λ e h. absurd (cc h);
}

-- A change of the manager that leaves the stores, the tasks and the events.
other_fields-Inv :
    (s : System) (d : Downloader)
    → Inv s
    → d.download_tasks ≡ s.manager.download_tasks
    → d.downloads_store ≡ s.manager.downloads_store
    → d.running ≡ s.manager.running
    → d.events_chan ≡ s.manager.events_chan
    → Inv (with_manager d s)
other_fields-Inv s d v a b c e = record {
  store = rw a v.store;
  stores = rw (a, b) v.stores;
  started = rw (a, b, c) v.started;
  looked = rw (a, b) v.looked;
  genuine = rw (c, e) v.genuine;
  settles = rw (b, c) v.settles;
}

send_event-Inv :
    (e : DownloadEvent) (s : System) (d : Downloader)
    → Inv s
    → IsGenuine s.manager.running e
    → send_event e s.manager ≡ some d
    → Inv (with_manager d s)
unfolding send_event
send_event-Inv e s d v g h =
    elim (Bool-cases (ltb (length s.manager.events_chan) events_capacity)) [
      | inl b ↦
          subst (λ x. Inv (with_manager x s)) (some_inj (rw b at h))
            (record {
              store = v.store;
              stores = v.stores;
              started = v.started;
              looked = v.looked;
              genuine =
                  All-append (IsGenuine s.manager.running) s.manager.events_chan (e ∷ []) v.genuine
                    (g, tt);
              settles = v.settles;
            })
      | inr b ↦ absurd (cc (rw b at h))
    ]

shutdown_drain-Inv :
    (s : System) (d : Downloader) → Inv s → shutdown_drain s.manager ≡ ok d → Inv (with_manager d s)
unfolding shutdown_drain
shutdown_drain-Inv s d v h =
    let (t, e, store, same, _) = Draining.enter_drain_only-Inv s.manager.download_tasks v.store in
    let got : record (s.manager) { download_tasks = t } ≡ d = ok_inj (rw e at h) in
    subst (λ x. Inv (with_manager x s)) got
      (record {
        store = store;
        stores = rw same v.stores;
        started = rw same v.started;
        looked = rw same v.looked;
        genuine = v.genuine;
        settles = v.settles;
      })

looks-Inv :
    (s : System) (id tid : String)
    → Inv s
    → find_task id s.manager ≡ value tid
    → Inv (record s { looked_up = (tid, id) ∷ s.looked_up })
unfolding find_task Downloads.get
looks-Inv s id tid v h = record {
  store = v.store;
  stores = v.stores;
  started = v.started;
  looked = held;
  genuine = v.genuine;
  settles = v.settles;
}
  where
    here : HeldIn s tid id
    here = elim (Option-cases (lookup id (downloads_of s.manager))) [
      | inl n ↦ absurd (ground (arith, n, h))
      | inr (r, n) ↦
          let same : r.task_id ≡ tid = ground (arith, n, h) in
          subst (λ t. HeldIn s t id) same (Held-looked _ _ _ (busy_of s.settling) v.stores id r n)
    ]

    held : (p : String × String) → Memᴰ p ((tid, id) ∷ s.looked_up) → HeldIn s p.0 p.1
    held p (Memᴰ.head e) = subst (λ q. HeldIn s q.0 q.1) (sym e) here
    held p (Memᴰ.tail m) = v.looked p m

cancel_task-fields :
    (tid : String) (d : Downloader)
    → ((cancel_task tid d).0.download_tasks ≡ d.download_tasks)
      × ((cancel_task tid d).0.downloads_store ≡ d.downloads_store)
      × ((cancel_task tid d).0.running ≡ d.running)
      × ((cancel_task tid d).0.events_chan ≡ d.events_chan)
unfolding cancel_task Tasks.get
cancel_task-fields tid d = elim (Option-cases (lookup tid (entries_of d))) [
  | inl e ↦ rw (e, cancel_task) (refl, refl, refl, refl)
  | inr (t, e) ↦ rw (e, cancel_task) (refl, refl, refl, refl)
]

shutdown_finish-fields :
    (d d' : Downloader)
    → shutdown_finish d ≡ ok d'
    → (d'.download_tasks ≡ d.download_tasks)
      × (d'.downloads_store ≡ d.downloads_store)
      × (d'.running ≡ d.running)
      × (d'.events_chan ≡ d.events_chan)
unfolding shutdown_finish
shutdown_finish-fields d d' h = ground arith

refused-fields :
    (task : DownloadTask) (d d' : Downloader) (err : Err)
    → add_task task d ≡ (d', some err)
    → (d'.download_tasks ≡ d.download_tasks)
      × (d'.downloads_store ≡ d.downloads_store)
      × (d'.running ≡ d.running)
      × (d'.events_chan ≡ d.events_chan)
unfolding add_task Tasks.add
refused-fields task d d' err h = ground (arith, h)

Step-Inv : {s s' : System} → Step s s' → Inv s → Inv s'
unfolding subscribe shutdown_refuse shutdown_grace_expired
Step-Inv {s} {s'} (adds now du tu url destination d f h) v =
    adds-Inv now du tu url destination s d v f h
Step-Inv {s} {s'} (refuses task d err h) v =
    let (a, b, c, e) = refused-fields task s.manager d err h in other_fields-Inv s d v a b c e
Step-Inv {s} {s'} (stores tid x d r found h) v = stores-Inv s v tid x found d r h
Step-Inv {s} {s'} (sends e d g h) v = send_event-Inv e s d v g h
Step-Inv {s} {s'} (loops now t h) v =
    let (t', e, v') = event_loop_step-Inv now s v in subst Inv (ok_inj (sym e ∙ h)) v'
Step-Inv {s} {s'} (looks id tid h) v = looks-Inv s id tid v h
Step-Inv {s} {s'} (cancels tid) v =
    let (a, b, c, e) = cancel_task-fields tid s.manager in other_fields-Inv s _ v a b c e
Step-Inv {s} {s'} subscribes v = other_fields-Inv s _ v refl refl refl refl
Step-Inv {s} {s'} shuts v = other_fields-Inv s _ v refl refl refl refl
Step-Inv {s} {s'} (drains d h) v = shutdown_drain-Inv s d v h
Step-Inv {s} {s'} expires v = other_fields-Inv s _ v refl refl refl refl
Step-Inv {s} {s'} (finishes d h) v =
    let (a, b, c, e) = shutdown_finish-fields s.manager d h in other_fields-Inv s d v a b c e

pub Reach-Inv : {s : System} → Reach s → Inv s
Reach-Inv (begin user_agent interval) = new-Inv user_agent interval
Reach-Inv (next r s) = Step-Inv s (Reach-Inv r)
