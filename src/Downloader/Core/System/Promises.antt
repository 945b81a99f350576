-- ===== src/Downloader/Core/System/Promises.antt =====
-- What the manager promises in every state that it and its goroutines can come to
-- (hw3/pkg/downloader/downloader.go).
use mathlib.Core.List.{Memᴰ}
use go_tasks.Prelude.{
  ℕ, ◌≡◌, refl, sym, ◌∙◌, ap, String, true, false, none, some, inl, inr, ◌⊎◌, ◌↔◌, ◌&&◌, Bool-cases,
  Option-cases, some_inj,
}
use go_tasks.Prelude.Maps.{lookup, nil_of_lookup}
use go_tasks.Prelude.Outcome.{ok, value}
use go_tasks.Downloader.Record.{DownloadRecord, is_in_final_state}
use go_tasks.Downloader.Tasks
use go_tasks.Downloader.Tasks.{TaskEntry}
use go_tasks.Downloader.Tasks.Draining.{is_empty_of_lookup}
use go_tasks.Downloader.Downloads
use go_tasks.Downloader.Core.{cancel_task, get_completion_chan}
use go_tasks.Downloader.Core.Invariant.{entries_of, downloads_of}
use go_tasks.Downloader.Core.System.{System, Reach, busy_of, event_loop_step}
use go_tasks.Downloader.Core.System.Invariant.{Inv}
use go_tasks.Downloader.Core.System.Loop.{event_loop_step-Inv}
use go_tasks.Downloader.Core.System.Reached.{Reach-Inv}

-- In every state that the manager can come to, the next step of the event loop returns: it never
-- panics on an event's value, nor by closing a channel twice.
pub event_loop_step_ok :
    (now : ℕ) (s : System) → Reach s → (s' : System) × (event_loop_step now s ≡ ok s')
event_loop_step_ok now s r = let (s', e, _) = event_loop_step-Inv now s (Reach-Inv r) in (s', e)

-- In every state that the manager can come to, a caller of `CancelDownload` who has looked at a record
-- before, at any time, is accepted exactly when the record is now in no final state and the event loop
-- is not settling it, that is between the removal of its task and the call on it.
pub cancel_task_iff :
    (s : System) (id tid : String) (r : DownloadRecord)
    → Reach s
    → Memᴰ (tid, id) s.looked_up
    → lookup id (downloads_of s.manager) ≡ some r
    → ((cancel_task tid s.manager).1 ≡ none)
      ↔ ((is_in_final_state r ≡ false) × (busy_of s.settling ≡ some id → ⊥))
unfolding cancel_task Tasks.get
cancel_task_iff s id tid r reach held found = (forth, back)
  where
    v : Inv s
    v = Reach-Inv reach

    -- The entry of the task is there exactly then.
    entry_open :
        (e : TaskEntry)
        → lookup tid (entries_of s.manager) ≡ some e
        → (is_in_final_state r ≡ false) × (busy_of s.settling ≡ some id → ⊥)
    entry_open e h =
        let at : e.task.download_id ≡ id = (v.looked (tid, id) held).linked.entry_of e h in
        elim (v.stores.live tid e h) [
          | inl (x, q) ↦ absurd (((v.looked (tid, id) held).apart tid x q).0 refl)
          | inr (y, e1, e2, e3) ↦
              let same : y ≡ r =
                some_inj (sym e1 ∙ ap (λ i. lookup i (downloads_of s.manager)) at ∙ found) in
              (
                sym (ap is_in_final_state same) ∙ e3,
                λ b. cc (
                  v.stores.left id y b (found ∙ ap some (sym same)) e3,
                  ap (λ i. lookup i (entries_of s.manager)) e2,
                  h,
                ),
              )
        ]

    forth :
        (cancel_task tid s.manager).1 ≡ none
        → (is_in_final_state r ≡ false) × (busy_of s.settling ≡ some id → ⊥)
    forth h = elim (Option-cases (lookup tid (entries_of s.manager))) [
      | inl n ↦ absurd (cc (rw (cancel_task, n) at h))
      | inr (e, n) ↦ entry_open e n
    ]

    back :
        (is_in_final_state r ≡ false) × (busy_of s.settling ≡ some id → ⊥)
        → (cancel_task tid s.manager).1 ≡ none
    back (f, free) = elim (v.stores.active id r found f) [
      | inl b ↦ absurd (free b)
      | inr (e, e1, _) ↦
          let at : lookup tid (entries_of s.manager) ≡ some e =
            ap (λ i. lookup i (entries_of s.manager))
              (sym ((v.looked (tid, id) held).linked.record_of r found f))
            ∙ e1 in
          rw (cancel_task, at) refl
    ]

-- In every state that the manager can come to, the completion channel of a known download is closed
-- exactly when its record is in a final state.
pub get_completion_chan_lem :
    (s : System) (id : String) (r : DownloadRecord)
    → Reach s
    → lookup id (downloads_of s.manager) ≡ some r
    → get_completion_chan id s.manager ≡ value (is_in_final_state r)
unfolding get_completion_chan Downloads.get
get_completion_chan_lem s id r reach found =
    rw (found, get_completion_chan)
      (ap value ((Reach-Inv reach).stores.records id r found).0.done_final)

-- In every state that the manager can come to with its task store draining, the channel that
-- `Shutdown` waits for is closed exactly when no submission is between its two stores and every
-- download is in a final state, or is being settled by the event loop: its task has left and the call
-- on its record follows.
pub drained_iff_final :
    (s : System)
    → Reach s
    → s.manager.download_tasks.drain_only ≡ true
    → (s.manager.download_tasks.drained_chan ≡ true) ↔ (
        ((tid : String) → lookup tid s.submitting ≡ none)
        × ((id : String) (r : DownloadRecord)
            → lookup id (downloads_of s.manager) ≡ some r
            → (is_in_final_state r ≡ true) ⊎ (busy_of s.settling ≡ some id)))
drained_iff_final s reach draining = (forth, back)
  where
    v : Inv s
    v = Reach-Inv reach

    not_drained :
        (tid : String) (e : TaskEntry)
        → lookup tid (entries_of s.manager) ≡ some e
        → s.manager.download_tasks.drained_chan ≡ true
        → ⊥
    not_drained tid e h d = cc (
      d,
      v.store.drained_exactly,
      is_empty_of_lookup tid (entries_of s.manager) e h,
      ap (λ b. b && Tasks.is_empty (entries_of s.manager)) draining,
    )

    forth :
        s.manager.download_tasks.drained_chan ≡ true
        → ((tid : String) → lookup tid s.submitting ≡ none)
          × ((id : String) (r : DownloadRecord)
              → lookup id (downloads_of s.manager) ≡ some r
              → (is_in_final_state r ≡ true) ⊎ (busy_of s.settling ≡ some id))
    forth d = (
      λ tid. elim (Option-cases (lookup tid s.submitting)) [
        | inl n ↦ n
        | inr (x, n) ↦
            let (e, e1, _) = (v.stores.pending tid x n).entry in absurd (not_drained tid e e1 d)
      ],
      λ id r found. elim (Bool-cases (is_in_final_state r)) [
        | inl f ↦ inl f
        | inr f ↦ elim (v.stores.active id r found f) [
          | inl b ↦ inr b
          | inr (e, e1, _) ↦ absurd (not_drained r.task_id e e1 d)
        ]
      ],
    )

    back :
        ((tid : String) → lookup tid s.submitting ≡ none)
          × ((id : String) (r : DownloadRecord)
              → lookup id (downloads_of s.manager) ≡ some r
              → (is_in_final_state r ≡ true) ⊎ (busy_of s.settling ≡ some id))
        → s.manager.download_tasks.drained_chan ≡ true
    back (none_pending, all) =
        v.store.drained_exactly
        ∙ ap (λ b. b && Tasks.is_empty (entries_of s.manager)) draining
        ∙ ap Tasks.is_empty (
            nil_of_lookup (entries_of s.manager) λ k.
              elim (Option-cases (lookup k (entries_of s.manager))) [
                | inl e ↦ e
                | inr (t, e) ↦ elim (v.stores.live k t e) [
                  | inl (x, q) ↦ absurd (cc (none_pending k, q))
                  | inr (r, found, same, f) ↦ elim (all t.task.download_id r found) [
                    | inl g ↦ absurd (cc (g, f))
                    | inr b ↦ absurd (
                        cc (
                          v.stores.left t.task.download_id r b found f,
                          ap (λ i. lookup i (entries_of s.manager)) same,
                          e,
                        ))
                  ]
                ]
              ])
