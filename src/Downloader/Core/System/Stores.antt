-- ===== src/Downloader/Core/System/Stores.antt =====
-- How the tasks and the records of the manager (hw3/pkg/downloader/downloader.go) belong together
-- while a submission or the event loop is between its two stores, and how each step keeps that.
use go_tasks.Prelude.{
  ◌≡◌, sym, ◌∙◌, String, false, Option, none, some, inl, inr, ◌⊎◌, String-cases, ap, subst,
}
use go_tasks.Prelude.Maps.{
  Map, lookup, insert, lookup-insert_self, lookup-insert_ne, lookup-insert_inv,
}
use go_tasks.Downloader.Record.{DownloadRecord, is_in_final_state}
use go_tasks.Downloader.Record.Lifecycle
use go_tasks.Downloader.Tasks.{TaskEntry}
use go_tasks.Downloader.Core.System.{Submission}

-- A submission under the id of its task.
pub record Pending (entries : Map TaskEntry) (downloads : Map DownloadRecord) (tid : String)
    (x : Submission) : Type 0 where
  pub same_task : x.task.id ≡ tid
  pub entry :
      (e : TaskEntry) × (lookup tid entries ≡ some e) × (e.task.download_id ≡ x.task.download_id)
  pub not_stored : lookup x.task.download_id downloads ≡ none
  pub record_task : x.download.task_id ≡ tid
  pub record_id : x.download.id ≡ x.task.download_id
  pub record_fine : Lifecycle.Inv x.download
  pub record_open : is_in_final_state x.download ≡ false

pub record Stores (entries : Map TaskEntry) (downloads : Map DownloadRecord) (busy : Option String)
    (subs : Map Submission) : Type 0 where
  pub records :
      (id : String) (r : DownloadRecord)
      → lookup id downloads ≡ some r
      → Lifecycle.Inv r × (r.id ≡ id)
  pub active :
      (id : String) (r : DownloadRecord)
      → lookup id downloads ≡ some r
      → is_in_final_state r ≡ false
      → (busy ≡ some id)
        ⊎ ((e : TaskEntry) × (lookup r.task_id entries ≡ some e) × (e.task.download_id ≡ id))
  pub live :
      (tid : String) (e : TaskEntry)
      → lookup tid entries ≡ some e
      → ((x : Submission) × (lookup tid subs ≡ some x))
        ⊎ ((r : DownloadRecord) × (lookup e.task.download_id downloads ≡ some r)
            × (r.task_id ≡ tid)
            × (is_in_final_state r ≡ false))
  pub left :
      (id : String) (r : DownloadRecord)
      → busy ≡ some id
      → lookup id downloads ≡ some r
      → is_in_final_state r ≡ false
      → lookup r.task_id entries ≡ none
  pub unnamed : lookup "" entries ≡ none
  pub pending :
      (tid : String) (x : Submission) → lookup tid subs ≡ some x → Pending entries downloads tid x
  pub distinct :
      (t u : String) (x y : Submission)
      → lookup t subs ≡ some x
      → lookup u subs ≡ some y
      → x.task.download_id ≡ y.task.download_id
      → t ≡ u

module _ (entries : Map TaskEntry) (downloads : Map DownloadRecord) (subs : Map Submission) where
  -- An update that keeps the record's ids and its finality, between two settled events.
  pub Stores-update :
      (id : String) (r r' : DownloadRecord)
      → Stores entries downloads none subs
      → lookup id downloads ≡ some r
      → Lifecycle.Inv r'
      → r'.id ≡ r.id
      → r'.task_id ≡ r.task_id
      → is_in_final_state r' ≡ is_in_final_state r
      → Stores entries (insert id r' downloads) none subs
  Stores-update id r r' l found inv same_id same_task same_final = record {
    records = λ j x e. elim (lookup-insert_inv id j r' downloads x e) [
      | inl (p, q) ↦
          subst (λ y. Lifecycle.Inv y × (y.id ≡ j)) q (inv, same_id ∙ (l.records id r found).1 ∙ p)
      | inr (p, q) ↦ l.records j x q
    ];
    active = λ j x e f. elim (lookup-insert_inv id j r' downloads x e) [
      | inl (p, q) ↦ elim (l.active id r found (cc (ap is_in_final_state q))) [
        | inl b ↦ absurd (cc b)
        | inr (t, e1, e2) ↦
            inr
              (t, ap (λ y. lookup y entries) (ap (λ y. y.task_id) (sym q) ∙ same_task) ∙ e1, e2 ∙ p)
      ]
      | inr (p, q) ↦ l.active j x q f
    ];
    live = λ tid e h. elim (l.live tid e h) [
      | inl s ↦ inl s
      | inr (x, e1, e2, e3) ↦ elim (String-cases id e.task.download_id) [
        | inl p ↦
            let q : r ≡ x = cc (found, e1, ap (λ i. lookup i downloads) p) in
            inr (
              r',
              ap (λ i. lookup i (insert id r' downloads)) (sym p)
                  ∙ lookup-insert_self id r' downloads,
              same_task ∙ ap (λ y. y.task_id) q ∙ e2,
              same_final ∙ ap is_in_final_state q ∙ e3,
            )
        | inr p ↦ inr (x, lookup-insert_ne id _ r' downloads p ∙ e1, e2, e3)
      ]
    ];
    left = λ j x b e f. absurd (cc b);
    unnamed = l.unnamed;
    pending = λ tid x h. still (l.pending tid x h);
    distinct = l.distinct;
  }
    where
      still :
          {tid : String} {x : Submission}
          → Pending entries downloads tid x
          → Pending entries (insert id r' downloads) tid x
      still {tid} {x} k = record {
        same_task = k.same_task;
        entry = k.entry;
        not_stored =
            lookup-insert_ne id _ r' downloads
              (λ p. cc (ap (λ i. lookup i downloads) p, found, k.not_stored))
            ∙ k.not_stored;
        record_task = k.record_task;
        record_id = k.record_id;
        record_fine = k.record_fine;
        record_open = k.record_open;
      }
