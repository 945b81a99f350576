-- ===== src/Downloader/Core/Links.antt =====
-- How the tasks and the download records of the manager (hw3/pkg/downloader/downloader.go) belong
-- together, and how an update, a finish and a new download keep that.
use go_tasks.Prelude.{
  ◌≡◌, sym, ◌∙◌, ◌≢◌, String, true, false, none, some, inl, inr, String-cases, ap, subst,
}
use go_tasks.Prelude.Maps.{
  Map, lookup, insert, delete, lookup-insert_self, lookup-insert_ne, lookup-delete_self,
  lookup-delete_ne, lookup-insert_inv, lookup-delete_inv,
}
use go_tasks.Downloader.Record.{DownloadRecord, is_in_final_state}
use go_tasks.Downloader.Record.Lifecycle
use go_tasks.Downloader.Tasks.{TaskEntry}

-- A task, known by its id and the id of its download, is the one that the stores know under these.
pub record Linked (entries : Map TaskEntry) (downloads : Map DownloadRecord) (tid did : String)
    : Type 0 where
  pub entry_of : (e : TaskEntry) → lookup tid entries ≡ some e → e.task.download_id ≡ did
  pub record_of :
      (r : DownloadRecord)
      → lookup did downloads ≡ some r
      → is_in_final_state r ≡ false
      → r.task_id ≡ tid

pub record Links (entries : Map TaskEntry) (downloads : Map DownloadRecord) : Type 0 where
  pub records :
      (id : String) (r : DownloadRecord)
      → lookup id downloads ≡ some r
      → Lifecycle.Inv r × (r.id ≡ id)
  pub active :
      (id : String) (r : DownloadRecord)
      → lookup id downloads ≡ some r
      → is_in_final_state r ≡ false
      → (e : TaskEntry) × (lookup r.task_id entries ≡ some e) × (e.task.download_id ≡ id)
  pub live :
      (tid : String) (e : TaskEntry)
      → lookup tid entries ≡ some e
      → (r : DownloadRecord) × (lookup e.task.download_id downloads ≡ some r)
        × (r.task_id ≡ tid)
        × (is_in_final_state r ≡ false)
  pub unnamed : lookup "" entries ≡ none

module _ (entries : Map TaskEntry) (downloads : Map DownloadRecord)
    (l : Links entries downloads) where
  -- An update that keeps the record's ids and its finality.
  pub Links-update :
      (id : String) (r r' : DownloadRecord)
      → lookup id downloads ≡ some r
      → Lifecycle.Inv r'
      → r'.id ≡ r.id
      → r'.task_id ≡ r.task_id
      → is_in_final_state r' ≡ is_in_final_state r
      → Links entries (insert id r' downloads)
  Links-update id r r' found inv same_id same_task same_final = record {
    records = λ j x e. elim (lookup-insert_inv id j r' downloads x e) [
      | inl (p, q) ↦
          subst (λ y. Lifecycle.Inv y × (y.id ≡ j)) q (inv, same_id ∙ (l.records id r found).1 ∙ p)
      | inr (p, q) ↦ l.records j x q
    ];
    active = λ j x e f. elim (lookup-insert_inv id j r' downloads x e) [
      | inl (p, q) ↦
          let (t, e1, e2) = l.active id r found (cc (ap is_in_final_state q)) in
          (t, ap (λ y. lookup y entries) (ap (λ y. y.task_id) (sym q) ∙ same_task) ∙ e1, e2 ∙ p)
      | inr (p, q) ↦ l.active j x q f
    ];
    live = λ tid e h.
        let (x, e1, e2, e3) = l.live tid e h in
        elim (String-cases id e.task.download_id) [
          | inl p ↦
              let q : r ≡ x = cc (found, e1, ap (λ i. lookup i downloads) p) in
              (
                r',
                ap (λ i. lookup i (insert id r' downloads)) (sym p)
                    ∙ lookup-insert_self id r' downloads,
                same_task ∙ ap (λ y. y.task_id) q ∙ e2,
                same_final ∙ ap is_in_final_state q ∙ e3,
              )
          | inr p ↦ (x, lookup-insert_ne id _ r' downloads p ∙ e1, e2, e3)
        ];
    unnamed = l.unnamed;
  }

  -- The task of a download leaves while its record comes to a final state.
  pub Links-finish :
      (tid did : String) (r r' : DownloadRecord)
      → Linked entries downloads tid did
      → lookup did downloads ≡ some r
      → Lifecycle.Inv r'
      → r'.id ≡ r.id
      → is_in_final_state r' ≡ true
      → Links (delete tid entries) (insert did r' downloads)
  Links-finish tid did r r' k found inv same_id final = record {
    records = λ j x e. elim (lookup-insert_inv did j r' downloads x e) [
      | inl (p, q) ↦
          subst (λ y. Lifecycle.Inv y × (y.id ≡ j)) q (inv, same_id ∙ (l.records did r found).1 ∙ p)
      | inr (p, q) ↦ l.records j x q
    ];
    active = λ j x e f. elim (lookup-insert_inv did j r' downloads x e) [
      | inl (p, q) ↦ absurd (cc (ap is_in_final_state q))
      | inr (p, q) ↦
          let (t, e1, e2) = l.active j x q f in
          elim (String-cases tid x.task_id) [
            | inl s ↦ absurd (p (sym (k.entry_of t (ap (λ i. lookup i entries) s ∙ e1)) ∙ e2))
            | inr s ↦ (t, lookup-delete_ne tid x.task_id entries s ∙ e1, e2)
          ]
    ];
    live = λ t e h.
        let (s, h') = lookup-delete_inv tid t entries e h in
        let (x, e1, e2, e3) = l.live t e h' in
        elim (String-cases did e.task.download_id) [
          | inl p ↦ absurd (s (sym (k.record_of x (ap (λ i. lookup i downloads) p ∙ e1) e3) ∙ e2))
          | inr p ↦ (x, lookup-insert_ne did _ r' downloads p ∙ e1, e2, e3)
        ];
    unnamed = elim (String-cases tid "") [
      | inl p ↦ subst (λ i. lookup i (delete tid entries) ≡ none) p (lookup-delete_self tid entries)
      | inr p ↦ lookup-delete_ne tid "" entries p ∙ l.unnamed
    ];
  }

  -- A new download with its task, under fresh ids.
  pub Links-submit :
      (tid did : String) (e : TaskEntry) (r : DownloadRecord)
      → lookup tid entries ≡ none
      → lookup did downloads ≡ none
      → tid ≢ ""
      → e.task.download_id ≡ did
      → Lifecycle.Inv r
      → r.id ≡ did
      → r.task_id ≡ tid
      → is_in_final_state r ≡ false
      → Links (insert tid e entries) (insert did r downloads)
  Links-submit tid did e r new_task new_download named of_download inv rid rtask open_r = record {
    records = λ j x h. elim (lookup-insert_inv did j r downloads x h) [
      | inl (p, q) ↦ subst (λ y. Lifecycle.Inv y × (y.id ≡ j)) q (inv, rid ∙ p)
      | inr (p, q) ↦ l.records j x q
    ];
    active = λ j x h f. elim (lookup-insert_inv did j r downloads x h) [
      | inl (p, q) ↦ (
        e,
        ap (λ i. lookup i (insert tid e entries)) (ap (λ y. y.task_id) (sym q) ∙ rtask)
            ∙ lookup-insert_self tid e entries,
        of_download ∙ p,
      )
      | inr (p, q) ↦
          let (t, e1, e2) = l.active j x q f in
          (
            t,
            lookup-insert_ne tid x.task_id e entries
                  (λ s. cc (ap (λ i. lookup i entries) s, new_task, e1))
                ∙ e1,
            e2,
          )
    ];
    live = λ t x h. elim (lookup-insert_inv tid t e entries x h) [
      | inl (p, q) ↦ (
        r,
        ap (λ i. lookup i (insert did r downloads))
              (ap (λ y. y.task.download_id) (sym q) ∙ of_download)
            ∙ lookup-insert_self did r downloads,
        rtask ∙ p,
        open_r,
      )
      | inr (p, q) ↦
          let (y, e1, e2, e3) = l.live t x q in
          (
            y,
            lookup-insert_ne did x.task.download_id r downloads
                  (λ s. cc (ap (λ i. lookup i downloads) s, new_download, e1))
                ∙ e1,
            e2,
            e3,
          )
    ];
    unnamed = lookup-insert_ne tid "" e entries named ∙ l.unnamed;
  }
