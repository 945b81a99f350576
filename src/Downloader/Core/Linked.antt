-- ===== src/Downloader/Core/Linked.antt =====
-- A started task stays linked to its entry and its record (hw3/pkg/downloader/downloader.go).
use go_tasks.Prelude.{◌≡◌, sym, ◌∙◌, ◌≢◌, String, true, some, inl, inr, ap, some_inj}
use go_tasks.Prelude.Maps.{
  Map, lookup, insert, delete, lookup-insert_self, lookup-insert_inv, lookup-delete_inv,
}
use go_tasks.Downloader.Record.{DownloadRecord, is_in_final_state}
use go_tasks.Downloader.Tasks.{TaskEntry}
use go_tasks.Downloader.Core.Links.{Linked}

module _ (entries : Map TaskEntry) (downloads : Map DownloadRecord) (t d : String)
    (k : Linked entries downloads t d) where
  pub Linked-update :
      (id : String) (r r' : DownloadRecord)
      → lookup id downloads ≡ some r
      → r'.task_id ≡ r.task_id
      → is_in_final_state r' ≡ is_in_final_state r
      → Linked entries (insert id r' downloads) t d
  Linked-update id r r' found same_task same_final = record {
    entry_of = k.entry_of;
    record_of = λ x e f. elim (lookup-insert_inv id d r' downloads x e) [
      | inl (p, q) ↦
          ap (λ y. y.task_id) (sym q)
          ∙ same_task
          ∙ k.record_of r (ap (λ i. lookup i downloads) (sym p) ∙ found)
              (cc (ap is_in_final_state q))
      | inr (p, q) ↦ k.record_of x q f
    ];
  }

  pub Linked-finish :
      (tid did : String) (r' : DownloadRecord)
      → is_in_final_state r' ≡ true
      → Linked (delete tid entries) (insert did r' downloads) t d
  Linked-finish tid did r' final = record {
    entry_of = λ e h. k.entry_of e (lookup-delete_inv tid t entries e h).1;
    record_of = λ x e f. elim (lookup-insert_inv did d r' downloads x e) [
      | inl (p, q) ↦ absurd (cc (ap is_in_final_state q))
      | inr (p, q) ↦ k.record_of x q f
    ];
  }

  pub Linked-submit :
      (tid did : String) (e : TaskEntry) (r : DownloadRecord)
      → t ≢ tid
      → d ≢ did
      → Linked (insert tid e entries) (insert did r downloads) t d
  Linked-submit tid did e r other_task other_download = record {
    entry_of = λ x h. elim (lookup-insert_inv tid t e entries x h) [
      | inl (p, q) ↦ absurd (other_task (sym p))
      | inr (p, q) ↦ k.entry_of x q
    ];
    record_of = λ x h f. elim (lookup-insert_inv did d r downloads x h) [
      | inl (p, q) ↦ absurd (other_download (sym p))
      | inr (p, q) ↦ k.record_of x q f
    ];
  }

-- The task of a new download.
pub Linked-new :
    (entries : Map TaskEntry) (downloads : Map DownloadRecord) (tid did : String) (e : TaskEntry)
    (r : DownloadRecord)
    → e.task.download_id ≡ did
    → r.task_id ≡ tid
    → Linked (insert tid e entries) (insert did r downloads) tid did
Linked-new entries downloads tid did e r of_download rtask = record {
  entry_of = λ x h.
      ap (λ y. y.task.download_id) (some_inj (sym h ∙ lookup-insert_self tid e entries))
      ∙ of_download;
  record_of =
      λ x h f. ap (λ y. y.task_id) (some_inj (sym h ∙ lookup-insert_self did r downloads)) ∙ rtask;
}
