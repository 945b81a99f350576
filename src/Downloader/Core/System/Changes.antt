-- ===== src/Downloader/Core/System/Changes.antt =====
-- How the steps of a submission and of the settling of an event keep the stores of the manager
-- (hw3/pkg/downloader/downloader.go) together.
use go_tasks.Prelude.{
  ◌≡◌, refl, sym, ◌∙◌, ◌≢◌, String, true, false, Option, none, some, inl, inr, String-cases, ap,
  subst, some_inj,
}
use go_tasks.Prelude.Maps.{
  Map, lookup, insert, delete, lookup-insert_self, lookup-insert_ne, lookup-delete_self,
  lookup-delete_ne, lookup-insert_inv, lookup-delete_inv,
}
use go_tasks.Downloader.Record.{DownloadRecord, is_in_final_state}
use go_tasks.Downloader.Record.Lifecycle
use go_tasks.Downloader.Tasks.{TaskEntry}
use go_tasks.Downloader.Core.System.{Submission}
use go_tasks.Downloader.Core.System.Stores.{Stores, Pending}

module _ (entries : Map TaskEntry) (downloads : Map DownloadRecord) (subs : Map Submission) where
  -- The task of a new submission is stored.
  pub Stores-add :
      (busy : Option String) (tid : String) (e : TaskEntry) (x : Submission)
      → Stores entries downloads busy subs
      → lookup tid entries ≡ none
      → tid ≢ ""
      → ((id : String) (r : DownloadRecord) → lookup id downloads ≡ some r → r.task_id ≢ tid)
      → ((u : String) (y : Submission)
          → lookup u subs ≡ some y
          → (u ≢ tid) × (y.task.download_id ≢ x.task.download_id))
      → e.task.download_id ≡ x.task.download_id
      → Pending (insert tid e entries) downloads tid x
      → Stores (insert tid e entries) downloads busy (insert tid x subs)
  Stores-add busy tid e x l new_task named no_record others of_download k = record {
    records = l.records;
    active = λ id r h f. elim (l.active id r h f) [
      | inl b ↦ inl b
      | inr (t, e1, e2) ↦
          inr (t, lookup-insert_ne tid r.task_id e entries (λ p. no_record id r h (sym p)) ∙ e1, e2)
    ];
    live = λ u t h. elim (lookup-insert_inv tid u e entries t h) [
      | inl (p, q) ↦
          inl (x, ap (λ i. lookup i (insert tid x subs)) (sym p) ∙ lookup-insert_self tid x subs)
      | inr (p, q) ↦ elim (l.live u t q) [
        | inl (y, s) ↦ inl (y, lookup-insert_ne tid u x subs p ∙ s)
        | inr found ↦ inr found
      ]
    ];
    left = λ id r b h f.
        lookup-insert_ne tid r.task_id e entries (λ p. no_record id r h (sym p))
        ∙ l.left id r b h f;
    unnamed = lookup-insert_ne tid "" e entries named ∙ l.unnamed;
    pending = λ u y h. elim (lookup-insert_inv tid u x subs y h) [
      | inl (p, q) ↦
          subst (λ i. Pending (insert tid e entries) downloads i y) p
            (subst (Pending (insert tid e entries) downloads tid) q k)
      | inr (p, q) ↦
          let (t, e1, e2) = (l.pending u y q).entry in
          record {
            same_task = (l.pending u y q).same_task;
            entry = (t, lookup-insert_ne tid u e entries p ∙ e1, e2);
            not_stored = (l.pending u y q).not_stored;
            record_task = (l.pending u y q).record_task;
            record_id = (l.pending u y q).record_id;
            record_fine = (l.pending u y q).record_fine;
            record_open = (l.pending u y q).record_open;
          }
    ];
    distinct = λ t u y z h g s. elim (lookup-insert_inv tid t x subs y h) [
      | inl (p, q) ↦ elim (lookup-insert_inv tid u x subs z g) [
        | inl (p', q') ↦ sym p ∙ p'
        | inr (p', q') ↦ absurd ((others u z q').1 (sym (ap (λ a. a.task.download_id) q ∙ s)))
      ]
      | inr (p, q) ↦ elim (lookup-insert_inv tid u x subs z g) [
        | inl (p', q') ↦ absurd ((others t y q).1 (s ∙ sym (ap (λ a. a.task.download_id) q')))
        | inr (p', q') ↦ l.distinct t u y z q q' s
      ]
    ];
  }

  -- The record of a submission is stored.
  pub Stores-store :
      (busy : Option String) (tid : String) (x : Submission)
      → Stores entries downloads busy subs
      → lookup tid subs ≡ some x
      → (busy ≡ some x.task.download_id → ⊥)
      → Stores entries (insert x.task.download_id x.download downloads) busy (delete tid subs)
  Stores-store busy tid x l s free = record {
    records = λ j r e. elim (lookup-insert_inv did j x.download downloads r e) [
      | inl (p, q) ↦ subst (λ y. Lifecycle.Inv y × (y.id ≡ j)) q (k.record_fine, k.record_id ∙ p)
      | inr (p, q) ↦ l.records j r q
    ];
    active = λ j r e f. elim (lookup-insert_inv did j x.download downloads r e) [
      | inl (p, q) ↦
          let (t, e1, e2) = k.entry in
          inr (
            t,
            ap (λ i. lookup i entries) (ap (λ y. y.task_id) (sym q) ∙ k.record_task) ∙ e1,
            e2 ∙ p,
          )
      | inr (p, q) ↦ l.active j r q f
    ];
    live = λ u t h. elim (String-cases tid u) [
      | inl p ↦
          let (t', e1, e2) = k.entry in
          let same : t' ≡ t = some_inj (sym e1 ∙ ap (λ i. lookup i entries) p ∙ h) in
          inr (
            x.download,
            ap (λ i. lookup i (insert did x.download downloads))
                  (ap (λ y. y.task.download_id) (sym same) ∙ e2)
                ∙ lookup-insert_self did x.download downloads,
            k.record_task ∙ p,
            k.record_open,
          )
      | inr p ↦ elim (l.live u t h) [
        | inl (y, g) ↦ inl (y, lookup-delete_ne tid u subs p ∙ g)
        | inr (r, e1, e2, e3) ↦ inr (
          r,
          lookup-insert_ne did t.task.download_id x.download downloads
                (λ q. cc (ap (λ i. lookup i downloads) q, k.not_stored, e1))
              ∙ e1,
          e2,
          e3,
        )
      ]
    ];
    left = λ j r b e f. elim (lookup-insert_inv did j x.download downloads r e) [
      | inl (p, q) ↦ absurd (free (b ∙ ap some (sym p)))
      | inr (p, q) ↦ l.left j r b q f
    ];
    unnamed = l.unnamed;
    pending = λ u y h.
        let (p, g) = lookup-delete_inv tid u subs y h in
        record {
          same_task = (l.pending u y g).same_task;
          entry = (l.pending u y g).entry;
          not_stored =
              lookup-insert_ne did y.task.download_id x.download downloads
                (λ q. p (l.distinct tid u x y s g q))
              ∙ (l.pending u y g).not_stored;
          record_task = (l.pending u y g).record_task;
          record_id = (l.pending u y g).record_id;
          record_fine = (l.pending u y g).record_fine;
          record_open = (l.pending u y g).record_open;
        };
    distinct = λ t u y z h g.
        l.distinct t u y z (lookup-delete_inv tid t subs y h).1
          (lookup-delete_inv tid u subs z g).1;
  }
    where
      did : String
      did = x.task.download_id

      k : Pending entries downloads tid x
      k = l.pending tid x s

  -- The task of an event leaves its store.
  pub Stores-leave :
      (tid did : String)
      → Stores entries downloads none subs
      → ((e : TaskEntry) → lookup tid entries ≡ some e → e.task.download_id ≡ did)
      → ((r : DownloadRecord)
          → lookup did downloads ≡ some r
          → is_in_final_state r ≡ false
          → r.task_id ≡ tid)
      → ((u : String) (y : Submission) → lookup u subs ≡ some y → tid ≢ u)
      → Stores (delete tid entries) downloads (some did) subs
  Stores-leave tid did l entry_of record_of apart = record {
    records = l.records;
    active = λ id r h f. elim (l.active id r h f) [
      | inl b ↦ absurd (cc b)
      | inr (t, e1, e2) ↦ elim (String-cases tid r.task_id) [
        | inl p ↦ inl (ap some (sym (entry_of t (ap (λ i. lookup i entries) p ∙ e1)) ∙ e2))
        | inr p ↦ inr (t, lookup-delete_ne tid r.task_id entries p ∙ e1, e2)
      ]
    ];
    live = λ u t h. l.live u t (lookup-delete_inv tid u entries t h).1;
    left = λ id r b h f.
        let at : did ≡ id = some_inj b in
        let named : r.task_id ≡ tid = record_of r (ap (λ i. lookup i downloads) at ∙ h) f in
        ap (λ i. lookup i (delete tid entries)) named ∙ lookup-delete_self tid entries;
    unnamed = elim (String-cases tid "") [
      | inl p ↦ subst (λ i. lookup i (delete tid entries) ≡ none) p (lookup-delete_self tid entries)
      | inr p ↦ lookup-delete_ne tid "" entries p ∙ l.unnamed
    ];
    pending = λ u y h.
        let (t, e1, e2) = (l.pending u y h).entry in
        record {
          same_task = (l.pending u y h).same_task;
          entry = (t, lookup-delete_ne tid u entries (apart u y h) ∙ e1, e2);
          not_stored = (l.pending u y h).not_stored;
          record_task = (l.pending u y h).record_task;
          record_id = (l.pending u y h).record_id;
          record_fine = (l.pending u y h).record_fine;
          record_open = (l.pending u y h).record_open;
        };
    distinct = l.distinct;
  }

  -- Its record comes to a final state.
  pub Stores-settle :
      (did : String) (r r' : DownloadRecord)
      → Stores entries downloads (some did) subs
      → lookup did downloads ≡ some r
      → Lifecycle.Inv r'
      → r'.id ≡ r.id
      → is_in_final_state r' ≡ true
      → Stores entries (insert did r' downloads) none subs
  Stores-settle did r r' l found inv same_id final = record {
    records = λ j x e. elim (lookup-insert_inv did j r' downloads x e) [
      | inl (p, q) ↦
          subst (λ y. Lifecycle.Inv y × (y.id ≡ j)) q (inv, same_id ∙ (l.records did r found).1 ∙ p)
      | inr (p, q) ↦ l.records j x q
    ];
    active = λ j x e f. elim (lookup-insert_inv did j r' downloads x e) [
      | inl (p, q) ↦ absurd (cc (ap is_in_final_state q))
      | inr (p, q) ↦ elim (l.active j x q f) [ inl b ↦ absurd (p (some_inj b)) | inr t ↦ inr t ]
    ];
    live = λ u t h. elim (l.live u t h) [
      | inl s ↦ inl s
      | inr (x, e1, e2, e3) ↦ elim (String-cases did t.task.download_id) [
        | inl p ↦ absurd (
            cc (
              l.left did x refl (ap (λ i. lookup i downloads) p ∙ e1) e3,
              ap (λ i. lookup i entries) e2,
              h,
            ))
        | inr p ↦ inr (x, lookup-insert_ne did _ r' downloads p ∙ e1, e2, e3)
      ]
    ];
    left = λ j x b e f. absurd (cc b);
    unnamed = l.unnamed;
    pending = λ u y h. record {
      same_task = (l.pending u y h).same_task;
      entry = (l.pending u y h).entry;
      not_stored =
          lookup-insert_ne did y.task.download_id r' downloads
            (λ p. cc (ap (λ i. lookup i downloads) p, found, (l.pending u y h).not_stored))
          ∙ (l.pending u y h).not_stored;
      record_task = (l.pending u y h).record_task;
      record_id = (l.pending u y h).record_id;
      record_fine = (l.pending u y h).record_fine;
      record_open = (l.pending u y h).record_open;
    };
    distinct = l.distinct;
  }
