-- ===== src/Downloader/Core/System/Held.antt =====
-- The pairs of a task and a download that a goroutine holds: a started task, or a caller of
-- `CancelDownload` (hw3/pkg/downloader/downloader.go). They stay true of the stores.
use go_tasks.Prelude.{
  ◌≡◌, sym, ◌∙◌, ◌≢◌, String, true, Option, some, inl, inr, ap, some_inj, Bool-cases,
}
use go_tasks.Prelude.Maps.{
  Map, lookup, insert, delete, lookup-insert_self, lookup-insert_inv, lookup-delete_inv,
}
use go_tasks.Downloader.Record.{DownloadRecord, is_in_final_state}
use go_tasks.Downloader.Tasks.{TaskEntry}
use go_tasks.Downloader.Core.Links.{Linked}
use go_tasks.Downloader.Core.Linked.{Linked-update}
use go_tasks.Downloader.Core.System.{Submission}
use go_tasks.Downloader.Core.System.Stores.{Stores}

pub record Held (entries : Map TaskEntry) (downloads : Map DownloadRecord) (subs : Map Submission)
    (tid did : String) : Type 0 where
  pub linked : Linked entries downloads tid did
  pub apart :
      (u : String) (x : Submission)
      → lookup u subs ≡ some x
      → (tid ≢ u) × (did ≢ x.task.download_id)

module _ (entries : Map TaskEntry) (downloads : Map DownloadRecord) (subs : Map Submission) where
  module _ (t d : String) (k : Held entries downloads subs t d) where
    pub Held-update :
        (id : String) (r r' : DownloadRecord)
        → lookup id downloads ≡ some r
        → r'.task_id ≡ r.task_id
        → is_in_final_state r' ≡ is_in_final_state r
        → Held entries (insert id r' downloads) subs t d
    Held-update id r r' found same_task same_final = record {
      linked = Linked-update entries downloads t d k.linked id r r' found same_task same_final;
      apart = k.apart;
    }

    pub Held-add :
        (tid : String) (e : TaskEntry) (x : Submission)
        → t ≢ tid
        → d ≢ x.task.download_id
        → Held (insert tid e entries) downloads (insert tid x subs) t d
    Held-add tid e x other_task other_download = record {
      linked = record {
        entry_of = λ y h. elim (lookup-insert_inv tid t e entries y h) [
          | inl (p, q) ↦ absurd (other_task (sym p))
          | inr (p, q) ↦ k.linked.entry_of y q
        ];
        record_of = k.linked.record_of;
      };
      apart = λ u y h. elim (lookup-insert_inv tid u x subs y h) [
        | inl (p, q) ↦ (
          λ s. other_task (s ∙ sym p),
          λ s. other_download (s ∙ ap (λ a. a.task.download_id) (sym q)),
        )
        | inr (p, q) ↦ k.apart u y q
      ];
    }

    pub Held-store :
        (tid : String) (x : Submission)
        → lookup tid subs ≡ some x
        → Held entries (insert x.task.download_id x.download downloads) (delete tid subs) t d
    Held-store tid x s = record {
      linked = record {
        entry_of = k.linked.entry_of;
        record_of = λ r e f.
            elim (lookup-insert_inv x.task.download_id d x.download downloads r e) [
              | inl (p, q) ↦ absurd ((k.apart tid x s).1 (sym p))
              | inr (p, q) ↦ k.linked.record_of r q f
            ];
      };
      apart = λ u y h. k.apart u y (lookup-delete_inv tid u subs y h).1;
    }

    pub Held-leave : (tid : String) → Held (delete tid entries) downloads subs t d
    Held-leave tid = record {
      linked = record {
        entry_of = λ e h. k.linked.entry_of e (lookup-delete_inv tid t entries e h).1;
        record_of = k.linked.record_of;
      };
      apart = k.apart;
    }

    pub Held-settle :
        (did : String) (r' : DownloadRecord)
        → is_in_final_state r' ≡ true
        → Held entries (insert did r' downloads) subs t d
    Held-settle did r' final = record {
      linked = record {
        entry_of = k.linked.entry_of;
        record_of = λ x e f. elim (lookup-insert_inv did d r' downloads x e) [
          | inl (p, q) ↦ absurd (cc (ap is_in_final_state q))
          | inr (p, q) ↦ k.linked.record_of x q f
        ];
      };
      apart = k.apart;
    }

  module _ (busy : Option String) (l : Stores entries downloads busy subs) where
    -- The task of a submission whose record was stored.
    pub Held-started :
        (tid : String) (x : Submission)
        → lookup tid subs ≡ some x
        → Held entries
            (insert x.task.download_id x.download downloads)
            (delete tid subs)
            x.task.id
            x.task.download_id
    Held-started tid x s =
        let k = l.pending tid x s in
        let (t, e1, e2) = k.entry in
        record {
          linked = record {
            entry_of = λ e h.
                ap (λ y. y.task.download_id)
                  (some_inj (sym h ∙ ap (λ i. lookup i entries) k.same_task ∙ e1))
                ∙ e2;
            record_of = λ r h f.
                ap (λ y. y.task_id)
                  (some_inj (sym h ∙ lookup-insert_self x.task.download_id x.download downloads))
                ∙ k.record_task
                ∙ sym k.same_task;
          };
          apart = λ u y h.
              let (p, g) = lookup-delete_inv tid u subs y h in
              (λ q. p (sym k.same_task ∙ q), λ q. p (l.distinct tid u x y s g q));
        }

    looked-entry :
        (id : String) (r : DownloadRecord)
        → lookup id downloads ≡ some r
        → (e : TaskEntry) → lookup r.task_id entries ≡ some e
        → e.task.download_id ≡ id
    looked-entry id r found e h = elim (Bool-cases (is_in_final_state r)) [
      | inl f ↦
          absurd
            (cc (h, ap (λ i. lookup i entries) ((l.records id r found).0.detached f), l.unnamed))
      | inr f ↦ elim (l.active id r found f) [
        | inl b ↦ absurd (cc (l.left id r b found f, h))
        | inr (t, e1, e2) ↦ ap (λ y. y.task.download_id) (some_inj (sym h ∙ e1)) ∙ e2
      ]
    ]

    -- What a look at a record finds.
    pub Held-looked :
        (id : String) (r : DownloadRecord)
        → lookup id downloads ≡ some r
        → Held entries downloads subs r.task_id id
    Held-looked id r found = record {
      linked = record {
        entry_of = looked-entry id r found;
        record_of = λ x e f. ap (λ y. y.task_id) (some_inj (sym e ∙ found));
      };
      apart = λ u x s.
          let k = l.pending u x s in
          let (t, e1, e2) = k.entry in
          let other : id ≢ x.task.download_id =
            λ q. cc (ap (λ i. lookup i downloads) q, found, k.not_stored) in
          (
            λ p. other (sym (looked-entry id r found t (ap (λ i. lookup i entries) p ∙ e1)) ∙ e2),
            other,
          );
    }
