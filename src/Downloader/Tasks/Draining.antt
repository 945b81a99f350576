-- ===== src/Downloader/Tasks/Draining.antt =====
-- The drain mode of the task store (hw3/pkg/downloader/tasks_store.go).
use go_tasks.Prelude.{
  ◌≡◌, refl, String, true, false, ◌&&◌, none, some, [], ◌∷◌, arith, Bool-cases, inl, inr,
}
use go_tasks.Prelude.Maps.{Map, lookup, delete, insert-ne-nil}
use go_tasks.Prelude.Outcome.{ok, value, failure}
use go_tasks.Downloader.Tasks.{
  TaskEntry, TasksStore, new_tasks_store, is_empty, enter_drain_only, remove, add, task_not_found,
}

-- The channel is closed exactly when the store drains and holds no task.
pub record Inv (s : TasksStore) : Type 0 where
  pub once_closed : s.drain_once ≡ s.drained_chan
  pub drained_exactly : s.drained_chan ≡ (s.drain_only && is_empty s.entries)

pub new-Inv : Inv new_tasks_store
unfolding new_tasks_store
new-Inv = ground arith

pub enter_drain_only-Inv :
    (s : TasksStore)
    → Inv s
    → (t : TasksStore) × (enter_drain_only s ≡ ok t)
      × Inv t
      × (t.entries ≡ s.entries)
      × (t.drain_only ≡ true)
unfolding enter_drain_only
enter_drain_only-Inv s v = elim (Bool-cases (is_empty s.entries)) [
  | inl e ↦ (
    record s { drain_only = true; drained_chan = true; drain_once = true },
    ground arith,
    ground arith,
    refl,
    refl,
  )
  | inr e ↦ (record s { drain_only = true }, ground arith, ground arith, refl, refl)
]

pub add-Inv : (e : TaskEntry) (s : TasksStore) → Inv s → Inv (add e s).0
unfolding add
add-Inv e s v = ground (arith, insert-ne-nil e.task.id e s.entries)

-- A store that holds the task is not empty.
pub is_empty_of_lookup :
    (k : String) (m : Map TaskEntry) (e : TaskEntry) → lookup k m ≡ some e → is_empty m ≡ false
unfolding lookup
is_empty_of_lookup k [] e h = cc
is_empty_of_lookup k (x ∷ m) e h = refl

pub remove-Inv :
    (task_id : String) (s : TasksStore) (e : TaskEntry)
    → Inv s
    → lookup task_id s.entries ≡ some e
    → (t : TasksStore) × (remove task_id s ≡ ok (t, value e))
      × Inv t
      × (t.entries ≡ delete task_id s.entries)
      × (t.drain_only ≡ s.drain_only)
unfolding remove
remove-Inv task_id s e v h =
    elim (Bool-cases (s.drain_only && is_empty (delete task_id s.entries))) [
      | inl d ↦ (
        record s { entries = delete task_id s.entries; drained_chan = true; drain_once = true },
        ground (arith, is_empty_of_lookup task_id s.entries e),
        ground arith,
        refl,
        refl,
      )
      | inr d ↦ (
        record s { entries = delete task_id s.entries },
        ground arith,
        ground (arith, is_empty_of_lookup task_id s.entries e),
        refl,
        refl,
      )
    ]

pub remove_missing :
    (task_id : String) (s : TasksStore)
    → lookup task_id s.entries ≡ none
    → remove task_id s ≡ ok (s, failure task_not_found)
unfolding remove
remove_missing task_id s h = rw (h, remove)
