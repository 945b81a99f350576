-- ===== src/Downloader/Record/Lifecycle.antt =====
-- The life of a download record (hw3/pkg/downloader/download_record.go) under any sequence of the
-- calls that change it.
use go_tasks.Prelude.{
  ℕ, ◌≡◌, refl, String, true, false, inl, inr, Option, none, some, List, [], ◌∷◌, arith, Bool-cases,
}
use mathlib.Core.Option
use go_tasks.Prelude.Int.{ℤ, pos, negsuc}
use go_tasks.Prelude.Outcome.{Outcome, ok, Err, ◌>>=◌}
use go_tasks.Downloader.Record.{
  DownloadStatus, requested, failed, canceled, completed, DownloadRecord, new_download_record,
  set_task_id, is_in_final_state, start, set_bytes_downloaded, cancel, fail, complete,
}

-- A call of a method that moves the record through its life.
pub data Call : Type 0 where
  starts : ℤ → Call
  updates : ℤ → Call
  cancels : Call
  fails : Err → Call
  completes : ℤ → Call

unfoldable pub apply : ℕ → Call → DownloadRecord → Outcome DownloadRecord
unfolding start set_bytes_downloaded cancel fail complete
apply now (starts n) d = ok (start now n d)
apply now (updates n) d = ok (set_bytes_downloaded n d)
apply now cancels d = cancel now d
apply now (fails e) d = fail now e d
apply now (completes n) d = complete now n d

unfoldable pub run : List (ℕ × Call) → DownloadRecord → Outcome DownloadRecord
run [] d = ok d
run ((now, c) ∷ cs) d = apply now c d >>= run cs

-- What holds of a record between two calls: the channel is closed in the final states only, and
-- each field that a state has not filled yet still has its initial value.
pub record Inv (d : DownloadRecord) : Type 0 where
  pub done_final : d.done ≡ is_in_final_state d
  pub detached : is_in_final_state d ≡ true → d.task_id ≡ ""
  pub not_ended : is_in_final_state d ≡ false → (d.end_time ≡ 0) × (d.cause ≡ none)
  pub not_started :
      d.status ≡ requested
      → (d.start_time ≡ 0) × (d.bytes_downloaded ≡ pos 0) × (d.expected_size ≡ negsuc 0)
  pub total_known : d.status ≡ completed → d.bytes_downloaded ≡ d.total_size
  pub total_unknown : (d.status ≡ completed → ⊥) → d.total_size ≡ pos 0
  pub caused : d.cause ≡ none → d.status ≡ failed → ⊥

pub new-Inv :
    (uuid : String) (now : ℕ) (url dest : String) → Inv (new_download_record uuid now url dest)
unfolding new_download_record
new-Inv uuid now url dest = ground arith

pub new-Inv_task :
    (uuid : String) (now : ℕ) (url dest task_id : String)
    → Inv (set_task_id task_id (new_download_record uuid now url dest))
unfolding new_download_record set_task_id
new-Inv_task uuid now url dest task_id = ground arith

-- Each call returns, and the record it leaves satisfies the invariant.
pub apply-Inv :
    (now : ℕ) (c : Call) (d : DownloadRecord)
    → Inv d
    → (d' : DownloadRecord) × (apply now c d ≡ ok d') × Inv d'
unfolding apply
apply-Inv now (starts n) d v = (start now n d, refl, unfold start in ground arith)
apply-Inv now (updates n) d v = (set_bytes_downloaded n d, refl, ground arith)
apply-Inv now cancels d v = elim (Bool-cases (is_in_final_state d)) [
  | inl f ↦ (d, ground arith, v)
  | inr f ↦ (
    record d { status = canceled; task_id = ""; end_time = now; done = true },
    ground arith,
    ground arith,
  )
]
apply-Inv now (fails e) d v = elim (Bool-cases (is_in_final_state d)) [
  | inl f ↦ (d, ground arith, v)
  | inr f ↦ (
    record d { status = failed; cause = some e; task_id = ""; end_time = now; done = true },
    ground arith,
    ground arith,
  )
]
apply-Inv now (completes n) d v = elim (Bool-cases (is_in_final_state d)) [
  | inl f ↦ (d, ground arith, v)
  | inr f ↦ (
    record d {
      status = completed;
      bytes_downloaded = n;
      total_size = n;
      task_id = "";
      end_time = now;
      done = true;
    },
    ground arith,
    ground arith,
  )
]

-- No sequence of calls panics, so the channel is closed at most once, and the invariant holds
-- after each.
pub run-Inv :
    (cs : List (ℕ × Call)) (d : DownloadRecord)
    → Inv d
    → (d' : DownloadRecord) × (run cs d ≡ ok d') × Inv d'
unfolding run
run-Inv [] d v = (d, refl, v)
run-Inv ((now, c) ∷ cs) d v =
    let (d1, e, v1) = apply-Inv now c d v in
    let (d2, e', v2) = run-Inv cs d1 v1 in (d2, rw e e', v2)

apply_final :
    (now : ℕ) (c : Call) (d : DownloadRecord) → is_in_final_state d ≡ true → apply now c d ≡ ok d
unfolding apply
apply_final now (starts n) d f = ground arith
apply_final now (updates n) d f = ground arith
apply_final now cancels d f = ground arith
apply_final now (fails e) d f = ground arith
apply_final now (completes n) d f = ground arith

-- In a final state every further call leaves the record as it is.
pub run_final :
    (cs : List (ℕ × Call)) (d : DownloadRecord) → is_in_final_state d ≡ true → run cs d ≡ ok d
unfolding run
run_final [] d f = refl
run_final ((now, c) ∷ cs) d f = rw (apply_final now c d f) (run_final cs d f)

-- The final state that a call asks for.
abbrev pub verdict : Call → Option DownloadStatus
verdict (starts n) = none
verdict (updates n) = none
verdict cancels = some canceled
verdict (fails e) = some failed
verdict (completes n) = some completed

-- The first call that asks for a final state, and its time.
unfoldable pub first_verdict : List (ℕ × Call) → Option (DownloadStatus × ℕ)
first_verdict [] = none
first_verdict ((now, c) ∷ cs) = elim (verdict c) [
  | none ↦ first_verdict cs
  | some s ↦ some (s, now)
]

abbrev pub Decided : Option (DownloadStatus × ℕ) → DownloadRecord → Type 0
Decided none d = is_in_final_state d ≡ false
Decided (some (s, t)) d = (d.status ≡ s) × (d.end_time ≡ t) × (d.done ≡ true)

apply_open :
    (now : ℕ) (c : Call) (d : DownloadRecord)
    → Inv d
    → is_in_final_state d ≡ false
    → (d' : DownloadRecord) × (apply now c d ≡ ok d')
      × Inv d'
      × Decided (Option.map (λ s. (s, now)) (verdict c)) d'
unfolding apply
apply_open now (starts n) d v f =
    let (d', e, v') = apply-Inv now (starts n) d v in (d', e, v', ground arith)
apply_open now (updates n) d v f =
    let (d', e, v') = apply-Inv now (updates n) d v in (d', e, v', ground arith)
apply_open now cancels d v f =
    let (d', e, v') = apply-Inv now cancels d v in (d', e, v', ground arith)
apply_open now (fails x) d v f =
    let (d', e, v') = apply-Inv now (fails x) d v in (d', e, v', ground arith)
apply_open now (completes n) d v f =
    let (d', e, v') = apply-Inv now (completes n) d v in (d', e, v', ground arith)

-- The first call that asks for a final state decides: the record ends in the state asked for, with
-- the time of that call and the channel closed, whatever calls follow. Without such a call the
-- record is in no final state.
pub run-Decided :
    (cs : List (ℕ × Call)) (d : DownloadRecord)
    → Inv d
    → is_in_final_state d ≡ false
    → (d' : DownloadRecord) × (run cs d ≡ ok d') × Decided (first_verdict cs) d'
unfolding run first_verdict
run-Decided [] d v f = (d, refl, f)
run-Decided ((now, starts n) ∷ cs) d v f =
    let (d1, e, v1, h) = apply_open now (starts n) d v f in
    let (d2, e', h') = run-Decided cs d1 v1 h in (d2, rw e e', h')
run-Decided ((now, updates n) ∷ cs) d v f =
    let (d1, e, v1, h) = apply_open now (updates n) d v f in
    let (d2, e', h') = run-Decided cs d1 v1 h in (d2, rw e e', h')
run-Decided ((now, cancels) ∷ cs) d v f =
    let (d1, e, v1, h) = apply_open now cancels d v f in
    (d1, rw e (run_final cs d1 (ground arith)), h)
run-Decided ((now, fails x) ∷ cs) d v f =
    let (d1, e, v1, h) = apply_open now (fails x) d v f in
    (d1, rw e (run_final cs d1 (ground arith)), h)
run-Decided ((now, completes n) ∷ cs) d v f =
    let (d1, e, v1, h) = apply_open now (completes n) d v f in
    (d1, rw e (run_final cs d1 (ground arith)), h)

-- The calls that ask for no final state keep the ids and the finality of the record.
pub apply_keeps :
    (now : ℕ) (c : Call) (d d' : DownloadRecord)
    → verdict c ≡ none
    → apply now c d ≡ ok d'
    → (d'.id ≡ d.id) × (d'.task_id ≡ d.task_id) × (is_in_final_state d' ≡ is_in_final_state d)
unfolding apply
apply_keeps now (starts n) d d' e h = ground arith
apply_keeps now (updates n) d d' e h = ground arith
apply_keeps now cancels d d' e h = cc
apply_keeps now (fails x) d d' e h = cc
apply_keeps now (completes n) d d' e h = cc

-- The others leave it in a final state.
pub apply_settles :
    (now : ℕ) (c : Call) (d : DownloadRecord) {s : DownloadStatus}
    → Inv d
    → verdict c ≡ some s
    → (d' : DownloadRecord) × (apply now c d ≡ ok d')
      × Inv d'
      × (d'.id ≡ d.id)
      × (is_in_final_state d' ≡ true)
unfolding apply
apply_settles now (starts n) d v e = absurd (cc)
apply_settles now (updates n) d v e = absurd (cc)
apply_settles now cancels d v e =
    let (d', h, v') = apply-Inv now cancels d v in (d', h, v', ground arith, ground arith)
apply_settles now (fails x) d v e =
    let (d', h, v') = apply-Inv now (fails x) d v in (d', h, v', ground arith, ground arith)
apply_settles now (completes n) d v e =
    let (d', h, v') = apply-Inv now (completes n) d v in (d', h, v', ground arith, ground arith)
