-- ===== src/Tasks/Finalize.antt =====
-- app/services/task_state.py: `finalize_task_result`.
pub mod Once
use gpufleet.Prelude.{
  ℕ, String, Text, Bool, true, false, ◌&&◌, not, Option, none, some, List, ◌++◌, [], ◌==◌, same,
  if◌then◌else◌, ◌≡◌, arith, ◌⊎◌, inl, inr, Bool-cases, count_where,
}
use gpufleet.Tasks.Status.{Status, is_terminal, contains, result_accepting_task_statuses}
use gpufleet.Tasks.Table.{TaskRow, update_task}
use gpufleet.Tasks.Metrics.{record_task_transition_metrics}
use gpufleet.Tasks.Transition.{
  TaskStateError, Outcome, ok, raise, cannot_accept_result, refuse_if, ◌>>=◌, TaskStore,
  get_task_row, get_task_row_cases,
}

abbrev pub accepts_result : Status → Bool
accepts_result = contains result_accepting_task_statuses

abbrev pub is_null {ℓ} : {A : Type ℓ} → Option A → Bool
is_null none = true
is_null (some a) = false

-- AND result_locked_at IS NULL AND status IN ('claimed', 'running', 'cancel_requested')
abbrev pub open_for_result : TaskRow → Bool
open_for_result r = is_null r.result_locked_at && accepts_result r.status

-- The times and the status that the node sends.
pub record FinalResult : Type 0 where
  pub final_status : Status
  pub started_at : Text
  pub finished_at : Text
  pub now_iso : Text

unfoldable pub set_result : FinalResult → TaskRow → TaskRow
set_result f r = record r {
  status = f.final_status;
  started_at = some f.started_at;
  finished_at = some f.finished_at;
  result_locked_at = some f.now_iso;
}

-- `updated.rowcount != 1` or not. The Boolean of the result says that the task had its end already,
-- and nothing was stored.
unfoldable pub answer :
    Bool → TaskStore → TaskRow → FinalResult → TaskRow → Outcome (TaskStore × TaskRow × Bool)
answer true s row f saved =
    let ms = record_task_transition_metrics row f.final_status f.finished_at in
    ok (record s { metrics = s.metrics ++ ms }, saved, false)
answer false s row f saved =
    if is_terminal saved.status
    then ok (s, saved, true)
    else raise (cannot_accept_result saved.status)

unfoldable pub write_result :
    TaskStore → String → FinalResult → TaskRow → Outcome (TaskStore × TaskRow × Bool)
write_result s task_id f row =
    let rowcount = count_where (λ r. same r.task_id task_id && open_for_result r) s.rows in
    let s' = record s { rows = update_task task_id open_for_result (set_result f) s.rows } in
    get_task_row s' task_id >>= λ saved. answer (rowcount == 1) s' row f saved

unfoldable pub finalize_task_result :
    TaskStore → String → FinalResult → Outcome (TaskStore × TaskRow × Bool)
finalize_task_result s task_id f = get_task_row s task_id >>= λ row.
    refuse_if (not (accepts_result row.status) && not (is_terminal row.status))
      (cannot_accept_result row.status) (write_result s task_id f row)

refused_or {ℓ} :
    {A : Type ℓ} (b : Bool) (e : TaskStateError) (m : Outcome A) {v : A}
    → refuse_if b e m ≡ ok v
    → m ≡ ok v
unfolding refuse_if
refused_or true e m h = absurd (ground arith)
refused_or false e m h = h

answer_rows :
    (b : Bool) (s : TaskStore) (row : TaskRow) (f : FinalResult) (saved : TaskRow)
    (v : TaskStore × TaskRow × Bool)
    → answer b s row f saved ≡ ok v
    → v.0.rows ≡ s.rows
unfolding answer
answer_rows true s row f saved v h = ground arith
answer_rows false s row f saved v h = ground arith

write_result_rows :
    (s : TaskStore) (j : String) (f : FinalResult) (row : TaskRow) (v : TaskStore × TaskRow × Bool)
    → write_result s j f row ≡ ok v
    → v.0.rows ≡ update_task j open_for_result (set_result f) s.rows
unfolding write_result
write_result_rows s j f row v h =
    let s' : TaskStore = record s { rows = update_task j open_for_result (set_result f) s.rows } in
    elim (get_task_row_cases s' j) [
      | inl (e, q) ↦ absurd (ground arith)
      | inr (saved, q) ↦ answer_rows _ s' row f saved v (rw q at h)
    ]

-- What is accepted leaves the table that the UPDATE makes.
pub finalize_rows :
    (s : TaskStore) (j : String) (f : FinalResult) (v : TaskStore × TaskRow × Bool)
    → finalize_task_result s j f ≡ ok v
    → v.0.rows ≡ update_task j open_for_result (set_result f) s.rows
unfolding finalize_task_result
finalize_rows s j f v h = elim (get_task_row_cases s j) [
  | inl (e, q) ↦ absurd (ground arith)
  | inr (row, q) ↦
      write_result_rows s j f row v (refused_or _ (cannot_accept_result row.status) _ (rw q at h))
]
