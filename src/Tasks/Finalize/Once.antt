-- ===== src/Tasks/Finalize/Once.antt =====
-- Results, first and repeated, at `finalize_task_result` of app/services/task_state.py.
use gpufleet.Prelude.{
  String, true, false, ◌&&◌, ◌≡◌, refl, none, some, List, [], ◌∷◌, ◌++◌, same, same_iff, arith,
  count_where, if◌then◌else◌,
}
use gpufleet.Tasks.Status.{is_terminal}
use gpufleet.Tasks.Table.{
  TaskRow, find_task, update_task, find-update_self, find-update_other, UniqueIds, update_task_id,
  update_task-UniqueIds,
}
use gpufleet.Tasks.Table.OneRow.{OneRow, update-OneRow}
use gpufleet.Tasks.Metrics.{record_task_transition_metrics}
use gpufleet.Tasks.Transition.{ok, refuse_if, TaskStore, get_task_row}
use gpufleet.Tasks.Finalize.{
  FinalResult, accepts_result, open_for_result, set_result, finalize_task_result, write_result,
  answer,
}

count_missing :
    (j : String) (rows : List TaskRow)
    → find_task j rows ≡ none
    → count_where (λ r. same r.task_id j && open_for_result r) rows ≡ 0
unfolding find_task
count_missing j [] h = refl
count_missing j (r ∷ rows) h = ground (arith, count_missing j rows)

-- The key is unique, so the UPDATE counts its one row.
count_found :
    (j : String) (rows : List TaskRow) (r : TaskRow)
    → UniqueIds rows
    → find_task j rows ≡ some r
    → count_where (λ x. same x.task_id j && open_for_result x) rows
      ≡ (if open_for_result r then 1 else 0)
unfolding find_task
count_found j [] r u h = ground arith
count_found j (x ∷ rows) r u h =
    ground (arith, same_iff x.task_id j, count_missing j rows, count_found j rows r u.1)

-- What an accepted result makes of the table.
pub record Stored (s : TaskStore) (j : String) (f : FinalResult) (r : TaskRow) (s' : TaskStore)
    : Type 0 where
  pub accepted : finalize_task_result s j f ≡ ok (s', set_result f r, false)
  pub stored : find_task j s'.rows ≡ some (set_result f r)
  pub unique : UniqueIds s'.rows
  pub one_row : OneRow r (set_result f r) s.rows s'.rows
  pub others : (k : String) → same j k ≡ false → find_task k s'.rows ≡ find_task k s.rows

-- An open task takes its result, and the answer says that this was no duplicate.
open_finalized :
    (s : TaskStore) (j : String) (f : FinalResult) (r : TaskRow)
    → UniqueIds s.rows
    → find_task j s.rows ≡ some r
    → accepts_result r.status ≡ true
    → r.result_locked_at ≡ none
    → (s' : TaskStore) × Stored s j f r s'
unfolding finalize_task_result write_result answer refuse_if get_task_row
open_finalized s j f r u found accepts unlocked = (
  record s {
    rows = update_task j open_for_result (set_result f) s.rows;
    metrics = s.metrics ++ record_task_transition_metrics r f.final_status f.finished_at;
  },
  record {
    accepted = ground (arith, stored, count_found j s.rows r u found);
    stored = stored;
    unique = update_task-UniqueIds j open_for_result (set_result f) keeps s.rows u;
    one_row = update-OneRow j open_for_result (set_result f) s.rows r u found (ground arith);
    others = λ k ne. find-update_other j k open_for_result (set_result f) keeps s.rows ne;
  },
)
  where
    keeps : (x : TaskRow) → (set_result f x).task_id ≡ x.task_id
    keeps x = unfold set_result in refl

    stored :
        find_task j (update_task j open_for_result (set_result f) s.rows) ≡ some (set_result f r)
    stored = ground (arith, find-update_self j open_for_result (set_result f) keeps s.rows r found)

-- A task that is ended answers every result as a duplicate: nothing in the table or the metrics changes.
ended_duplicate :
    (s : TaskStore) (j : String) (f : FinalResult) (r : TaskRow)
    → UniqueIds s.rows
    → find_task j s.rows ≡ some r
    → is_terminal r.status ≡ true
    → finalize_task_result s j f ≡ ok (s, r, true)
unfolding finalize_task_result write_result answer refuse_if get_task_row
ended_duplicate s j f r u found ended = ground (
  arith,
  update_task_id j open_for_result (set_result f) s.rows u r found,
  count_found j s.rows r u found,
)

-- The first final result that an open task gets is stored, and every later one is answered as a
-- duplicate that changes nothing.
pub result_once :
    (s : TaskStore) (j : String) (f : FinalResult) (r : TaskRow)
    → UniqueIds s.rows
    → find_task j s.rows ≡ some r
    → accepts_result r.status ≡ true
    → r.result_locked_at ≡ none
    → is_terminal f.final_status ≡ true
    → (s' : TaskStore) × Stored s j f r s'
      × ((g : FinalResult) → finalize_task_result s' j g ≡ ok (s', set_result f r, true))
result_once s j f r u found accepts unlocked ends =
    let (s', st) = open_finalized s j f r u found accepts unlocked in
    (
      s',
      st,
      λ g. ended_duplicate s' j g (set_result f r) st.unique st.stored (unfold set_result in ends),
    )
