-- ===== src/Scenarios/Tasks.antt =====
-- A node with one running and two waiting tasks.
use gpufleet.Prelude.{
  suc, String, Text, true, false, ◌≡◌, refl, none, some, [], ◌∷◌, codes, same, text_lt, text_eq,
  arith,
}
use gpufleet.Scenarios.Rows.{task}
use gpufleet.Tasks.Status.{pending, running, claimed, succeeded, failed}
use gpufleet.Tasks.Table.{TaskRow, find_task, update_task, UniqueIds}
use gpufleet.Tasks.Table.OneRow.{OneRow}
use gpufleet.Tasks.Metrics.{success, completed_total, record_task_transition_metrics}
use gpufleet.Tasks.Transition.{
  report, ok, set_reported, TaskStore, Arguments, transition_task, get_task_row, execute,
}
use gpufleet.Tasks.Transition.Diagram.{is_running, by_success, finish}
use gpufleet.Tasks.Transition.Lifecycle.{Took, transition_task-Took}
use gpufleet.Tasks.Transition.Accepts.{Edge-accepted}
use gpufleet.Tasks.Finalize.{FinalResult, set_result, finalize_task_result}
use gpufleet.Tasks.Finalize.Once.{Stored, result_once}
use gpufleet.Tasks.Claim.{
  set_claimed, given, task_of_node, is_pending, sync_reported_active_task, claim_next_task_for_node,
  hand_out, next_task, returning, oldest, before,
}
use gpufleet.Tasks.Claim.Oldest.{Chosen, claim_oldest}
use gpufleet.Tasks.Claim.Single.{SingleActive, active_tasks, heartbeat_single, pending_report_adds}
use gpufleet.Tasks.History.{heartbeat, begin, step, delete_node, delete_node_tasks}
use gpufleet.Tasks.History.Ended.{ended_forever}

abbrev late : TaskRow
late = task 1 "t1" pending (codes "2026-01-01T00:02:00+00:00")

abbrev early : TaskRow
early = task 2 "t2" pending (codes "2026-01-01T00:01:00+00:00")

abbrev busy : TaskRow
busy = task 3 "t3" running (codes "2026-01-01T00:00:00+00:00")

abbrev now : Text
now = codes "2026-01-01T00:03:00+00:00"

abbrev waiting : TaskStore
waiting = record { rows = late ∷ early ∷ []; metrics = [] }

abbrev working : TaskStore
working = record { rows = late ∷ busy ∷ []; metrics = [] }

abbrev arguments : Arguments
arguments = record {
  now_iso = now;
  started_at = some now;
  finished_at = some now;
  review_admin_id = none;
  danger_level = none;
}

waiting-UniqueIds : UniqueIds waiting.rows
unfolding find_task same
waiting-UniqueIds = (refl, (refl, tt))

working-UniqueIds : UniqueIds working.rows
unfolding find_task same
working-UniqueIds = (refl, (refl, tt))

busy_found : find_task "t3" working.rows ≡ some busy
unfolding find_task same
busy_found = refl

abbrev done_row : TaskRow
done_row = record busy { status = succeeded; started_at = none; finished_at = some now }

abbrev done_store : TaskStore
done_store = record { rows = late ∷ done_row ∷ []; metrics = completed_total success ∷ [] }

report_done : transition_task working "t3" (report succeeded) arguments ≡ ok (done_store, done_row)
unfolding transition_task get_task_row execute set_reported update_task find_task same
    record_task_transition_metrics
report_done = refl

transition_task-Took_example : Took working "t3" (report succeeded) done_store done_row
transition_task-Took_example =
    transition_task-Took working "t3" (report succeeded) arguments done_store done_row report_done

Edge-accepted_example :
    (s' : TaskStore) × (r' : TaskRow) × (transition_task working "t3" (report succeeded) arguments
      ≡ ok (s', r'))
    × (r'.status ≡ succeeded)
Edge-accepted_example =
    Edge-accepted working "t3" (report succeeded) arguments busy succeeded busy_found
      (finish by_success is_running)

abbrev final : FinalResult
final = record { final_status = failed; started_at = now; finished_at = now; now_iso = now }

result_once_example :
    (s' : TaskStore) × Stored working "t3" final busy s'
    × ((g : FinalResult) → finalize_task_result s' "t3" g ≡ ok (s', set_result final busy, true))
result_once_example =
    result_once working "t3" final busy working-UniqueIds busy_found refl refl refl

done_found : find_task "t3" done_store.rows ≡ some done_row
unfolding find_task same
done_found = refl

abbrev claimed_row : TaskRow
claimed_row = record early { status = claimed; claimed_at = some now }

abbrev claimed_store : TaskStore
claimed_store = record waiting { rows = late ∷ claimed_row ∷ [] }

early_claimed : claim_next_task_for_node waiting "node-a" now ≡ (claimed_store, some claimed_row)
unfolding claim_next_task_for_node next_task oldest before returning set_claimed update_task
    find_task same text_lt text_eq
early_claimed = refl

claim_oldest_example :
    (t : TaskRow) × Chosen "node-a" waiting.rows t
    × (claimed_row ≡ set_claimed now t)
    × OneRow t claimed_row waiting.rows claimed_store.rows
claim_oldest_example =
    claim_oldest waiting "node-a" now claimed_store claimed_row waiting-UniqueIds early_claimed

working-SingleActive : SingleActive working.rows
unfolding same
working-SingleActive node_id = ground arith

-- The node reports the task that it runs, and gets no other.
busy_reported :
    (j : String) (x : TaskRow)
    → given (some "t3") ≡ some j
    → task_of_node "node-a" j working.rows ≡ some x
    → is_pending x ≡ false
unfolding same
busy_reported j x e h = ground (arith, busy_found)

heartbeat_single_example : SingleActive (hand_out working "node-a" (some "t3") now).0.rows
heartbeat_single_example =
    heartbeat_single working "node-a" (some "t3") now working-UniqueIds working-SingleActive
      busy_reported

t1_given : given (some "t1") ≡ some "t1"
unfolding same
t1_given = refl

late_on_node : task_of_node "node-a" "t1" working.rows ≡ some late
unfolding find_task same
late_on_node = refl

pending_report_adds_example :
    active_tasks "node-a" (hand_out working "node-a" (some "t1") now).0.rows
    ≡ suc (active_tasks "node-a" working.rows)
pending_report_adds_example =
    pending_report_adds working "node-a" (some "t1") now "t1" late working-UniqueIds t1_given
      late_on_node refl

abbrev handed_store : TaskStore
handed_store = record done_store {
  rows = record late { status = claimed; claimed_at = some now } ∷ done_row ∷ [];
}

abbrev handed_row : TaskRow
handed_row = record late { status = claimed; claimed_at = some now }

handed : hand_out done_store "node-a" none now ≡ (handed_store, some handed_row)
unfolding hand_out sync_reported_active_task claim_next_task_for_node next_task oldest before
    returning set_claimed update_task find_task same text_lt text_eq
handed = refl

-- Another node is deleted after a heartbeat.
ended_forever_example :
    find_task "t3" (delete_node_tasks "node-b" handed_store).rows ≡ some done_row
ended_forever_example = ended_forever "t3" done_row done_found refl (
    delete_node "node-b" (unfold same in refl)
      (step begin (heartbeat "node-a" none now (some handed_row) handed)))
