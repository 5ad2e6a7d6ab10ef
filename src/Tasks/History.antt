-- ===== src/Tasks/History.antt =====
-- What the control plane's handlers and its scanner do to the table `tasks`, in any order: the
-- statements of app/services/task_state.py and app/db.py as steps, and the deletion of a node by
-- app/services/admin_nodes_service.py, which cascades into the table.
pub mod Ended
use gpufleet.Prelude.{
  String, Text, Bool, true, false, not, ◌≡◌, Option, none, some, List, [], ◌∷◌, ◌++◌, ◌⊎◌, same,
  select,
}
use gpufleet.Tasks.Metrics.{TaskMetric}
use gpufleet.Tasks.Status.{Status, pending, reviewing, is_active}
use gpufleet.Tasks.Table.{TaskRow, find_task}
use gpufleet.Tasks.Transition.{
  Event, report, cancel, review_escalate, review_approve, review_reject, review_expire,
  background_timeout, background_lost, unknown, ok, TaskStore, Arguments, transition_task,
}
use gpufleet.Tasks.Finalize.{FinalResult, finalize_task_result}
use gpufleet.Tasks.Claim.{hand_out}

-- The scanner sends its two events to tasks that it has just selected as active.
abbrev pub Selected : Event → TaskRow → Type 0
Selected background_timeout r = is_active r.status ≡ true
Selected background_lost r = is_active r.status ≡ true
Selected _ r = Unit {0}

pub data Step : TaskStore → TaskStore → Type 0 where
  create :
      {s : TaskStore} (r : TaskRow)
      → find_task r.task_id s.rows ≡ none
      → (r.status ≡ pending) ⊎ (r.status ≡ reviewing)
      → Step s (record s { rows = s.rows ++ r ∷ [] })
  event :
      {s s' : TaskStore} (j : String) (e : Event) (a : Arguments) (r r' : TaskRow)
      → find_task j s.rows ≡ some r
      → Selected e r
      → transition_task s j e a ≡ ok (s', r')
      → Step s s'
  result :
      {s s' : TaskStore} (j : String) (f : FinalResult) (r' : TaskRow) (duplicate : Bool)
      → finalize_task_result s j f ≡ ok (s', r', duplicate)
      → Step s s'
  heartbeat :
      {s s' : TaskStore} (node_id : String) (active : Option String) (now : Text)
      (given : Option TaskRow)
      → hand_out s node_id active now ≡ (s', given)
      → Step s s'
  -- A transaction that was rolled back leaves what it counted.
  rolled_back :
      {s : TaskStore} (metrics : List TaskMetric) → Step s (record s { metrics = metrics })

pub data Reach (s : TaskStore) : TaskStore → Type 0 where
  here : Reach s s
  next : {t u : TaskStore} → Reach s t → Step t u → Reach s u

-- ON DELETE CASCADE of the column `node_id`, behind DELETE FROM nodes WHERE node_id = ?
unfoldable pub delete_node_tasks : String → TaskStore → TaskStore
delete_node_tasks node_id s = record s { rows = select (λ r. not (same r.node_id node_id)) s.rows }

-- All that may happen to the table, as long as the node `node_id` is not deleted.
pub data Life (node_id : String) (s : TaskStore) : TaskStore → Type 0 where
  begin : Life node_id s s
  step : {t u : TaskStore} → Life node_id s t → Step t u → Life node_id s u
  delete_node :
      {t : TaskStore} (other : String)
      → same node_id other ≡ false
      → Life node_id s t
      → Life node_id s (delete_node_tasks other t)

pub in_place : (node_id : String) {s s' : TaskStore} → Reach s s' → Life node_id s s'
in_place node_id here = begin
in_place node_id (next reach one) = step (in_place node_id reach) one
