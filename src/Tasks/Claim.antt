-- ===== src/Tasks/Claim.antt =====
-- app/db.py: `claim_next_task_for_node` and `sync_reported_active_task`, by which a heartbeat gives
-- a task to a node or learns which task the node has.
pub mod Oldest
pub mod Single
use gpufleet.Prelude.{
  ℕ, String, Text, Bool, true, false, ◌&&◌, ◌||◌, not, Option, none, some, List, [], ◌∷◌, same, ltb,
  any, select, if◌then◌else◌, text_eq, text_lt, coalesce,
}
use gpufleet.Tasks.Status.{Status, pending, claimed, is_status, is_active}
use gpufleet.Tasks.Table.{TaskRow, find_task, update_task}
use gpufleet.Tasks.Transition.{TaskStore, no_guard}

abbrev pub active_on : String → TaskRow → Bool
active_on node_id r = same r.node_id node_id && is_active r.status

abbrev pub pending_on : String → TaskRow → Bool
pending_on node_id r = same r.node_id node_id && is_status r.status pending

abbrev pub is_pending : TaskRow → Bool
is_pending r = is_status r.status pending

-- ORDER BY created_at ASC, id ASC
unfoldable pub before : TaskRow → TaskRow → Bool
before r x =
    text_lt r.created_at x.created_at || (text_eq r.created_at x.created_at && ltb r.id x.id)

-- … LIMIT 1
unfoldable pub oldest : List TaskRow → Option TaskRow
oldest [] = none
oldest (r ∷ rows) = elim (oldest rows) [
  | none ↦ some r
  | some x ↦ if before x r then some x else some r
]

-- The subselect of the UPDATE.
unfoldable pub next_task : String → List TaskRow → Option TaskRow
next_task node_id rows =
    if any (active_on node_id) rows then none else oldest (select (pending_on node_id) rows)

unfoldable pub set_claimed : Text → TaskRow → TaskRow
set_claimed claimed_at r = record r { status = claimed; claimed_at = some claimed_at }

-- RETURNING *: the row as it was written, where the UPDATE found one.
unfoldable pub returning :
    String → (TaskRow → Bool) → (TaskRow → TaskRow) → List TaskRow → Option TaskRow
returning j guard f rows = elim (find_task j rows) [
  | none ↦ none
  | some r ↦ if guard r then some (f r) else none
]

unfoldable pub claim_next_task_for_node : TaskStore → String → Text → TaskStore × Option TaskRow
claim_next_task_for_node s node_id claimed_at = elim (next_task node_id s.rows) [
  | none ↦ (s, none)
  | some t ↦ (
    record s { rows = update_task t.task_id is_pending (set_claimed claimed_at) s.rows },
    returning t.task_id is_pending (set_claimed claimed_at) s.rows,
  )
]

-- `if not active_task_id`
abbrev pub given : Option String → Option String
given none = none
given (some j) = if same j "" then none else some j

abbrev pub task_of_node : String → String → List TaskRow → Option TaskRow
task_of_node node_id j rows = elim (find_task j rows) [
  | none ↦ none
  | some r ↦ if same r.node_id node_id then some r else none
]

-- status = 'claimed', claimed_at = COALESCE(claimed_at, ?)
unfoldable pub set_synced : Text → TaskRow → TaskRow
set_synced claimed_at r = record r {
  status = claimed;
  claimed_at = coalesce r.claimed_at (some claimed_at);
}

unfoldable pub sync_reported_active_task :
    TaskStore → String → Option String → Text → TaskStore × Option TaskRow
sync_reported_active_task s node_id active_task_id claimed_at = elim (given active_task_id) [
  | none ↦ (s, none)
  | some j ↦ elim (task_of_node node_id j s.rows) [
    | none ↦ (s, none)
    | some row ↦
        let rows' = update_task j no_guard (set_synced claimed_at) s.rows in
        if is_status row.status pending
        then (record s { rows = rows' }, task_of_node node_id j rows')
        else (s, some row)
  ]
]

-- The two calls of `_heartbeat_impl`: a node that has a task gets no other.
unfoldable pub hand_out : TaskStore → String → Option String → Text → TaskStore × Option TaskRow
hand_out s node_id active_task_id now_iso =
    let (s', active) = sync_reported_active_task s node_id active_task_id now_iso in
    elim active [ none ↦ claim_next_task_for_node s' node_id now_iso | some _ ↦ (s', none) ]
