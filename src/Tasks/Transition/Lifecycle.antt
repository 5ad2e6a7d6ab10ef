-- ===== src/Tasks/Transition/Lifecycle.antt =====
-- From accepted events of `transition_task` (app/services/task_state.py) to edges of the diagram.
use gpufleet.Prelude.{
  String, Bool, true, false, ◌≡◌, refl, sym, ap, Option-cases, Bool-cases, or_text, subst, ◌∙◌, ◌⊎◌,
  inl, inr, [], ◌∷◌, Option, some, List, same, arith, ◌++◌,
}
use gpufleet.Tasks.Status.{
  Status, pending, claimed, running, cancel_requested, succeeded, failed, timeout, cancelled, lost,
  rejected, review_expired, is_active, is_status, is_status_sound, contains, task_event_transitions,
}
use gpufleet.Tasks.Table.{
  TaskRow, KeepsId, find_task, update_task, updated, find-update_self, find-update_other, UniqueIds,
  KeepsNode,
}
use gpufleet.Tasks.Table.OneRow.{OneRow, update-OneRow}
use gpufleet.Tasks.Metrics.{TaskMetric, record_task_transition_metrics}
use gpufleet.Tasks.Transition.Diagram.{
  IsActive, is_claimed, is_running, is_cancel_requested, by_success, by_failure, by_timeout,
  by_cancel, by_loss, Edge, confirm, start, go_on, finish, withdraw, ask_to_stop, escalate, approve,
  reject, expire, overrun, lose,
}
use gpufleet.Tasks.Transition.{
  Event, report, cancel, review_escalate, review_approve, review_reject, review_expire,
  background_timeout, background_lost, unknown, ok, TaskStore, Arguments, execute, get_task_row,
  transition_task, dispatch, on_report, on_background, no_guard, under_review, observed,
  set_reported, set_finished, set_cancel_requested, set_escalated, set_approved, set_rejected,
  set_review_expired,
}

pub execute_lem :
    (s : TaskStore) (j : String) (guard : TaskRow → Bool) (f : TaskRow → TaskRow)
    (ms : List TaskMetric) (r : TaskRow)
    → KeepsId f
    → find_task j s.rows ≡ some r
    → execute s j guard f ms
      ≡ ok (
        record s { rows = update_task j guard f s.rows; metrics = s.metrics ++ ms },
        updated guard f r,
      )
unfolding execute get_task_row
execute_lem s j guard f ms r keeps h = ground (arith, find-update_self j guard f keeps s.rows r h)

-- What the column `review_decision` holds after an event.
unfoldable pub decided : Event → TaskRow → Option String
decided review_escalate r = some "pending_human"
decided review_approve r = some "human_approved"
decided review_reject r = some "human_rejected"
decided review_expire r = some "expired"
decided _ r = r.review_decision

-- An accepted event on the task `j`: the row it was found in, and the table afterwards.
pub record Took (s : TaskStore) (j : String) (e : Event) (s' : TaskStore) (r' : TaskRow)
    : Type 0 where
  pub before : TaskRow
  pub found : find_task j s.rows ≡ some before
  pub edge : Edge e before r'.status
  pub stored : find_task j s'.rows ≡ some r'
  pub same_node : r'.node_id ≡ before.node_id
  pub same_key : r'.task_id ≡ before.task_id
  pub same_type : r'.task_type ≡ before.task_type
  pub decision : r'.review_decision ≡ decided e before
  pub one_row : UniqueIds s.rows → OneRow before r' s.rows s'.rows
  pub others : (k : String) → same j k ≡ false → find_task k s'.rows ≡ find_task k s.rows

abbrev status_of : TaskRow → Status
status_of r = r.status

execute-Took :
    (s : TaskStore) (j : String) (e : Event) (guard : TaskRow → Bool) (f : TaskRow → TaskRow)
    (ms : List TaskMetric) (r : TaskRow) (s' : TaskStore) (r' : TaskRow)
    → KeepsId f
    → KeepsNode f
    → find_task j s.rows ≡ some r
    → guard r ≡ true
    → Edge e r (f r).status
    → (f r).task_type ≡ r.task_type
    → (f r).review_decision ≡ decided e r
    → execute s j guard f ms ≡ ok (s', r')
    → Took s j e s' r'
execute-Took s j e guard f ms r s' r' keeps node found pass edge type decision h = record {
  before = r;
  found = found;
  edge = subst (λ x. Edge e r x.status) same_row edge;
  stored = rw (← same_rows) (find-update_self j guard f keeps s.rows r found ∙ ap some (ends.1));
  same_node = ap (λ (x : TaskRow). x.node_id) (sym same_row) ∙ node r;
  same_key = ap (λ (x : TaskRow). x.task_id) (sym same_row) ∙ keeps r;
  same_type = ap (λ (x : TaskRow). x.task_type) (sym same_row) ∙ type;
  decision = ap (λ (x : TaskRow). x.review_decision) (sym same_row) ∙ decision;
  one_row = λ u. rw (← same_rows, ← same_row) (update-OneRow j guard f s.rows r u found pass);
  others = λ k ne. rw (← same_rows) (find-update_other j k guard f keeps s.rows ne);
}
  where
    ends :
        (record s { rows = update_task j guard f s.rows; metrics = s.metrics ++ ms } ≡ s')
        × (updated guard f r ≡ r')
    ends = ground (arith, execute_lem s j guard f ms r keeps found)

    same_row : f r ≡ r'
    same_row = ground (arith, ends.1)

    same_rows : update_task j guard f s.rows ≡ s'.rows
    same_rows = ap (λ (t : TaskStore). t.rows) ends.0

is_active-IsActive : (s : Status) → is_active s ≡ true → IsActive s
is_active-IsActive claimed h = is_claimed
is_active-IsActive running h = is_running
is_active-IsActive cancel_requested h = is_cancel_requested
is_active-IsActive s h = cc

claimed_or_running :
    (s : Status) → contains (claimed ∷ running ∷ []) s ≡ true → (s ≡ claimed) ⊎ (s ≡ running)
claimed_or_running s h = ground arith

-- Every status that a node may report, from where the code allows it, is an edge of the diagram.
reported-Edge :
    (target : Status) (r : TaskRow) (sources : List Status)
    → task_event_transitions target ≡ some sources
    → contains sources r.status ≡ true
    → Edge (report target) r target
reported-Edge claimed r l e h = confirm (ground arith)
reported-Edge running r l e h = elim (claimed_or_running r.status (ground arith)) [
  | inl p ↦ start p
  | inr p ↦ go_on p
]
reported-Edge cancelled r l e h = finish by_cancel (is_active-IsActive r.status (ground arith))
reported-Edge failed r l e h = finish by_failure (is_active-IsActive r.status (ground arith))
reported-Edge timeout r l e h = finish by_timeout (is_active-IsActive r.status (ground arith))
reported-Edge succeeded r l e h = finish by_success (is_active-IsActive r.status (ground arith))
reported-Edge lost r l e h = finish by_loss (is_active-IsActive r.status (ground arith))
reported-Edge _ r l e h = cc

-- Accepted branches of `dispatch`: the guards that they passed, and the UPDATE that they made.
module _ (s : TaskStore) (j : String) (a : Arguments) (r : TaskRow)
    (found : find_task j s.rows ≡ some r) (s' : TaskStore) (r' : TaskRow) where
  by_update :
      (e : Event) (guard : TaskRow → Bool) (f : TaskRow → TaskRow) (ms : List TaskMetric)
      → KeepsId f
      → KeepsNode f
      → (f r).task_type ≡ r.task_type
      → (f r).review_decision ≡ decided e r
      → (guard r ≡ true) × Edge e r (f r).status × (execute s j guard f ms ≡ ok (s', r'))
      → Took s j e s' r'
  by_update e guard f ms keeps node type decision (pass, edge, h) =
      execute-Took s j e guard f ms r s' r' keeps node found pass edge type decision h

  report-Took :
      (target : Status) (l : List Status)
      → task_event_transitions target ≡ some l
      → on_report s j r target a l ≡ ok (s', r')
      → Took s j (report target) s' r'
  unfolding on_report set_reported decided
  report-Took target l e h =
      by_update (report target) no_guard (set_reported target r a)
        (record_task_transition_metrics r target
          (observed (set_reported target r a r).finished_at a.now_iso))
        (λ x. refl) (λ x. refl) refl refl
        (refl, reported-Edge target r l e (ground arith), ground arith)

  background-Took :
      (e : Event) (target : Status)
      → Edge e r target
      → decided e r ≡ r.review_decision
      → on_background s j r target a ≡ ok (s', r')
      → Took s j e s' r'
  unfolding on_background set_finished decided
  background-Took e target edge plain h =
      by_update e no_guard (set_finished target a)
        (record_task_transition_metrics r target (or_text a.finished_at a.now_iso)) (λ x. refl)
        (λ x. refl) refl (sym plain) (refl, edge, h)

  dispatch-Took : (e : Event) → dispatch s j r e a ≡ ok (s', r') → Took s j e s' r'
  unfolding decided dispatch set_finished set_cancel_requested set_escalated set_approved
      set_rejected set_review_expired
  dispatch-Took (report t) h = elim (Option-cases (task_event_transitions t)) [
    | inl e ↦ absurd (ground arith)
    | inr (l, e) ↦ report-Took t l e (ground arith)
  ]
  dispatch-Took cancel h = elim (Bool-cases (is_status r.status pending)) [
    | inl p ↦
        by_update cancel no_guard (set_finished cancelled a)
          (record_task_transition_metrics r cancelled (or_text a.finished_at a.now_iso)) (λ x. refl)
          (λ x. refl) refl refl (refl, withdraw (is_status_sound r.status pending p), ground arith)
    | inr np ↦
        by_update cancel no_guard (set_cancel_requested a) [] (λ x. refl) (λ x. refl) refl refl
          (refl, ask_to_stop (is_active-IsActive r.status (ground arith)), ground arith)
  ]
  dispatch-Took review_escalate h =
      by_update review_escalate no_guard (set_escalated a) [] (λ x. refl) (λ x. refl) refl refl
        (
          refl,
          subst (Edge review_escalate r) (ground arith)
              (escalate (ground arith) (λ q. ground arith)),
          ground arith,
        )
  dispatch-Took review_approve h =
      by_update review_approve under_review (set_approved a) [] (λ x. refl) (λ x. refl) refl refl
        (ground arith, approve (ground arith) (ground arith), ground arith)
  dispatch-Took review_reject h =
      by_update review_reject under_review (set_rejected a)
        (record_task_transition_metrics r rejected a.now_iso) (λ x. refl) (λ x. refl) refl refl
        (ground arith, reject (ground arith), ground arith)
  dispatch-Took review_expire h =
      by_update review_expire under_review (set_review_expired a)
        (record_task_transition_metrics r review_expired a.now_iso) (λ x. refl) (λ x. refl) refl
        refl (ground arith, expire (ground arith), ground arith)
  dispatch-Took background_timeout h = background-Took background_timeout timeout overrun refl h
  dispatch-Took background_lost h = background-Took background_lost lost lose refl h
  dispatch-Took (unknown x) h = cc

-- An accepted event moves the task's row along an edge of the diagram, the row returned is the row
-- stored, and no other task's row changes.
pub transition_task-Took :
    (s : TaskStore) (j : String) (e : Event) (a : Arguments) (s' : TaskStore) (r' : TaskRow)
    → transition_task s j e a ≡ ok (s', r')
    → Took s j e s' r'
unfolding transition_task get_task_row
transition_task-Took s j e a s' r' h = elim (Option-cases (find_task j s.rows)) [
  | inl missing ↦ absurd (ground arith)
  | inr (r, found) ↦ dispatch-Took s j a r found s' r' e (ground arith)
]
