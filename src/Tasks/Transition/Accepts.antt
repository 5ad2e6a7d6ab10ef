-- ===== src/Tasks/Transition/Accepts.antt =====
-- From edges of the diagram to events of `transition_task` (app/services/task_state.py).
use gpufleet.Prelude.{String, Bool, true, ◌≡◌, refl, ◌∙◌, some, List, arith, or_text, ◌++◌, []}
use gpufleet.Tasks.Status.{
  Status, pending, reviewing, claimed, running, cancel_requested, succeeded, failed, timeout,
  cancelled, lost, rejected, review_expired, is_active, task_event_transitions, contains,
}
use gpufleet.Tasks.Table.{TaskRow, KeepsId, find_task, update_task, updated}
use gpufleet.Tasks.Metrics.{TaskMetric, record_task_transition_metrics}
use gpufleet.Tasks.Transition.Diagram.{
  IsActive, is_claimed, is_running, is_cancel_requested, IsOutcome, by_success, by_failure,
  by_timeout, by_cancel, by_loss, Edge, confirm, start, go_on, finish, withdraw, ask_to_stop,
  escalate, approve, reject, expire, overrun, lose,
}
use gpufleet.Tasks.Transition.Lifecycle.{execute_lem}
use gpufleet.Tasks.Transition.{
  Event, report, cancel, review_escalate, review_approve, review_reject, review_expire,
  background_timeout, background_lost, ok, TaskStore, Arguments, execute, get_task_row,
  transition_task, dispatch, on_report, on_background, no_guard, under_review, observed,
  set_reported, set_finished, set_cancel_requested, set_escalated, set_approved, set_rejected,
  set_review_expired,
}

abbrev Lands : TaskStore → String → Arguments → TaskRow → Event → Status → Type 0
Lands s j a r e t =
    (s' : TaskStore) × (r' : TaskRow) × (dispatch s j r e a ≡ ok (s', r')) × (r'.status ≡ t)

IsActive-is_active : {s : Status} → IsActive s → is_active s ≡ true
IsActive-is_active is_claimed = refl
IsActive-is_active is_running = refl
IsActive-is_active is_cancel_requested = refl

module _ (s : TaskStore) (j : String) (a : Arguments) (r : TaskRow)
    (found : find_task j s.rows ≡ some r) where
  lands :
      (e : Event) (t : Status) (guard : TaskRow → Bool) (f : TaskRow → TaskRow)
      (ms : List TaskMetric)
      → KeepsId f
      → guard r ≡ true
      → (f r).status ≡ t
      → dispatch s j r e a ≡ execute s j guard f ms
      → Lands s j a r e t
  lands e t guard f ms keeps pass ends h = (
    record s { rows = update_task j guard f s.rows; metrics = s.metrics ++ ms },
    updated guard f r,
    h ∙ execute_lem s j guard f ms r keeps found,
    ground arith,
  )

  report-Lands :
      (t : Status) (l : List Status)
      → task_event_transitions t ≡ some l
      → contains l r.status ≡ true
      → Lands s j a r (report t) t
  unfolding dispatch on_report set_reported
  report-Lands t l e c =
      lands (report t) t no_guard (set_reported t r a)
        (record_task_transition_metrics r t (observed (set_reported t r a r).finished_at a.now_iso))
        (λ x. refl) refl refl (ground arith)

  outcome-Lands :
      (t : Status) → IsOutcome t → is_active r.status ≡ true → Lands s j a r (report t) t
  outcome-Lands t by_success h = report-Lands succeeded _ refl (ground arith)
  outcome-Lands t by_failure h = report-Lands failed _ refl (ground arith)
  outcome-Lands t by_timeout h = report-Lands timeout _ refl (ground arith)
  outcome-Lands t by_cancel h = report-Lands cancelled _ refl (ground arith)
  outcome-Lands t by_loss h = report-Lands lost _ refl (ground arith)

  walk : (e : Event) {t : Status} → Edge e r t → Lands s j a r e t
  unfolding dispatch on_background set_finished set_cancel_requested set_escalated set_approved
      set_rejected set_review_expired
  walk e (confirm p) = report-Lands claimed _ refl (ground arith)
  walk e (start p) = report-Lands running _ refl (ground arith)
  walk e (go_on p) = report-Lands running _ refl (ground arith)
  walk e (finish o p) = outcome-Lands _ o (IsActive-is_active p)
  walk e (withdraw p) =
      lands cancel cancelled no_guard (set_finished cancelled a)
        (record_task_transition_metrics r cancelled (or_text a.finished_at a.now_iso)) (λ x. refl)
        refl refl (ground arith)
  walk e (ask_to_stop p) =
      lands cancel cancel_requested no_guard (set_cancel_requested a) [] (λ x. refl) refl refl
        (ground (arith, IsActive-is_active p))
  walk e (escalate p q) =
      lands review_escalate reviewing no_guard (set_escalated a) [] (λ x. refl) refl p
        (ground arith)
  walk e (approve p q) =
      lands review_approve pending under_review (set_approved a) [] (λ x. refl) (ground arith) refl
        (ground arith)
  walk e (reject p) =
      lands review_reject rejected under_review (set_rejected a)
        (record_task_transition_metrics r rejected a.now_iso) (λ x. refl) (ground arith) refl
        (ground arith)
  walk e (expire p) =
      lands review_expire review_expired under_review (set_review_expired a)
        (record_task_transition_metrics r review_expired a.now_iso) (λ x. refl) (ground arith) refl
        (ground arith)
  walk e overrun =
      lands background_timeout timeout no_guard (set_finished timeout a)
        (record_task_transition_metrics r timeout (or_text a.finished_at a.now_iso)) (λ x. refl)
        refl refl refl
  walk e lose =
      lands background_lost lost no_guard (set_finished lost a)
        (record_task_transition_metrics r lost (or_text a.finished_at a.now_iso)) (λ x. refl) refl
        refl refl

-- Every edge can be walked: where the diagram has an edge for the event, the event is accepted and
-- leaves the task in the edge's status.
pub Edge-accepted :
    (s : TaskStore) (j : String) (e : Event) (a : Arguments) (r : TaskRow) (t : Status)
    → find_task j s.rows ≡ some r
    → Edge e r t
    → (s' : TaskStore) × (r' : TaskRow) × (transition_task s j e a ≡ ok (s', r')) × (r'.status ≡ t)
unfolding transition_task get_task_row
Edge-accepted s j e a r t found edge =
    let (s', r', h, q) = walk s j a r found e edge in (s', r', rw (found, get_task_row) h, q)
