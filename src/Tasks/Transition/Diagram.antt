-- ===== src/Tasks/Transition/Diagram.antt =====
-- A diagram of task statuses, for app/services/task_state.py.
use gpufleet.Prelude.{◌≡◌, some}
use gpufleet.Tasks.Status.{
  Status, pending, reviewing, claimed, running, cancel_requested, succeeded, failed, timeout,
  cancelled, lost, rejected, review_expired,
}
use gpufleet.Tasks.Table.{TaskRow}
use gpufleet.Tasks.Transition.{
  Event, report, cancel, review_escalate, review_approve, review_reject, review_expire,
  background_timeout, background_lost,
}

pub data IsActive : Status → Type 0 where
  is_claimed : IsActive claimed
  is_running : IsActive running
  is_cancel_requested : IsActive cancel_requested

-- The statuses in which a node ends a task.
pub data IsOutcome : Status → Type 0 where
  by_success : IsOutcome succeeded
  by_failure : IsOutcome failed
  by_timeout : IsOutcome timeout
  by_cancel : IsOutcome cancelled
  by_loss : IsOutcome lost

-- `Edge e r t`: the event `e` takes the row `r` to the status `t`.
pub data Edge : Event → TaskRow → Status → Type 0 where
  confirm : {r : TaskRow} → r.status ≡ claimed → Edge (report claimed) r claimed
  start : {r : TaskRow} → r.status ≡ claimed → Edge (report running) r running
  go_on : {r : TaskRow} → r.status ≡ running → Edge (report running) r running
  finish : {r : TaskRow} {t : Status} → IsOutcome t → IsActive r.status → Edge (report t) r t
  withdraw : {r : TaskRow} → r.status ≡ pending → Edge cancel r cancelled
  ask_to_stop : {r : TaskRow} → IsActive r.status → Edge cancel r cancel_requested
  escalate :
      {r : TaskRow}
      → r.status ≡ reviewing
      → ¬ (r.review_stage ≡ some 3)
      → Edge review_escalate r reviewing
  approve :
      {r : TaskRow} → r.status ≡ reviewing → r.review_stage ≡ some 3 → Edge review_approve r pending
  reject : {r : TaskRow} → r.status ≡ reviewing → Edge review_reject r rejected
  expire : {r : TaskRow} → r.status ≡ reviewing → Edge review_expire r review_expired
  overrun : {r : TaskRow} → Edge background_timeout r timeout
  lose : {r : TaskRow} → Edge background_lost r lost
