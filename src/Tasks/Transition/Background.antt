-- ===== src/Tasks/Transition/Background.antt =====
-- The events that the scanner sends to `transition_task` (app/services/task_state.py).
use gpufleet.Prelude.{◌≡◌, refl, true, ◌∙◌, some, ◌++◌, or_text}
use gpufleet.Tasks.Status.{Status, timeout, lost, review_expired}
use gpufleet.Tasks.Table.{TaskRow, find_task, update_task}
use gpufleet.Tasks.Metrics.{record_task_transition_metrics}
use gpufleet.Tasks.Transition.Lifecycle.{execute_lem}
use gpufleet.Tasks.Transition.{
  Event, background_timeout, background_lost, ok, TaskStore, Arguments, get_task_row, dispatch,
  on_background, transition_task, no_guard, set_finished, review_expire, under_review,
  set_review_expired,
}

pub data Background : Event → Status → Type 0 where
  overdue : Background background_timeout timeout
  gone : Background background_lost lost

-- The table and the metrics after the event.
abbrev pub moved : TaskStore → TaskRow → Status → Arguments → TaskStore
moved s r t a = record s {
  rows = update_task r.task_id no_guard (set_finished t a) s.rows;
  metrics = s.metrics ++ record_task_transition_metrics r t (or_text a.finished_at a.now_iso);
}

pub transition-background :
    (s : TaskStore) (e : Event) (t : Status) (a : Arguments) (r : TaskRow)
    → Background e t
    → find_task r.task_id s.rows ≡ some r
    → transition_task s r.task_id e a ≡ ok (moved s r t a, set_finished t a r)
unfolding transition_task get_task_row dispatch on_background
transition-background s e t a r overdue h =
    rw (h, get_task_row)
      (execute_lem s r.task_id no_guard (set_finished t a)
        (record_task_transition_metrics r t (or_text a.finished_at a.now_iso)) r
        (unfold set_finished in λ x. refl) h)
transition-background s e t a r gone h =
    rw (h, get_task_row)
      (execute_lem s r.task_id no_guard (set_finished t a)
        (record_task_transition_metrics r t (or_text a.finished_at a.now_iso)) r
        (unfold set_finished in λ x. refl) h)

-- The table and the metrics after a review has expired.
abbrev pub expired_store : TaskStore → TaskRow → Arguments → TaskStore
expired_store s r a = record s {
  rows = update_task r.task_id under_review (set_review_expired a) s.rows;
  metrics = s.metrics ++ record_task_transition_metrics r review_expired a.now_iso;
}

pub transition-expire :
    (s : TaskStore) (a : Arguments) (r : TaskRow)
    → find_task r.task_id s.rows ≡ some r
    → under_review r ≡ true
    → transition_task s r.task_id review_expire a ≡ ok (expired_store s r a, set_review_expired a r)
unfolding transition_task get_task_row dispatch
transition-expire s a r h pass =
    rw (h, get_task_row, pass)
      (execute_lem s r.task_id under_review (set_review_expired a)
          (record_task_transition_metrics r review_expired a.now_iso) r
          (unfold set_review_expired in λ x. refl) h
        ∙ rw pass refl)
