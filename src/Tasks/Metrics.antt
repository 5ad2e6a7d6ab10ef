-- ===== src/Tasks/Metrics.antt =====
-- What app/services/task_state.py tells the metrics when a task changes its status.
-- A duration is recorded by its two ends: `datetime.fromisoformat` turns them into seconds, or drops
-- the observation.
use gpufleet.Prelude.{Text, Option, none, some, List, [], ◌∷◌, ◌++◌, if◌then◌else◌}
use gpufleet.Tasks.Status.{
  Status, succeeded, failed, timeout, cancelled, lost, rejected, review_expired, claimed, is_status,
  is_terminal,
}
use gpufleet.Tasks.Table.{TaskRow}

pub data ResultLabel : Type 0 where
  success fail timed_out was_lost was_cancelled : ResultLabel

abbrev pub terminal_result : Status → ResultLabel
terminal_result succeeded = success
terminal_result failed = fail
terminal_result timeout = timed_out
terminal_result lost = was_lost
terminal_result cancelled = was_cancelled
terminal_result rejected = fail
terminal_result review_expired = timed_out
terminal_result _ = fail

pub data TaskMetric : Type 0 where
  claim_latency : Text → Text → TaskMetric
  completed_total : ResultLabel → TaskMetric
  duration : ResultLabel → Text → Text → TaskMetric

-- `None` where one end is missing or empty.
abbrev pub seconds_between : (Text → Text → TaskMetric) → Option Text → Text → List TaskMetric
seconds_between metric none end = []
seconds_between metric (some []) end = []
seconds_between metric (some (c ∷ start)) [] = []
seconds_between metric (some (c ∷ start)) (d ∷ end) = metric (c ∷ start) (d ∷ end) ∷ []

unfoldable pub record_task_transition_metrics : TaskRow → Status → Text → List TaskMetric
record_task_transition_metrics row target observed_at =
    (if is_status target claimed
      then seconds_between claim_latency (some row.created_at) observed_at
      else [])
    ++ (if is_terminal target
        then completed_total (terminal_result target)
          ∷ seconds_between (duration (terminal_result target)) row.claimed_at observed_at
        else [])
