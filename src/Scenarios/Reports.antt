-- ===== src/Scenarios/Reports.antt =====
-- A node reports the task that it runs, and sends its result twice.
use gpufleet.Prelude.{Text, codes, ◌≡◌, refl, none, some, true, [], ◌∷◌, ◌++◌, same}
use gpufleet.Tasks.Status.{running, failed}
use gpufleet.Tasks.Table.{TaskRow, find_task, update_task, UniqueIds}
use gpufleet.Tasks.Metrics.{record_task_transition_metrics}
use gpufleet.Tasks.Transition.{transition_task, get_task_row, execute, set_reported}
use gpufleet.Tasks.Reports.{
  NodeTaskEvent, NodeTaskResult, ReportStore, reported, duplicate, latest_attempt,
  upsert_task_attempt, finish_event, task_events, task_result, failure_webhooks,
}
use gpufleet.Tasks.Reports.Agree.{Agree, task_events-Agree}
use gpufleet.Tasks.Reports.Repeated.{task_result_once}

abbrev busy : TaskRow
busy = record {
  id = 3;
  task_id = "t3";
  revision = 1;
  idempotency_key = "manual";
  node_id = "node-a";
  task_type = "git_pull";
  status = running;
  payload_json = "{}";
  workdir = none;
  env_json = "{}";
  requested_gpu_ids_json = "[]";
  timeout_sec = 600;
  kill_grace_sec = 15;
  danger_level = "normal";
  created_by_admin_id = some 1;
  created_at = codes "2026-01-01T00:00:00+00:00";
  claimed_at = some (codes "2026-01-01T00:00:05+00:00");
  started_at = some (codes "2026-01-01T00:00:06+00:00");
  finished_at = none;
  result_locked_at = none;
  review_stage = none;
  review_decision = none;
  review_detail = none;
  review_admin_id = none;
  review_started_at = none;
  review_finished_at = none;
}

abbrev now : Text
now = codes "2026-01-01T00:01:00+00:00"

abbrev store : ReportStore
store = record {
  tasks = record { rows = busy ∷ []; metrics = [] };
  attempts = record { rows = []; next_id = 1 };
  webhooks = [];
}

abbrev event : NodeTaskEvent
event = record {
  task_id = "t3";
  event = running;
  boot_id = some "boot-1";
  pid = some 42;
  pgid_or_job_id = none;
}

abbrev reported_store : ReportStore
reported_store = (task_events store "node-a" event now).1

event_reported : task_events store "node-a" event now ≡ (reported running, reported_store)
unfolding task_events finish_event upsert_task_attempt latest_attempt transition_task get_task_row
    execute set_reported update_task find_task same record_task_transition_metrics
event_reported = refl

task_events-Agree_example : Agree reported_store "t3" running
task_events-Agree_example =
    task_events-Agree store "node-a" event now running reported_store event_reported

abbrev failure : NodeTaskResult
failure = record {
  task_id = "t3";
  final_status = failed;
  exit_code = none;
  summary_json = codes "{}";
  boot_id = some "boot-1";
  pid = some 42;
  pgid_or_job_id = none;
  started_at = none;
  finished_at = some now;
}

store-UniqueIds : UniqueIds store.tasks.rows
unfolding find_task
store-UniqueIds = (refl, tt)

busy_found : find_task "t3" store.tasks.rows ≡ some busy
unfolding find_task same
busy_found = refl

busy_here : same busy.node_id "node-a" ≡ true
unfolding same
busy_here = refl

task_result_once_example :
    (s' : ReportStore) × (task_result store "node-a" failure now ≡ (reported failed, s'))
    × Agree s' "t3" failed
    × (s'.webhooks ≡ store.webhooks ++ failure_webhooks "node-a" failure)
    × ((q : NodeTaskResult) (later : Text)
        → q.task_id ≡ "t3"
        → task_result s' "node-a" q later ≡ (duplicate failed, s'))
task_result_once_example =
    task_result_once store "node-a" failure now busy store-UniqueIds busy_found busy_here refl refl
      refl
