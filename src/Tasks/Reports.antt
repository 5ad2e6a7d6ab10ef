-- ===== src/Tasks/Reports.antt =====
-- app/services/node_runtime_service.py: `task_events` and `task_result` behind authentication and
-- validation, with `load_task_for_node` and `upsert_task_attempt`.
-- The summary of a result is the JSON text of it.
pub mod Agree
pub mod Repeated
use gpufleet.Prelude.{
  ℕ, suc, String, Text, Bool, true, false, Option, none, some, List, [], ◌∷◌, ◌++◌, same, ltb, ◌==◌,
  take, or_text, coalesce, ◌&&◌, update_where, if◌then◌else◌,
}
use gpufleet.Tasks.Status.{Status, failed, is_status}
use gpufleet.Tasks.Table.{TaskRow}
use gpufleet.Tasks.Transition.{
  TaskStateError, report, ok, raise, Outcome, TaskStore, Arguments, transition_task,
}
use gpufleet.Tasks.Finalize.{FinalResult, finalize_task_result}
use gpufleet.Tasks.Claim.{task_of_node}

pub data ℤ : Type 0 where
  pos negsuc : ℕ → ℤ

pub record AttemptRow : Type 0 where
  pub id : ℕ
  pub task_id : String
  pub node_id : String
  pub agent_boot_id : Option String
  pub pid : Option ℕ
  pub pgid_or_job_id : Option String
  pub status : Status
  pub started_at : Option Text
  pub finished_at : Option Text
  pub exit_code : Option ℤ
  pub result_summary_json : Text

-- The table `task_attempts` with the next value of its AUTOINCREMENT key.
pub record Attempts : Type 0 where
  pub rows : List AttemptRow
  pub next_id : ℕ

-- The arguments of `upsert_task_attempt` behind the names.
pub record AttemptReport : Type 0 where
  pub status_value : Status
  pub boot_id : Option String
  pub pid : Option ℕ
  pub pgid_or_job_id : Option String
  pub started_at : Option Text
  pub finished_at : Option Text
  pub exit_code : Option ℤ
  pub summary_json : Option Text

unfoldable pub newer : String → AttemptRow → Option AttemptRow → Option AttemptRow
newer j r none = if same r.task_id j then some r else none
newer j r (some x) = if same r.task_id j && ltb x.id r.id then some r else some x

-- WHERE task_id = ? ORDER BY id DESC LIMIT 1
unfoldable pub latest_attempt : String → List AttemptRow → Option AttemptRow
latest_attempt j [] = none
latest_attempt j (r ∷ rows) = newer j r (latest_attempt j rows)

abbrev pub or_default {ℓ} : {A : Type ℓ} → Option A → A → A
or_default none d = d
or_default (some a) d = a

unfoldable pub new_attempt : ℕ → String → String → AttemptReport → AttemptRow
new_attempt id task_id node_id a = record {
  id = id;
  task_id = task_id;
  node_id = node_id;
  agent_boot_id = a.boot_id;
  pid = a.pid;
  pgid_or_job_id = a.pgid_or_job_id;
  status = a.status_value;
  started_at = a.started_at;
  finished_at = a.finished_at;
  exit_code = a.exit_code;
  result_summary_json = or_default a.summary_json (123 ∷ 125 ∷ []);
}

unfoldable pub set_attempt : AttemptReport → AttemptRow → AttemptRow
set_attempt a r = record r {
  agent_boot_id = coalesce a.boot_id r.agent_boot_id;
  pid = coalesce a.pid r.pid;
  pgid_or_job_id = coalesce a.pgid_or_job_id r.pgid_or_job_id;
  status = a.status_value;
  started_at = coalesce a.started_at r.started_at;
  finished_at = coalesce a.finished_at r.finished_at;
  exit_code = coalesce a.exit_code r.exit_code;
  result_summary_json = or_default a.summary_json r.result_summary_json;
}

unfoldable pub upsert_task_attempt : Attempts → String → String → AttemptReport → Attempts
upsert_task_attempt t task_id node_id a = elim (latest_attempt task_id t.rows) [
  | none ↦ record {
    rows = t.rows ++ new_attempt t.next_id task_id node_id a ∷ [];
    next_id = suc t.next_id;
  }
  | some x ↦ record t { rows = update_where (λ r. r.id == x.id) (set_attempt a) t.rows }
]

-- The webhook `task.failed`.
pub record TaskFailed : Type 0 where
  pub task_id : String
  pub node_id : String
  pub exit_code : Option ℤ
  pub summary : Text

pub record ReportStore : Type 0 where
  pub tasks : TaskStore
  pub attempts : Attempts
  pub webhooks : List TaskFailed

pub data ReportReply : Type 0 where
  task_not_found : ReportReply
  invalid_state_transition : TaskStateError → ReportReply
  reported : Status → ReportReply
  duplicate : Status → ReportReply

pub record NodeTaskEvent : Type 0 where
  pub task_id : String
  pub event : Status
  pub boot_id : Option String
  pub pid : Option ℕ
  pub pgid_or_job_id : Option String

abbrev pub event_arguments : Text → Arguments
event_arguments now_iso = record {
  now_iso = now_iso;
  started_at = some now_iso;
  finished_at = some now_iso;
  review_admin_id = none;
  danger_level = none;
}

abbrev pub event_attempt : NodeTaskEvent → TaskRow → AttemptReport
event_attempt e row = record {
  status_value = e.event;
  boot_id = e.boot_id;
  pid = e.pid;
  pgid_or_job_id = e.pgid_or_job_id;
  started_at = row.started_at;
  finished_at = row.finished_at;
  exit_code = none;
  summary_json = none;
}

unfoldable pub finish_event :
    ReportStore → String → NodeTaskEvent → Outcome (TaskStore × TaskRow) → ReportReply × ReportStore
finish_event s node_id e (raise error) = (invalid_state_transition error, s)
finish_event s node_id e (ok (tasks, row)) = (
  reported e.event,
  record s {
    tasks = tasks;
    attempts = upsert_task_attempt s.attempts e.task_id node_id (event_attempt e row);
  },
)

unfoldable pub task_events : ReportStore → String → NodeTaskEvent → Text → ReportReply × ReportStore
task_events s node_id e now_iso = elim (task_of_node node_id e.task_id s.tasks.rows) [
  | none ↦ (task_not_found, s)
  | some row ↦
      finish_event s node_id e
        (transition_task s.tasks e.task_id (report e.event) (event_arguments now_iso))
]

pub record NodeTaskResult : Type 0 where
  pub task_id : String
  pub final_status : Status
  pub exit_code : Option ℤ
  pub summary_json : Text
  pub boot_id : Option String
  pub pid : Option ℕ
  pub pgid_or_job_id : Option String
  pub started_at : Option Text
  pub finished_at : Option Text

-- payload.started_at or current_row["started_at"] or now_iso
abbrev pub final_result : NodeTaskResult → TaskRow → Text → FinalResult
final_result p row now_iso = record {
  final_status = p.final_status;
  started_at = or_text p.started_at (or_text row.started_at now_iso);
  finished_at = or_text p.finished_at now_iso;
  now_iso = now_iso;
}

abbrev pub result_attempt : NodeTaskResult → FinalResult → AttemptReport
result_attempt p f = record {
  status_value = p.final_status;
  boot_id = p.boot_id;
  pid = p.pid;
  pgid_or_job_id = p.pgid_or_job_id;
  started_at = some f.started_at;
  finished_at = some f.finished_at;
  exit_code = p.exit_code;
  summary_json = some p.summary_json;
}

abbrev pub failure_webhooks : String → NodeTaskResult → List TaskFailed
failure_webhooks node_id p =
    if is_status p.final_status failed
    then record {
      task_id = p.task_id;
      node_id = node_id;
      exit_code = p.exit_code;
      summary = take 200 p.summary_json;
    }
      ∷ []
    else []

unfoldable pub finish_result :
    ReportStore
    → String
    → NodeTaskResult
    → FinalResult
    → Outcome (TaskStore × TaskRow × Bool)
    → ReportReply × ReportStore
finish_result s node_id p f (raise error) = (invalid_state_transition error, s)
finish_result s node_id p f (ok (tasks, row, true)) =
    (duplicate row.status, record s { tasks = tasks })
finish_result s node_id p f (ok (tasks, row, false)) = (
  reported p.final_status,
  record s {
    tasks = tasks;
    attempts = upsert_task_attempt s.attempts p.task_id node_id (result_attempt p f);
    webhooks = s.webhooks ++ failure_webhooks node_id p;
  },
)

unfoldable pub task_result :
    ReportStore → String → NodeTaskResult → Text → ReportReply × ReportStore
task_result s node_id p now_iso = elim (task_of_node node_id p.task_id s.tasks.rows) [
  | none ↦ (task_not_found, s)
  | some row ↦
      let f = final_result p row now_iso in
      finish_result s node_id p f (finalize_task_result s.tasks p.task_id f)
]
