-- ===== src/Scenarios/Review.antt =====
-- A shell task for a node that allows it: no model is configured, and a human approves it.
use gpufleet.Prelude.{true, false, ◌≡◌, refl, none, some, [], ◌∷◌, codes, same}
use gpufleet.Scenarios.Rows.{node}
use gpufleet.Tasks.Table.{TaskRow, find_task, update_task}
use gpufleet.Tasks.Transition.{transition_task, get_task_row, execute, set_approved}
use gpufleet.Auth.Nodes.{NodeRow}
use gpufleet.Auth.Request.{aware}
use gpufleet.Scanner.{find_node, parse_utc_or_none}
use gpufleet.Review.{timed_out, not_json, ensure_workdir_allowed}
use gpufleet.Review.Create.{
  AdminStore, Admin, AdminTaskCreateRequest, CreateContext, created_task, create_task,
  store_new_task, check_target, new_task, gate, is_l2, insert_task, write_review, write_alert,
  insert_audit, count_created, insert_review_audit, create_review_alert,
}
use gpufleet.Review.Decide.{
  DecideContext, done, decide, admin_arguments, with_tasks, approve_review, approve_now, approval,
  too_early, mark_task_alerts_actioned,
}
use gpufleet.Review.Cooldown.{Waited, Approved, approve_review-Approved}
use gpufleet.Review.Vetted.{held, cleared}
use gpufleet.Review.Vetted.History.{Turns, start, then_turn, creates, approves, no_unvetted_task}

abbrev shell_node : NodeRow
shell_node = record node { allow_shell = true }

abbrev empty : AdminStore
empty = record {
  tasks = record { rows = []; metrics = [] };
  nodes = shell_node ∷ [];
  reviews = [];
  alerts = [];
  audits = [];
  notices = [];
  decisions = [];
  created = [];
}

abbrev context : CreateContext
context = record {
  now_iso = codes "12:00";
  review_end = codes "12:01";
  expires_at = codes "12:30";
  is_configured = false;
  review_model = "m";
  stream = timed_out;
  json_library = record { strip = λ t. t; loads = λ t. not_json };
  decision_json = λ d. "{}";
  allowed_workdirs = λ t. [];
  path_parts = λ t. t ∷ [];
  lower = λ t. t;
  alert_detail = λ m. "{}";
  fresh_task_id = "tsk_1";
  fresh_idempotency_key = "manual-1";
  title = [];
  summary = [];
}

abbrev wish : AdminTaskCreateRequest
wish = record {
  node_id = "a";
  type = "shell";
  payload = [];
  payload_json = "{}";
  task_id = some "t1";
  revision = 1;
  idempotency_key = none;
  workdir = none;
  workdir_text = none;
  env_json = "{}";
  requested_gpu_ids_json = "[]";
  timeout_sec = none;
  kill_grace_sec = 15;
  danger_level = "normal";
  dump = λ d. "{}";
}

abbrev admin : Admin
admin = record { id = 1; name = "root"; id_text = "1" }

abbrev decision : DecideContext
decision = record {
  now = 60000000;
  now_iso = codes "12:02";
  expires_at = codes "12:30";
  fromisoformat = λ t. some (aware 0);
  alert_detail = λ r. "{}";
  alert_title = λ r. [];
  alert_summary = λ j. [];
  note = none;
  note_json = "{}";
  statuses_json = λ r saved. "{}";
}

abbrev new_row : TaskRow
new_row = new_task context admin wish (gate context wish) 1

abbrev alerted : AdminStore
alerted =
    write_alert context wish new_row
      (write_review context new_row (gate context wish) (insert_task new_row empty))

abbrev reviewing_store : AdminStore
reviewing_store =
    count_created "shell" (insert_audit admin "create_task" "t1" "{}" (codes "12:00") alerted)

abbrev approved_row : TaskRow
approved_row =
    set_approved (admin_arguments decision.now_iso none (some 1) (some "human_approved")) new_row

abbrev approved_store : AdminStore
approved_store =
    approval decision admin "t1"
      (with_tasks reviewing_store (record { rows = approved_row ∷ []; metrics = [] }))

is_created : create_task context admin wish 1 empty ≡ created_task reviewing_store new_row
unfolding create_task find_node same check_target is_l2 ensure_workdir_allowed store_new_task
    find_task new_task gate
is_created = refl

is_approved : approve_review decision admin "t1" reviewing_store ≡ done approved_store approved_row
unfolding approve_review find_task same new_task gate is_l2 parse_utc_or_none too_early approve_now
    decide transition_task get_task_row execute update_task count_created insert_audit write_alert
    write_review insert_task create_review_alert insert_review_audit set_approved
is_approved = refl

approve_review-Approved_example :
    ((row : TaskRow) × (find_task "t1" reviewing_store.tasks.rows ≡ some row) × Waited decision row)
    × Approved admin "t1" reviewing_store approved_store approved_row
approve_review-Approved_example =
    approve_review-Approved decision admin "t1" reviewing_store approved_store approved_row
      is_approved

turns : Turns empty approved_store
turns =
    then_turn (then_turn start (creates context admin wish 1 new_row is_created))
      (approves decision admin "t1" approved_row is_approved)

no_unvetted_task_example : cleared approved_row.review_decision ≡ true
unfolding find_task same held is_l2 approval set_approved new_task mark_task_alerts_actioned
    insert_review_audit insert_audit
no_unvetted_task_example = no_unvetted_task "t1" approved_row refl turns refl refl refl
