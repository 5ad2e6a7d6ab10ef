-- ===== src/Review/Create.antt =====
-- app/services/admin_tasks_service.py: `create_task` with the rows that it writes.
-- The answer of the reviewing model, the random ids, JSON texts and the clock are arguments.
use gpufleet.Prelude.{
  ℕ, String, Text, Bool, true, false, ◌&&◌, ◌||◌, not, Option, none, some, List, [], ◌∷◌, ◌++◌,
  same, if◌then◌else◌,
}
use gpufleet.Tasks.Status.{Status, pending, reviewing, is_status}
use gpufleet.Tasks.Table.{TaskRow, find_task}
use gpufleet.Tasks.Transition.{TaskStore}
use gpufleet.Auth.Nodes.{NodeRow}
use gpufleet.Audit.{AuditEvent, AlertMessage, Notice, json}
use gpufleet.Scanner.{find_node}
use gpufleet.Review.{
  Judgement, approve, reject, uncertain, ReviewDecision, Json, Stream, review, member,
  shell_task_types, modal_task_types, task_type_level_l2, Payload, detect_dangerous_command,
  ensure_workdir_allowed, normalize_timeout,
}

-- The table `task_reviews`, without the score and the factors of a risk.
pub record ReviewRow : Type 0 where
  pub task_id : String
  pub stage : ℕ
  pub reviewer_type : String
  pub reviewer_id : Option String
  pub decision : String
  pub reasoning : Option Text
  pub created_at : Text

-- `decisions` are the increments of REVIEW_DECISION_TOTAL by their labels, `created` those of
-- TASK_CREATED_TOTAL.
pub record AdminStore : Type 0 where
  pub tasks : TaskStore
  pub nodes : List NodeRow
  pub reviews : List ReviewRow
  pub alerts : List AlertMessage
  pub audits : List AuditEvent
  pub notices : List Notice
  pub decisions : List (String × String)
  pub created : List String

pub record Admin : Type 0 where
  pub id : ℕ
  pub name : String
  pub id_text : String

pub record AdminTaskCreateRequest : Type 0 where
  pub node_id : String
  pub type : String
  pub payload : Payload
  pub payload_json : String
  pub task_id : Option String
  pub revision : ℕ
  pub idempotency_key : Option String
  pub workdir : Option Text
  pub workdir_text : Option String
  pub env_json : String
  pub requested_gpu_ids_json : String
  pub timeout_sec : Option ℕ
  pub kill_grace_sec : ℕ
  pub danger_level : String
  pub dump : String → String

-- What the handler gets from outside: `stream` is the model's answer, if one is asked.
pub record CreateContext : Type 0 where
  pub now_iso : Text
  pub review_end : Text
  pub expires_at : Text
  pub is_configured : Bool
  pub review_model : String
  pub stream : Stream
  pub json_library : Json
  pub decision_json : ReviewDecision → String
  pub allowed_workdirs : String → List Text
  pub path_parts : Text → List Text
  pub lower : Text → Text
  pub alert_detail : Option Text → String
  pub fresh_task_id : String
  pub fresh_idempotency_key : String
  pub title : Text
  pub summary : Text

pub data CreateError : Type 0 where
  target_node_not_found node_disabled invalid_target_for_type : CreateError
  workdir_not_allowed task_type_forbidden_on_node duplicate_task_id : CreateError

pub data CreateReply : Type 0 where
  created_task : AdminStore → TaskRow → CreateReply
  refused : CreateError → CreateReply

-- How a new task starts.
pub record Gate : Type 0 where
  pub initial_status : Status
  pub review_stage : Option ℕ
  pub review_decision : Option String
  pub review_detail : Option String
  pub review_started_at : Option Text
  pub review_finished_at : Option Text
  pub danger_level : String
  pub reasoning : Option Text

unfoldable pub judgement_text : Judgement → String
judgement_text approve = "approve"
judgement_text reject = "reject"
judgement_text uncertain = "uncertain"

abbrev pub is_approved : Judgement → Bool
is_approved approve = true
is_approved _ = false

abbrev pub is_uncertain : Judgement → Bool
is_uncertain uncertain = true
is_uncertain _ = false

unfoldable pub is_l2 : String → Bool
is_l2 type = member task_type_level_l2 type

-- The gate of a task that the model has judged.
unfoldable pub judged_gate : CreateContext → String → ReviewDecision → Gate
judged_gate c danger_level d = record {
  initial_status = if is_approved d.decision then pending else reviewing;
  review_stage = if is_uncertain d.decision then some 3 else some 1;
  review_decision = some (judgement_text d.decision);
  review_detail = some (c.decision_json d);
  review_started_at = some c.now_iso;
  review_finished_at = some c.review_end;
  danger_level = if is_approved d.decision && d.elevated then "elevated" else danger_level;
  reasoning = some d.reasoning;
}

unfoldable pub gate : CreateContext → AdminTaskCreateRequest → Gate
gate c p =
    if not (is_l2 p.type)
    then record {
      initial_status = pending;
      review_stage = none;
      review_decision = none;
      review_detail = none;
      review_started_at = none;
      review_finished_at = none;
      danger_level = p.danger_level;
      reasoning = none;
    }
    else if c.is_configured
    then judged_gate c p.danger_level (review c.json_library c.stream)
    else record {
      initial_status = reviewing;
      review_stage = some 3;
      review_decision = some "skipped";
      review_detail = some "{\"reason\":\"REVIEW_LLM_API_KEY not configured\"}";
      review_started_at = some c.now_iso;
      review_finished_at = none;
      danger_level = p.danger_level;
      reasoning = none;
    }

-- The refusals, in the order of the code.
unfoldable pub check_target : CreateContext → NodeRow → AdminTaskCreateRequest → Option CreateError
check_target c node p =
    if not node.is_enabled
    then some node_disabled
    else if member modal_task_types p.type && not (same node.node_type "modal_runner")
    then some invalid_target_for_type
    else if same node.node_type "modal_runner"
        && not (member ("modal_command" ∷ "health_check" ∷ []) p.type)
    then some invalid_target_for_type
    else if not (
        ensure_workdir_allowed c.path_parts p.workdir
          (c.allowed_workdirs node.allowed_workdirs_json))
    then some workdir_not_allowed
    else if member shell_task_types p.type && not node.allow_shell
    then some task_type_forbidden_on_node
    else if member modal_task_types p.type && not node.allow_modal
    then some task_type_forbidden_on_node
    else none

abbrev or_fresh : Option String → String → String
or_fresh none fresh = fresh
or_fresh (some s) fresh = if same s "" then fresh else s

unfoldable pub new_task : CreateContext → Admin → AdminTaskCreateRequest → Gate → ℕ → TaskRow
new_task c admin p g id = record {
  id = id;
  task_id = or_fresh p.task_id c.fresh_task_id;
  revision = p.revision;
  idempotency_key = or_fresh p.idempotency_key c.fresh_idempotency_key;
  node_id = p.node_id;
  task_type = p.type;
  status = g.initial_status;
  payload_json = p.payload_json;
  workdir = p.workdir_text;
  env_json = p.env_json;
  requested_gpu_ids_json = p.requested_gpu_ids_json;
  timeout_sec = normalize_timeout p.type p.timeout_sec;
  kill_grace_sec = p.kill_grace_sec;
  danger_level = g.danger_level;
  created_by_admin_id = some admin.id;
  created_at = c.now_iso;
  claimed_at = none;
  started_at = none;
  finished_at = none;
  result_locked_at = none;
  review_stage = g.review_stage;
  review_decision = g.review_decision;
  review_detail = g.review_detail;
  review_admin_id = none;
  review_started_at = g.review_started_at;
  review_finished_at = g.review_finished_at;
}

-- The labels of REVIEW_DECISION_TOTAL.
unfoldable pub decision_label : String → String
decision_label d =
    if same d "approve" || same d "human_approved"
    then "approve"
    else if same d "reject" || same d "human_rejected"
    then "reject"
    else if same d "expired"
    then "expired"
    else "escalate"

abbrev stage_label : ReviewRow → Bool → String
stage_label r third = if same r.reviewer_type "human" || third then "human" else "llm"

unfoldable pub insert_review_audit : ReviewRow → Bool → AdminStore → AdminStore
insert_review_audit r third s = record s {
  reviews = s.reviews ++ r ∷ [];
  decisions = s.decisions ++ (stage_label r third, decision_label r.decision) ∷ [];
}

unfoldable pub create_review_alert :
    String → String → Text → Text → Text → Text → AdminStore → AdminStore
create_review_alert task_id detail title now_iso expires_at summary s = record s {
  alerts =
      s.alerts
      ++ record {
        alert_type = "command_review";
        severity = "critical";
        title = title;
        summary = summary;
        detail = detail;
        target_type = "task";
        target_id = task_id;
        status = "unread";
        actioned_by = none;
        actioned_at = none;
        expires_at = some expires_at;
        created_at = now_iso;
      }
        ∷ [];
}

unfoldable pub insert_audit : Admin → String → String → String → Text → AdminStore → AdminStore
insert_audit admin action task_id detail now_iso s = record s {
  audits =
      s.audits
      ++ record {
        actor_type = "admin";
        actor_id = admin.id_text;
        action = action;
        target_type = "task";
        target_id = task_id;
        detail = json detail;
        created_at = now_iso;
      }
        ∷ [];
}

-- review_stage is not None and review_decision_val
unfoldable pub write_review : CreateContext → TaskRow → Gate → AdminStore → AdminStore
write_review c r g s = elim g.review_decision [
  | none ↦ s
  | some d ↦
      insert_review_audit
        (record {
          task_id = r.task_id;
          stage = 1;
          reviewer_type = if c.is_configured then "llm" else "skip";
          reviewer_id = if c.is_configured then some c.review_model else none;
          decision = d;
          reasoning = g.reasoning;
          created_at = c.now_iso;
        })
        false s
]

unfoldable pub write_alert :
    CreateContext → AdminTaskCreateRequest → TaskRow → AdminStore → AdminStore
write_alert c p r s =
    if is_status r.status reviewing
    then create_review_alert r.task_id
        (c.alert_detail (detect_dangerous_command c.lower p.type p.payload)) c.title c.now_iso
        c.expires_at c.summary s
    else s

unfoldable pub insert_task : TaskRow → AdminStore → AdminStore
insert_task r s = record s { tasks = record s.tasks { rows = s.tasks.rows ++ r ∷ [] } }

unfoldable pub count_created : String → AdminStore → AdminStore
count_created type s = record s { created = s.created ++ type ∷ [] }

unfoldable pub store_new_task :
    CreateContext → Admin → AdminTaskCreateRequest → AdminStore → ℕ → CreateReply
store_new_task c admin p s id =
    let g = gate c p in
    let r = new_task c admin p g id in
    elim (find_task r.task_id s.tasks.rows) [
      | some taken ↦ refused duplicate_task_id
      | none ↦
          created_task
            (count_created p.type (
              insert_audit admin "create_task" r.task_id (p.dump g.danger_level) c.now_iso
                (write_alert c p r (write_review c r g (insert_task r s)))))
            r
    ]

-- `id` is the row id that the database assigns.
unfoldable pub create_task :
    CreateContext → Admin → AdminTaskCreateRequest → ℕ → AdminStore → CreateReply
create_task c admin p id s = elim (find_node p.node_id s.nodes) [
  | none ↦ refused target_node_not_found
  | some node ↦ elim (check_target c node p) [
    | some e ↦ refused e
    | none ↦ store_new_task c admin p s id
  ]
]
