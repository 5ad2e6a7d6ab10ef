-- ===== src/Review/Decide.antt =====
-- app/services/admin_tasks_service.py: `cancel_task`, `escalate_review`, `approve_review`,
-- `reject_review`. The clock, JSON texts and the wording of alerts are arguments.
use gpufleet.Prelude.{
  ℕ, ◌+◌, String, Text, Bool, true, ◌||◌, not, Option, none, some, [], ◌∷◌, ◌++◌, ltb, ◌==◌,
  update_where, if◌then◌else◌,
}
use gpufleet.Tasks.Status.{reviewing, is_status}
use gpufleet.Tasks.Table.{TaskRow, find_task}
use gpufleet.Tasks.Transition.{
  Event, cancel, review_escalate, review_approve, review_reject, TaskStateError, ok, raise,
  TaskStore, Arguments, transition_task, at_stage_3,
}
use gpufleet.Tasks.Transition.{task_not_found as no_such_task}
use gpufleet.Auth.Request.{Parsed}
use gpufleet.Audit.{review_escalated}
use gpufleet.Scanner.{absent, at_instant, unreadable, parse_utc_or_none, seconds}
use gpufleet.Scanner.Expire.{unread_of}
use gpufleet.Review.Create.{
  ReviewRow, AdminStore, Admin, insert_review_audit, create_review_alert, insert_audit,
}

pub record DecideContext : Type 0 where
  pub now : ℕ
  pub now_iso : Text
  pub expires_at : Text
  pub fromisoformat : Text → Option Parsed
  pub alert_detail : TaskRow → String
  pub alert_title : TaskRow → Text
  pub alert_summary : String → Text
  pub note : Option Text
  pub note_json : String
  pub statuses_json : TaskRow → TaskRow → String

pub data AdminError : Type 0 where
  task_not_found : AdminError
  invalid_task_state : TaskStateError → AdminError
  review_not_pending cooldown_not_reached server_error : AdminError

pub data AdminReply : Type 0 where
  done : AdminStore → TaskRow → AdminReply
  failed : AdminError → AdminReply

abbrev pub human_review_cooldown_sec : ℕ
human_review_cooldown_sec = 10

-- `if str(exc) == "Task not found"`
unfoldable pub admin_error : TaskStateError → AdminError
admin_error no_such_task = task_not_found
admin_error e = invalid_task_state e

abbrev pub admin_arguments : Text → Option Text → Option ℕ → Option String → Arguments
admin_arguments now_iso finished_at admin_id danger_level = record {
  now_iso = now_iso;
  started_at = none;
  finished_at = finished_at;
  review_admin_id = admin_id;
  danger_level = danger_level;
}

abbrev pub with_tasks : AdminStore → TaskStore → AdminStore
with_tasks s tasks = record s { tasks = tasks }

-- The row as it was read, then the event, then what the handler writes besides.
unfoldable pub decide :
    AdminStore
    → String
    → Event
    → Arguments
    → (TaskRow → TaskRow → AdminStore → AdminStore)
    → AdminReply
decide s task_id event a besides = elim (find_task task_id s.tasks.rows) [
  | none ↦ failed task_not_found
  | some row ↦ elim (transition_task s.tasks task_id event a) [
    | raise e ↦ failed (admin_error e)
    | ok moved ↦ done (besides row moved.1 (with_tasks s moved.0)) moved.1
  ]
]

unfoldable pub cancel_task : DecideContext → Admin → String → AdminStore → AdminReply
cancel_task c admin task_id s =
    decide s task_id cancel (admin_arguments c.now_iso (some c.now_iso) none none) (λ row saved s'.
      insert_audit admin "cancel_task" task_id (c.statuses_json row saved) c.now_iso s')

unfoldable pub announce_escalation : TaskRow → Admin → AdminStore → AdminStore
announce_escalation row admin s = record s {
  notices = s.notices ++ review_escalated row.task_id row.task_type row.node_id admin.name ∷ [];
}

unfoldable pub escalate_review : DecideContext → Admin → String → AdminStore → AdminReply
escalate_review c admin task_id s =
    decide s task_id review_escalate (admin_arguments c.now_iso none none none) (λ row saved s'.
      announce_escalation row admin (
        insert_audit admin "escalate_task_review" task_id c.note_json c.now_iso (
          create_review_alert task_id (c.alert_detail row) (c.alert_title row) c.now_iso
            c.expires_at (c.alert_summary task_id) s')))

-- UPDATE alert_messages SET status = 'actioned', actioned_at = ? WHERE …
unfoldable pub mark_task_alerts_actioned : String → Text → AdminStore → AdminStore
mark_task_alerts_actioned task_id now_iso s = record s {
  alerts =
      update_where (unread_of task_id)
        (λ a. record a { status = "actioned"; actioned_at = some now_iso }) s.alerts;
}

abbrev human_review : DecideContext → Admin → String → ℕ → String → ReviewRow
human_review c admin task_id stage decision = record {
  task_id = task_id;
  stage = stage;
  reviewer_type = "human";
  reviewer_id = some admin.id_text;
  decision = decision;
  reasoning = c.note;
  created_at = c.now_iso;
}

unfoldable pub approval : DecideContext → Admin → String → AdminStore → AdminStore
approval c admin task_id s' =
    insert_audit admin "approve_task_review" task_id c.note_json c.now_iso (
      mark_task_alerts_actioned task_id c.now_iso
        (insert_review_audit (human_review c admin task_id 3 "approve") true s'))

unfoldable pub approve_now : DecideContext → Admin → String → AdminStore → AdminReply
approve_now c admin task_id s =
    decide s task_id review_approve
      (admin_arguments c.now_iso none (some admin.id) (some "human_approved"))
      (λ row saved s'. approval c admin task_id s')

-- The cooldown: `(now - started).total_seconds() < HUMAN_REVIEW_COOLDOWN_SEC`.
unfoldable pub too_early : DecideContext → ℕ → Bool
too_early c started = ltb c.now (started + seconds human_review_cooldown_sec)

unfoldable pub approve_review : DecideContext → Admin → String → AdminStore → AdminReply
approve_review c admin task_id s = elim (find_task task_id s.tasks.rows) [
  | none ↦ failed task_not_found
  | some row ↦
      if not (is_status row.status reviewing) || not (at_stage_3 row.review_stage)
      then failed review_not_pending
      else elim (parse_utc_or_none c.fromisoformat row.review_started_at) [
        | unreadable ↦ failed server_error
        | absent ↦ approve_now c admin task_id s
        | at_instant started ↦
            if too_early c started
            then failed cooldown_not_reached
            else approve_now c admin task_id s
      ]
]

-- 3 if row["review_stage"] == 3 else (row["review_stage"] or 3)
abbrev rejected_stage : Option ℕ → ℕ
rejected_stage none = 3
rejected_stage (some n) = if n == 0 then 3 else n

unfoldable pub reject_review : DecideContext → Admin → String → AdminStore → AdminReply
reject_review c admin task_id s =
    decide s task_id review_reject (admin_arguments c.now_iso none (some admin.id) none)
      (λ row saved s'. insert_audit admin "reject_task_review" task_id c.note_json c.now_iso (
        mark_task_alerts_actioned task_id c.now_iso (
          insert_review_audit
            (human_review c admin task_id (rejected_stage row.review_stage) "reject")
            (at_stage_3 row.review_stage) s')))
