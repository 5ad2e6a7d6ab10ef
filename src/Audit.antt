-- ===== src/Audit.antt =====
-- The table `audit_events` of app/db.py and the events that the control plane announces by
-- app/webhook.py's `emit_event`. The JSON of a detail is written as a value,
-- and the address of a request is left out.
use gpufleet.Prelude.{
  ℕ, String, Text, ◌&&◌, Option, none, some, List, [], ◌∷◌, same, select, text_lt, if◌then◌else◌,
}

pub data AuditDetail : Type 0 where
  server_side_timeout : ℕ → AuditDetail
  cancel_ack_timeout : ℕ → Option Text → AuditDetail
  node_unresponsive : Text → ℕ → AuditDetail
  node_never_seen : Text → AuditDetail
  json : String → AuditDetail

pub record AuditEvent : Type 0 where
  pub actor_type : String
  pub actor_id : String
  pub action : String
  pub target_type : String
  pub target_id : String
  pub detail : AuditDetail
  pub created_at : Text

pub data LossReason : Type 0 where
  by_cancel_ack_timeout : LossReason
  by_unresponsive_node : Text → LossReason
  by_unseen_node : LossReason

pub data Notice : Type 0 where
  task_failed : String → String → ℕ → Notice
  task_lost : String → String → LossReason → Notice
  review_expired_notice : String → ℕ → Notice
  review_escalated : String → String → String → String → Notice
  node_offline : String → Notice
  node_online : String → Notice

-- SELECT … WHERE action = ? AND target_type = 'task' AND target_id = ?
-- ORDER BY created_at DESC, id DESC LIMIT 1: of equal times the row inserted last.
unfoldable pub latest : List AuditEvent → Option AuditEvent
latest [] = none
latest (x ∷ rows) = elim (latest rows) [
  | none ↦ some x
  | some y ↦ if text_lt y.created_at x.created_at then some x else some y
]

unfoldable pub latest_action : String → String → List AuditEvent → Option AuditEvent
latest_action action task_id rows = latest (
    select (λ r. same r.action action && (same r.target_type "task" && same r.target_id task_id))
      rows)

-- The table `alert_messages`.
pub record AlertMessage : Type 0 where
  pub alert_type : String
  pub severity : String
  pub title : Text
  pub summary : Text
  pub detail : String
  pub target_type : String
  pub target_id : String
  pub status : String
  pub actioned_by : Option ℕ
  pub actioned_at : Option Text
  pub expires_at : Option Text
  pub created_at : Text
