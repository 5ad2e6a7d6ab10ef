-- ===== src/Scanner.antt =====
-- app/background.py: `_mark_lost_tasks` and `_latest_cancel_requested_at`.
-- The clock and `datetime.fromisoformat` are arguments; instants are microseconds. What the job
-- announced stays announced when its transaction is rolled back.
pub mod OneTask
pub mod Verdicts
pub mod EveryTask
pub mod Overdue
pub mod Expire
pub mod Gauges
pub mod Prune
pub mod Tick
use gpufleet.Prelude.{
  ℕ, ◌+◌, ◌*◌, String, Text, Bool, true, false, ◌&&◌, Option, none, some, List, [], ◌∷◌, ◌++◌, same,
  ltb, ◌==◌, if◌then◌else◌,
}
use gpufleet.Tasks.Status.{
  Status, claimed, running, cancel_requested, is_status, is_active, contains,
}
use gpufleet.Tasks.Table.{TaskRow}
use gpufleet.Tasks.Transition.{
  Event, background_timeout, background_lost, Outcome, ok, raise, TaskStore, Arguments,
  transition_task,
}
use gpufleet.Auth.Nodes.{NodeRow}
use gpufleet.Auth.Request.{Parsed, instant}
use gpufleet.Audit.{
  AuditDetail, server_side_timeout, cancel_ack_timeout, node_unresponsive, node_never_seen,
  AlertMessage, AuditEvent, LossReason, by_cancel_ack_timeout, by_unresponsive_node, by_unseen_node,
  Notice, task_failed, task_lost, latest_action,
}

pub record Clock : Type 0 where
  pub now : ℕ
  pub now_iso : Text
  pub fromisoformat : Text → Option Parsed

pub record ScanStore : Type 0 where
  pub tasks : TaskStore
  pub nodes : List NodeRow
  pub audits : List AuditEvent
  pub alerts : List AlertMessage
  pub notices : List Notice

abbrev pub seconds : ℕ → ℕ
seconds n = n * 1000000

abbrev pub cancel_ack_timeout_sec : ℕ
cancel_ack_timeout_sec = 300

-- `not raw` of a column
abbrev pub present : Option Text → Option Text
present none = none
present (some []) = none
present (some (c ∷ t)) = some (c ∷ t)

-- What reading a time gives; `unreadable` is the ValueError of `fromisoformat`.
pub data Moment : Type 0 where
  absent : Moment
  at_instant : ℕ → Moment
  unreadable : Moment

unfoldable pub parse_utc_or_none : (Text → Option Parsed) → Option Text → Moment
parse_utc_or_none fromisoformat raw = elim (present raw) [
  | none ↦ absent
  | some t ↦ elim (fromisoformat t) [ none ↦ unreadable | some p ↦ at_instant (instant p) ]
]

unfoldable pub latest_cancel_requested_at :
    (Text → Option Parsed) → List AuditEvent → String → Moment
latest_cancel_requested_at fromisoformat audits task_id =
    elim (latest_action "cancel_task" task_id audits) [
      | none ↦ absent
      | some row ↦ parse_utc_or_none fromisoformat (some row.created_at)
    ]

-- A task joined with its node.
pub record ActiveTask : Type 0 where
  pub task : TaskRow
  pub last_seen_at : Option Text
  pub heartbeat_interval_sec : ℕ

unfoldable pub find_node : String → List NodeRow → Option NodeRow
find_node j [] = none
find_node j (n ∷ nodes) = if same n.node_id j then some n else find_node j nodes

abbrev pub joined : TaskRow → Option NodeRow → List ActiveTask → List ActiveTask
joined t none rest = rest
joined t (some n) rest =
    record {
      task = t;
      last_seen_at = n.last_seen_at;
      heartbeat_interval_sec = n.heartbeat_interval_sec;
    }
    ∷ rest

-- tasks t JOIN nodes n ON t.node_id = n.node_id WHERE t.status IN (…)
unfoldable pub active_tasks_with_nodes : List NodeRow → List TaskRow → List ActiveTask
active_tasks_with_nodes nodes [] = []
active_tasks_with_nodes nodes (t ∷ rows) =
    let rest = active_tasks_with_nodes nodes rows in
    if is_active t.status then joined t (find_node t.node_id nodes) rest else rest

pub data Verdict : Type 0 where
  keep : Verdict
  time_out : Verdict
  lose_unacknowledged : ℕ → Verdict
  lose_unresponsive : Text → ℕ → Verdict
  lose_never_seen : Text → Verdict
  value_error : Verdict

-- `task["heartbeat_interval_sec"] or 5`
abbrev pub interval : ℕ → ℕ
interval n = if n == 0 then 5 else n

-- `now - moment > timedelta(seconds=limit)`
abbrev pub elapsed : ℕ → ℕ → ℕ → Bool
elapsed now moment limit = ltb (moment + seconds limit) now

-- Node unresponsive for claimed/running tasks
unfoldable pub judge_node : Clock → ActiveTask → Verdict
judge_node c x =
    let hb = interval x.heartbeat_interval_sec in
    if contains (claimed ∷ running ∷ []) x.task.status
    then elim (present x.last_seen_at) [
      | some seen ↦ elim (parse_utc_or_none c.fromisoformat (some seen)) [
        | absent ↦ keep
        | at_instant t ↦ if elapsed c.now t (3 * hb) then lose_unresponsive seen hb else keep
        | unreadable ↦ value_error
      ]
      | none ↦ elim (present x.task.claimed_at) [
        | none ↦ keep
        | some claimed_at ↦ elim (parse_utc_or_none c.fromisoformat (some claimed_at)) [
          | absent ↦ keep
          | at_instant t ↦ if elapsed c.now t (3 * hb) then lose_never_seen claimed_at else keep
          | unreadable ↦ value_error
        ]
      ]
    ]
    else keep

-- cancel_requested ack timeout
unfoldable pub judge_cancel : Clock → List AuditEvent → ActiveTask → Verdict
judge_cancel c audits x =
    if is_status x.task.status cancel_requested
    then elim (latest_cancel_requested_at c.fromisoformat audits x.task.task_id) [
      | absent ↦ judge_node c x
      | at_instant t ↦
          if elapsed c.now t cancel_ack_timeout_sec then lose_unacknowledged t else judge_node c x
      | unreadable ↦ value_error
    ]
    else judge_node c x

-- server-side timeout enforcement for running tasks
unfoldable pub judge : Clock → List AuditEvent → ActiveTask → Verdict
judge c audits x =
    if is_status x.task.status running
    then elim (parse_utc_or_none c.fromisoformat x.task.started_at) [
      | absent ↦ judge_cancel c audits x
      | at_instant t ↦
          if elapsed c.now t x.task.timeout_sec then time_out else judge_cancel c audits x
      | unreadable ↦ value_error
    ]
    else judge_cancel c audits x

abbrev pub background_audit : String → String → AuditDetail → Text → AuditEvent
background_audit action task_id detail now_iso = record {
  actor_type = "system";
  actor_id = "background";
  action = action;
  target_type = "task";
  target_id = task_id;
  detail = detail;
  created_at = now_iso;
}

-- What the branch of a verdict does: the event sent, the audit row and the notice.
pub record Measure : Type 0 where
  pub event : Event
  pub audit : AuditEvent
  pub notice : Notice

abbrev lost_measure : Clock → TaskRow → AuditDetail → LossReason → Measure
lost_measure c t detail reason = record {
  event = background_lost;
  audit = background_audit "task_lost" t.task_id detail c.now_iso;
  notice = task_lost t.task_id t.node_id reason;
}

unfoldable pub measure : Clock → ActiveTask → Verdict → Option Measure
measure c x keep = none
measure c x value_error = none
measure c x time_out = some (record {
  event = background_timeout;
  audit =
      background_audit "task_timeout" x.task.task_id (server_side_timeout x.task.timeout_sec)
        c.now_iso;
  notice = task_failed x.task.task_id x.task.node_id x.task.timeout_sec;
})
measure c x (lose_unacknowledged t) =
    some (lost_measure c x.task (cancel_ack_timeout t x.last_seen_at) by_cancel_ack_timeout)
measure c x (lose_unresponsive seen hb) =
    some (lost_measure c x.task (node_unresponsive seen hb) (by_unresponsive_node seen))
measure c x (lose_never_seen claimed_at) =
    some (lost_measure c x.task (node_never_seen claimed_at) by_unseen_node)

abbrev pub at_now : Text → Arguments
at_now now_iso = record {
  now_iso = now_iso;
  started_at = none;
  finished_at = some now_iso;
  review_admin_id = none;
  danger_level = none;
}

-- Whether the loop went on, with what it has done.
unfoldable pub apply_measure : Clock → ScanStore → String → Measure → Bool × ScanStore
apply_measure c s task_id m = elim (transition_task s.tasks task_id m.event (at_now c.now_iso)) [
  | raise e ↦ (false, s)
  | ok moved ↦ (
    true,
    record s {
      tasks = moved.0;
      audits = s.audits ++ m.audit ∷ [];
      notices = s.notices ++ m.notice ∷ [];
    },
  )
]

unfoldable pub mark_task : Clock → ScanStore → ActiveTask → Verdict → Bool × ScanStore
mark_task c s x value_error = (false, s)
mark_task c s x v = elim (measure c x v) [
  | none ↦ (true, s)
  | some m ↦ apply_measure c s x.task.task_id m
]

unfoldable pub mark_loop : Clock → ScanStore → List ActiveTask → Bool × ScanStore
mark_loop c s [] = (true, s)
mark_loop c s (x ∷ rest) =
    let (went_on, s') = mark_task c s x (judge c s.audits x) in
    if went_on then mark_loop c s' rest else (false, s')

-- A job that raised: its transaction is rolled back. What was announced and what was counted stays.
abbrev pub committed : ScanStore → Bool × ScanStore → Bool × ScanStore
committed s (true, s') = (true, s')
committed s (false, s') = (
  false,
  record s { tasks = record s.tasks { metrics = s'.tasks.metrics }; notices = s'.notices },
)

unfoldable pub mark_lost_tasks : Clock → ScanStore → Bool × ScanStore
mark_lost_tasks c s = committed s (mark_loop c s (active_tasks_with_nodes s.nodes s.tasks.rows))
