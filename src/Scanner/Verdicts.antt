-- ===== src/Scanner/Verdicts.antt =====
-- The loop of `_mark_lost_tasks` (app/background.py) as one pass over the table.
use gpufleet.Prelude.{
  String, Bool, true, false, ◌≡◌, refl, none, some, List, [], ◌∷◌, ◌++◌, if◌then◌else◌, arith,
}
use gpufleet.Tasks.Status.{is_active}
use gpufleet.Tasks.Table.{TaskRow, find_task, UniqueIds}
use gpufleet.Tasks.History.{Reach}
use gpufleet.Auth.Nodes.{NodeRow}
use gpufleet.Audit.{AuditEvent, Notice, latest_action}
use gpufleet.Scanner.{
  Clock, ScanStore, ActiveTask, find_node, Verdict, keep, value_error, judge, judge_cancel,
  latest_cancel_requested_at, measure,
}
use gpufleet.Scanner.OneTask.{settled, notices_of, audits_of}

abbrev pub with_node : TaskRow → NodeRow → ActiveTask
with_node t n = record {
  task = t;
  last_seen_at = n.last_seen_at;
  heartbeat_interval_sec = n.heartbeat_interval_sec;
}

-- The verdict on a row of the table: an inactive task is kept, and so is one without a node.
unfoldable pub verdict : Clock → List AuditEvent → List NodeRow → TaskRow → Verdict
verdict c audits nodes r =
    if is_active r.status
    then elim (find_node r.node_id nodes) [ none ↦ keep | some n ↦ judge c audits (with_node r n) ]
    else keep

unfoldable pub is_value_error : Verdict → Bool
is_value_error value_error = true
is_value_error _ = false

unfoldable pub unreadable_row : Clock → List AuditEvent → List NodeRow → TaskRow → Bool
unreadable_row c audits nodes r = is_value_error (verdict c audits nodes r)

unfoldable pub row_notices : Clock → List AuditEvent → List NodeRow → TaskRow → List Notice
row_notices c audits nodes r = elim (find_node r.node_id nodes) [
  | none ↦ []
  | some n ↦ notices_of (measure c (with_node r n) (verdict c audits nodes r))
]

-- The notices of a table, in its order.
unfoldable pub all_notices : Clock → List AuditEvent → List NodeRow → List TaskRow → List Notice
all_notices c audits nodes [] = []
all_notices c audits nodes (r ∷ rows) =
    row_notices c audits nodes r ++ all_notices c audits nodes rows

unfoldable pub row_audits : Clock → List AuditEvent → List NodeRow → TaskRow → List AuditEvent
row_audits c audits nodes r = elim (find_node r.node_id nodes) [
  | none ↦ []
  | some n ↦ audits_of (measure c (with_node r n) (verdict c audits nodes r))
]

unfoldable pub all_audits : Clock → List AuditEvent → List NodeRow → List TaskRow → List AuditEvent
all_audits c audits nodes [] = []
all_audits c audits nodes (r ∷ rows) = row_audits c audits nodes r ++ all_audits c audits nodes rows

abbrev pub SameCancels : List AuditEvent → List AuditEvent → Type 0
SameCancels xs ys =
    (j : String) → latest_action "cancel_task" j xs ≡ latest_action "cancel_task" j ys

moment-SameCancels :
    (c : Clock) (xs ys : List AuditEvent) (j : String)
    → SameCancels xs ys
    → latest_cancel_requested_at c.fromisoformat xs j
      ≡ latest_cancel_requested_at c.fromisoformat ys j
unfolding latest_cancel_requested_at
moment-SameCancels c xs ys j h = rw (h j, latest_cancel_requested_at) refl

judge-cancel_same :
    (c : Clock) (xs ys : List AuditEvent) (x : ActiveTask)
    → SameCancels xs ys
    → judge_cancel c xs x ≡ judge_cancel c ys x
unfolding judge_cancel
judge-cancel_same c xs ys x h = ground (arith, moment-SameCancels c xs ys x.task.task_id h)

pub judge-SameCancels :
    (c : Clock) (xs ys : List AuditEvent) (x : ActiveTask)
    → SameCancels xs ys
    → judge c xs x ≡ judge c ys x
unfolding judge
judge-SameCancels c xs ys x h = ground (arith, judge-cancel_same c xs ys x h)

-- What the loop over the rows `rs` does to the store.
pub record Passed (c : Clock) (audits : List AuditEvent) (nodes : List NodeRow) (rs : List TaskRow)
    (s s' : ScanStore) : Type 0 where
  pub each :
      (k : String) (r : TaskRow)
      → find_task k rs ≡ some r
      → find_task k s'.tasks.rows ≡ some (settled c.now_iso (verdict c audits nodes r) r)
  pub others :
      (k : String) → find_task k rs ≡ none → find_task k s'.tasks.rows ≡ find_task k s.tasks.rows
  pub told : s'.notices ≡ s.notices ++ all_notices c audits nodes rs
  pub noted : s'.audits ≡ s.audits ++ all_audits c audits nodes rs
  pub reach : Reach s.tasks s'.tasks
  pub unique : UniqueIds s.tasks.rows → UniqueIds s'.tasks.rows
