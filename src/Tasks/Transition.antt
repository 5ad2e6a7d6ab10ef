-- ===== src/Tasks/Transition.antt =====
-- app/services/task_state.py: `transition_task`.
-- An event that is named like a status is `report` of it. A raise leaves no state: the connection's
-- context manager rolls back what was written.
pub mod Diagram
pub mod Lifecycle
pub mod Accepts
pub mod Background
use gpufleet.Prelude.{
  ℕ, String, Text, Bool, true, false, ◌||◌, not, ◌≡◌, ◌⊎◌, inl, inr, Option-cases, Option, none,
  some, List, ◌++◌, [], ◌==◌, same, if◌then◌else◌, or_text, coalesce,
}
use gpufleet.Tasks.Status.{
  Status, pending, reviewing, running, cancel_requested, timeout, cancelled, lost, rejected,
  review_expired, is_status, is_active, is_terminal, contains, task_event_transitions,
}
use gpufleet.Tasks.Table.{TaskRow, find_task, update_task}
use gpufleet.Tasks.Metrics.{TaskMetric, record_task_transition_metrics}

pub data Event : Type 0 where
  report : Status → Event
  cancel : Event
  review_escalate review_approve review_reject review_expire : Event
  background_timeout background_lost : Event
  unknown : String → Event

pub data TaskStateError : Type 0 where
  task_not_found : TaskStateError
  invalid_transition : Status → Status → TaskStateError
  already_terminal cannot_be_cancelled : TaskStateError
  not_under_review already_in_human_review not_awaiting_approval : TaskStateError
  unsupported_event : TaskStateError
  cannot_accept_result : Status → TaskStateError

pub data Outcome {ℓ} (A : Type ℓ) : Type ℓ where
  ok : A → Outcome A
  raise : TaskStateError → Outcome A

infixl 5 ◌>>=◌
abbrev pub ◌>>=◌ {ℓ κ} : {A : Type ℓ} {B : Type κ} → Outcome A → (A → Outcome B) → Outcome B
ok a >>= f = f a
raise e >>= f = raise e

unfoldable pub refuse_if {ℓ} : {A : Type ℓ} → Bool → TaskStateError → Outcome A → Outcome A
refuse_if b e rest = if b then raise e else rest

-- The table with the metrics recorded so far.
pub record TaskStore : Type 0 where
  pub rows : List TaskRow
  pub metrics : List TaskMetric

-- The keyword arguments of `transition_task`.
pub record Arguments : Type 0 where
  pub now_iso : Text
  pub started_at : Option Text
  pub finished_at : Option Text
  pub review_admin_id : Option ℕ
  pub danger_level : Option String

abbrev pub at_stage_3 : Option ℕ → Bool
at_stage_3 none = false
at_stage_3 (some n) = n == 3

abbrev pub no_guard : TaskRow → Bool
no_guard r = true

abbrev pub under_review : TaskRow → Bool
under_review r = is_status r.status reviewing

-- `row["started_at"]`, or at the first time the value for it.
abbrev pub keep_first : Option Text → Bool → Text → Option Text
keep_first (some t) due new = some t
keep_first none due new = if due then some new else none

-- Python's `danger_level or "human_approved"`; then COALESCE with a text that is not NULL.
abbrev pub or_string : Option String → String → String
or_string none d = d
or_string (some s) d = if same s "" then d else s

unfoldable pub get_task_row : TaskStore → String → Outcome TaskRow
get_task_row s task_id = elim (find_task task_id s.rows) [
  | none ↦ raise task_not_found
  | some r ↦ ok r
]

pub get_task_row_cases :
    (s : TaskStore) (j : String)
    → ((e : TaskStateError) × (get_task_row s j ≡ raise e))
      ⊎ ((r : TaskRow) × (get_task_row s j ≡ ok r))
unfolding get_task_row
get_task_row_cases s j = elim (Option-cases (find_task j s.rows)) [
  | inl missing ↦ inl (task_not_found, rw (missing, get_task_row))
  | inr (r, found) ↦ inr (r, rw (found, get_task_row))
]

-- The UPDATE of a branch with its metrics, and the row read back.
unfoldable pub execute :
    TaskStore
    → String
    → (TaskRow → Bool)
    → (TaskRow → TaskRow)
    → List TaskMetric
    → Outcome (TaskStore × TaskRow)
execute s task_id guard f ms =
    let s' = record s { rows = update_task task_id guard f s.rows; metrics = s.metrics ++ ms } in
    get_task_row s' task_id >>= λ r. ok (s', r)

abbrev pub observed : Option Text → Text → Text
observed none now = now
observed (some t) now = or_text (some t) now

unfoldable pub set_reported : Status → TaskRow → Arguments → TaskRow → TaskRow
set_reported target row a r = record r {
  status = target;
  started_at =
      keep_first row.started_at (is_status target running) (or_text a.started_at a.now_iso);
  finished_at = keep_first row.finished_at (is_terminal target) (or_text a.finished_at a.now_iso);
}

on_report :
    TaskStore → String → TaskRow → Status → Arguments → List Status → Outcome (TaskStore × TaskRow)
on_report s task_id row target a sources =
    if not (contains sources row.status)
    then raise (invalid_transition row.status target)
    else execute s task_id no_guard (set_reported target row a) (
        record_task_transition_metrics row target
          (observed (set_reported target row a row).finished_at a.now_iso))

unfoldable pub set_finished : Status → Arguments → TaskRow → TaskRow
set_finished target a r = record r {
  status = target;
  finished_at = some (or_text a.finished_at a.now_iso);
}

unfoldable pub set_cancel_requested : Arguments → TaskRow → TaskRow
set_cancel_requested a r = record r {
  status = cancel_requested;
  finished_at = coalesce a.finished_at r.finished_at;
}

unfoldable pub set_escalated : Arguments → TaskRow → TaskRow
set_escalated a r = record r {
  review_stage = some 3;
  review_decision = some "pending_human";
  review_started_at = some a.now_iso;
  review_finished_at = none;
}

unfoldable pub set_approved : Arguments → TaskRow → TaskRow
set_approved a r = record r {
  status = pending;
  review_decision = some "human_approved";
  danger_level = or_string a.danger_level "human_approved";
  review_admin_id = a.review_admin_id;
  review_finished_at = some a.now_iso;
}

unfoldable pub set_rejected : Arguments → TaskRow → TaskRow
set_rejected a r = record r {
  status = rejected;
  review_decision = some "human_rejected";
  review_admin_id = a.review_admin_id;
  review_finished_at = some a.now_iso;
}

unfoldable pub set_review_expired : Arguments → TaskRow → TaskRow
set_review_expired a r = record r {
  status = review_expired;
  review_decision = some "expired";
  review_finished_at = some a.now_iso;
}

on_background : TaskStore → String → TaskRow → Status → Arguments → Outcome (TaskStore × TaskRow)
on_background s task_id row target a =
    execute s task_id no_guard (set_finished target a)
      (record_task_transition_metrics row target (or_text a.finished_at a.now_iso))

-- The branches of `transition_task`, in its order.
dispatch : TaskStore → String → TaskRow → Event → Arguments → Outcome (TaskStore × TaskRow)
unfolding on_report on_background
dispatch s task_id row (report target) a = elim (task_event_transitions target) [
  | none ↦ raise unsupported_event
  | some sources ↦ on_report s task_id row target a sources
]
dispatch s task_id row cancel a =
    if is_terminal row.status
    then raise already_terminal
    else if is_status row.status pending
    then execute s task_id no_guard (set_finished cancelled a)
        (record_task_transition_metrics row cancelled (or_text a.finished_at a.now_iso))
    else if is_active row.status
    then execute s task_id no_guard (set_cancel_requested a) []
    else raise cannot_be_cancelled
dispatch s task_id row review_escalate a =
    if not (under_review row)
    then raise not_under_review
    else if at_stage_3 row.review_stage
    then raise already_in_human_review
    else execute s task_id no_guard (set_escalated a) []
dispatch s task_id row review_approve a =
    if not (under_review row) || not (at_stage_3 row.review_stage)
    then raise not_awaiting_approval
    else execute s task_id under_review (set_approved a) []
dispatch s task_id row review_reject a =
    if not (under_review row)
    then raise not_under_review
    else execute s task_id under_review (set_rejected a)
        (record_task_transition_metrics row rejected a.now_iso)
dispatch s task_id row review_expire a =
    if not (under_review row)
    then raise not_under_review
    else execute s task_id under_review (set_review_expired a)
        (record_task_transition_metrics row review_expired a.now_iso)
dispatch s task_id row background_timeout a = on_background s task_id row timeout a
dispatch s task_id row background_lost a = on_background s task_id row lost a
dispatch s task_id row (unknown e) a = raise unsupported_event

unfoldable pub transition_task :
    TaskStore → String → Event → Arguments → Outcome (TaskStore × TaskRow)
unfolding dispatch
transition_task s task_id event a = get_task_row s task_id >>= λ row. dispatch s task_id row event a
