-- ===== src/Tasks/Reports/Agree.antt =====
-- The tables `tasks` and `task_attempts` side by side, under app/services/node_runtime_service.py.
use gpufleet.Prelude.{
  ℕ, String, Text, Bool, true, false, ◌≡◌, refl, ap, ap₂, ◌∙◌, Option, none, some, List, [], ◌∷◌,
  ◌++◌, same, same_refl, ltb, ◌==◌, update_where, arith, if◌then◌else◌, Option-cases, inl, inr,
  Bool-cases, map, ◌&&◌,
}
use gpufleet.Tasks.Status.{Status}
use gpufleet.Tasks.Table.{TaskRow, find_task}
use gpufleet.Tasks.Transition.{report, ok, raise, Outcome, TaskStore, transition_task}
use gpufleet.Tasks.Transition.Diagram.{Edge, confirm, start, go_on, finish}
use gpufleet.Tasks.Transition.Lifecycle.{transition_task-Took}
use gpufleet.Tasks.Claim.{task_of_node}
use gpufleet.Tasks.Reports.{
  AttemptRow, Attempts, AttemptReport, latest_attempt, newer, new_attempt, set_attempt,
  upsert_task_attempt, ReportStore, reported, NodeTaskEvent, event_arguments, event_attempt,
  finish_event, task_events,
}

-- The row of the task and its latest attempt, in the same status.
pub record Agree (s : ReportStore) (j : String) (status : Status) : Type 0 where
  pub row : TaskRow
  pub found : find_task j s.tasks.rows ≡ some row
  pub attempt : AttemptRow
  pub latest : latest_attempt j s.attempts.rows ≡ some attempt
  pub row_status : row.status ≡ status
  pub attempt_status : attempt.status ≡ status

-- A change of attempts that leaves both keys alone.
record KeepsKeys (g : AttemptRow → AttemptRow) : Type 0 where
  id : (r : AttemptRow) → (g r).id ≡ r.id
  task_id : (r : AttemptRow) → (g r).task_id ≡ r.task_id

abbrev option_map : (AttemptRow → AttemptRow) → Option AttemptRow → Option AttemptRow
option_map g none = none
option_map g (some r) = some (g r)

if-map :
    (g : AttemptRow → AttemptRow) (b : Bool) (o o' : Option AttemptRow)
    → (if b then option_map g o else option_map g o') ≡ option_map g (if b then o else o')
if-map g true o o' = refl
if-map g false o o' = refl

newer-map :
    (j : String) (g : AttemptRow → AttemptRow)
    → KeepsKeys g
    → (r : AttemptRow) (o : Option AttemptRow)
    → newer j (g r) (option_map g o) ≡ option_map g (newer j r o)
unfolding newer
newer-map j g keeps r none =
    ap (λ t. if same t j then some (g r) else none) (keeps.task_id r)
    ∙ if-map g (same r.task_id j) (some r) none
newer-map j g keeps r (some x) =
    ap (λ t. if same t j && ltb (g x).id (g r).id then some (g r) else some (g x)) (keeps.task_id r)
    ∙ ap₂ (λ m n. if same r.task_id j && ltb m n then some (g r) else some (g x)) (keeps.id x)
        (keeps.id r)
    ∙ if-map g (same r.task_id j && ltb x.id r.id) (some r) (some x)

latest-map :
    (j : String) (g : AttemptRow → AttemptRow)
    → KeepsKeys g
    → (rows : List AttemptRow)
    → latest_attempt j (map g rows) ≡ option_map g (latest_attempt j rows)
unfolding latest_attempt
latest-map j g keeps [] = refl
latest-map j g keeps (x ∷ rows) =
    ap (newer j (g x)) (latest-map j g keeps rows) ∙ newer-map j g keeps x (latest_attempt j rows)

abbrev changed : (AttemptRow → Bool) → AttemptReport → AttemptRow → AttemptRow
changed p a r = if p r then set_attempt a r else r

changed-KeepsKeys : (p : AttemptRow → Bool) (a : AttemptReport) → KeepsKeys (changed p a)
unfolding set_attempt
changed-KeepsKeys p a = record {
  id = λ r. elim (Bool-cases (p r)) [ inl e ↦ rw e refl | inr e ↦ rw e refl ];
  task_id = λ r. elim (Bool-cases (p r)) [ inl e ↦ rw e refl | inr e ↦ rw e refl ];
}

update-map :
    (p : AttemptRow → Bool) (a : AttemptReport) (rows : List AttemptRow)
    → update_where p (set_attempt a) rows ≡ map (changed p a) rows
update-map p a [] = refl
update-map p a (x ∷ rows) = ap (λ t. changed p a x ∷ t) (update-map p a rows)

-- An UPDATE leaves the latest attempt the latest.
latest-update :
    (j : String) (p : AttemptRow → Bool) (a : AttemptReport) (rows : List AttemptRow)
    → latest_attempt j (update_where p (set_attempt a) rows)
      ≡ option_map (changed p a) (latest_attempt j rows)
latest-update j p a rows =
    ap (latest_attempt j) (update-map p a rows)
    ∙ latest-map j (changed p a) (changed-KeepsKeys p a) rows

newer-none : (j : String) (r : AttemptRow) (o : Option AttemptRow) → newer j r o ≡ none → o ≡ none
unfolding newer
newer-none j r none e = refl
newer-none j r (some x) e = elim (Bool-cases (same r.task_id j && ltb x.id r.id)) [
  | inl b ↦ absurd (ground arith)
  | inr b ↦ absurd (ground arith)
]

latest-append :
    (j : String) (rows : List AttemptRow) (r : AttemptRow)
    → latest_attempt j rows ≡ none
    → same r.task_id j ≡ true
    → latest_attempt j (rows ++ r ∷ []) ≡ some r
unfolding latest_attempt newer
latest-append j [] r e h = rw h refl
latest-append j (x ∷ rows) r e h =
    let none_left = newer-none j x (latest_attempt j rows) e in
    let away : same x.task_id j ≡ false = unfold newer in ground (arith, none_left, e) in
    rw (latest-append j rows r none_left h, away) refl

same_number : (n : ℕ) → (n == n) ≡ true
same_number n = ground arith

pub latest-upsert :
    (t : Attempts) (j node_id : String) (a : AttemptReport)
    → (x : AttemptRow) × (latest_attempt j (upsert_task_attempt t j node_id a).rows ≡ some x)
      × (x.status ≡ a.status_value)
unfolding upsert_task_attempt
latest-upsert t j node_id a = elim (Option-cases (latest_attempt j t.rows)) [
  | inl e ↦ (
    new_attempt t.next_id j node_id a,
    rw (e, upsert_task_attempt)
        (latest-append j t.rows (new_attempt t.next_id j node_id a) e
          (unfold new_attempt in same_refl j)),
    unfold new_attempt in refl,
  )
  | inr (x, e) ↦ (
    set_attempt a x,
    rw (e, upsert_task_attempt)
        (latest-update j (λ r. r.id == x.id) a t.rows
          ∙ ap (option_map (changed (λ r. r.id == x.id) a)) e
          ∙ ap some (rw (same_number x.id) refl)),
    unfold set_attempt in refl,
  )
]

reported_status : {t u : Status} {r : TaskRow} → Edge (report t) r u → u ≡ t
reported_status (confirm e) = refl
reported_status (start e) = refl
reported_status (go_on e) = refl
reported_status (finish o a) = refl

finish_event-Agree :
    (s : ReportStore) (node_id : String) (e : NodeTaskEvent) (now_iso : Text)
    (outcome : Outcome (TaskStore × TaskRow)) (status : Status) (s' : ReportStore)
    → transition_task s.tasks e.task_id (report e.event) (event_arguments now_iso) ≡ outcome
    → finish_event s node_id e outcome ≡ (reported status, s')
    → Agree s' e.task_id status
unfolding finish_event
finish_event-Agree s node_id e now_iso (raise error) status s' moved h = absurd (ground arith)
finish_event-Agree s node_id e now_iso (ok (tasks, row)) status s' moved h =
    let took =
      transition_task-Took s.tasks e.task_id (report e.event) (event_arguments now_iso) tasks row
        moved in
    let (x, latest, x_status) = latest-upsert s.attempts e.task_id node_id (event_attempt e row) in
    let same_status : e.event ≡ status = ground arith in
    record {
      row = row;
      found = ground (arith, h, took.stored);
      attempt = x;
      latest = ground (arith, h, latest);
      row_status = reported_status took.edge ∙ same_status;
      attempt_status = x_status ∙ same_status;
    }

-- An event that a node reports and that is accepted leaves the task and the latest of its attempts
-- in the status that the reply names.
pub task_events-Agree :
    (s : ReportStore) (node_id : String) (e : NodeTaskEvent) (now_iso : Text) (status : Status)
    (s' : ReportStore)
    → task_events s node_id e now_iso ≡ (reported status, s')
    → Agree s' e.task_id status
unfolding task_events
task_events-Agree s node_id e now_iso status s' h =
    elim (Option-cases (task_of_node node_id e.task_id s.tasks.rows)) [
      | inl missing ↦ absurd (ground arith)
      | inr (row, has) ↦
          finish_event-Agree s node_id e now_iso
            (transition_task s.tasks e.task_id (report e.event) (event_arguments now_iso)) status s'
            refl (ground arith)
    ]
