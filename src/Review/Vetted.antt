-- ===== src/Review/Vetted.antt =====
-- Tasks of the risky types between `create_task` (app/services/admin_tasks_service.py) and a node.
pub mod Handlers
pub mod History
use gpufleet.Prelude.{
  String, Text, Bool, true, false, ◌&&◌, ◌||◌, not, ◌≡◌, refl, sym, ap, subst, ◌∙◌, Option, none,
  some, List, [], ◌∷◌, ◌++◌, same, same_iff, same_refl, if◌then◌else◌, arith, Bool-cases,
  Option-cases, ◌⊎◌, inl, inr,
}
use gpufleet.Tasks.Status.{
  Status, pending, reviewing, rejected, review_expired, is_status, is_active, contains,
}
use gpufleet.Tasks.Table.{
  TaskRow, find_task, update_task, updated, find-update_self, find-update_other, find-update_none,
  KeepsId,
}
use gpufleet.Tasks.Transition.{Event, ok, TaskStore, Arguments, transition_task}
use gpufleet.Tasks.Transition.Diagram.{
  Edge, IsActive, is_claimed, is_running, is_cancel_requested, confirm, start, go_on, finish,
  withdraw, ask_to_stop, escalate, approve, reject, expire, overrun, lose,
}
use gpufleet.Tasks.Transition.Lifecycle.{Took, transition_task-Took, decided}
use gpufleet.Tasks.History.{Selected}
use gpufleet.Review.Create.{is_l2}

-- Where a task waits for its review, or failed it.
unfoldable pub held : Status → Bool
held s = contains (reviewing ∷ rejected ∷ review_expired ∷ []) s

unfoldable pub cleared : Option String → Bool
cleared none = false
cleared (some d) = same d "approve" || same d "human_approved"

-- A row that is of no risky type, or is held, or was approved.
unfoldable pub vetted : TaskRow → Bool
vetted r = not (is_l2 r.task_type) || (held r.status || cleared r.review_decision)

abbrev pub AllVetted : List TaskRow → Type 0
AllVetted rows = (k : String) (r : TaskRow) → find_task k rows ≡ some r → vetted r ≡ true

-- A change of status with the decision left as it is, away from where tasks are held.
pub leaving-vetted :
    (r r' : TaskRow)
    → r'.task_type ≡ r.task_type
    → r'.review_decision ≡ r.review_decision
    → held r.status ≡ false
    → vetted r ≡ true
    → vetted r' ≡ true
unfolding vetted
leaving-vetted r r' type decision free h = rw (type, decision) (ground (arith, h, free))

pub holding-vetted : (r' : TaskRow) → held r'.status ≡ true → vetted r' ≡ true
unfolding vetted
holding-vetted r' h = ground (arith, Bool-cases (is_l2 r'.task_type))

active_free : {s : Status} → IsActive s → held s ≡ false
unfolding held
active_free is_claimed = refl
active_free is_running = refl
active_free is_cancel_requested = refl

pub is_active_free : (s : Status) → is_active s ≡ true → held s ≡ false
unfolding held
is_active_free s h = ground arith

status_free : (r : TaskRow) (s : Status) → r.status ≡ s → held s ≡ false → held r.status ≡ false
status_free r s e h = rw e h

approved-vetted : (r' : TaskRow) → r'.review_decision ≡ some "human_approved" → vetted r' ≡ true
unfolding vetted cleared same
approved-vetted r' h =
    rw h (ground (arith, Bool-cases (is_l2 r'.task_type), Bool-cases (held r'.status)))

-- An event sent to a task of the diagram leaves a vetted row vetted.
Edge-vetted :
    (e : Event) (r r' : TaskRow) {t : Status}
    → Edge e r t
    → r'.status ≡ t
    → Selected e r
    → r'.task_type ≡ r.task_type
    → r'.review_decision ≡ decided e r
    → vetted r ≡ true
    → vetted r' ≡ true
unfolding decided held
Edge-vetted e r r' (confirm p) s sel type d h =
    leaving-vetted r r' type d (status_free r _ p refl) h
Edge-vetted e r r' (start p) s sel type d h = leaving-vetted r r' type d (status_free r _ p refl) h
Edge-vetted e r r' (go_on p) s sel type d h = leaving-vetted r r' type d (status_free r _ p refl) h
Edge-vetted e r r' (finish o p) s sel type d h = leaving-vetted r r' type d (active_free p) h
Edge-vetted e r r' (withdraw p) s sel type d h =
    leaving-vetted r r' type d (status_free r _ p refl) h
Edge-vetted e r r' (ask_to_stop p) s sel type d h = leaving-vetted r r' type d (active_free p) h
Edge-vetted e r r' (escalate p q) s sel type d h = holding-vetted r' (rw s refl)
Edge-vetted e r r' (approve p q) s sel type d h = approved-vetted r' d
Edge-vetted e r r' (reject p) s sel type d h = holding-vetted r' (rw s refl)
Edge-vetted e r r' (expire p) s sel type d h = holding-vetted r' (rw s refl)
Edge-vetted e r r' overrun s sel type d h =
    leaving-vetted r r' type d (is_active_free r.status sel) h
Edge-vetted e r r' lose s sel type d h = leaving-vetted r r' type d (is_active_free r.status sel) h

-- One row is written and no other.
pub written-AllVetted :
    (rows rows' : List TaskRow) (j : String) (r' : TaskRow)
    → AllVetted rows
    → find_task j rows' ≡ some r'
    → ((k : String) → same j k ≡ false → find_task k rows' ≡ find_task k rows)
    → vetted r' ≡ true
    → AllVetted rows'
written-AllVetted rows rows' j r' all at_j others h k x found = elim (Bool-cases (same j k)) [
  | inl hit ↦
      let at_k : find_task k rows' ≡ some r' =
        subst (λ i. find_task i rows' ≡ some r') ((same_iff j k).0 hit) at_j in
      let x_r : r' ≡ x = ground (arith, at_k) in subst (λ y. vetted y ≡ true) x_r h
  | inr miss ↦ all k x (sym (others k miss) ∙ found)
]

pub event-AllVetted :
    (s s' : TaskStore) (j : String) (e : Event) (a : Arguments) (r r' : TaskRow)
    → AllVetted s.rows
    → find_task j s.rows ≡ some r
    → Selected e r
    → transition_task s j e a ≡ ok (s', r')
    → AllVetted s'.rows
event-AllVetted s s' j e a r r' all found sel h =
    let took = transition_task-Took s j e a s' r' h in
    let same_row : r ≡ took.before = ground (arith, took.found) in
    written-AllVetted s.rows s'.rows j r' all took.stored took.others (
      Edge-vetted e took.before r' took.edge refl (subst (Selected e) same_row sel) took.same_type
        took.decision (all j took.before took.found))

-- An UPDATE that may only move rows which are not held.
pub update-AllVetted :
    (rows : List TaskRow) (j : String) (guard : TaskRow → Bool) (f : TaskRow → TaskRow)
    → KeepsId f
    → ((r : TaskRow)
        → find_task j rows ≡ some r
        → guard r ≡ true
        → vetted r ≡ true
        → vetted (f r) ≡ true)
    → AllVetted rows
    → AllVetted (update_task j guard f rows)
update-AllVetted rows j guard f keeps moves all k x found = elim (Bool-cases (same j k)) [
  | inr miss ↦ all k x (sym (find-update_other j k guard f keeps rows miss) ∙ found)
  | inl hit ↦
      let at_j : find_task j (update_task j guard f rows) ≡ some x =
        subst (λ i. find_task i (update_task j guard f rows) ≡ some x) (sym ((same_iff j k).0 hit))
          found in
      elim (Option-cases (find_task j rows)) [
        | inl missing ↦ absurd (ground (arith, find-update_none j j guard f keeps rows missing))
        | inr (r, at) ↦
            let x_r : updated guard f r ≡ x =
              ground (arith, find-update_self j guard f keeps rows r at) in
            subst (λ y. vetted y ≡ true) x_r
              (elim (Bool-cases (guard r)) [
                | inl pass ↦ rw pass (moves r at pass (all j r at))
                | inr stay ↦ rw stay (all j r at)
              ])
      ]
]
