-- ===== src/Review/Cooldown.antt =====
-- What the administrators' handlers of app/services/admin_tasks_service.py accept.
use gpufleet.Prelude.{
  ℕ, suc, List, [], ◌∷◌, length, length-append, any, same, update_where, ◌+◌, ◌≤◌, String, Text,
  Bool, true, false, ◌&&◌, ◌≡◌, ◌⊎◌, refl, sym, ap, ap₂, ◌∙◌, Option, none, some, inl, inr,
  Option-cases, Bool-cases, arith,
}
use gpufleet.Tasks.Status.{Status, pending, reviewing, is_status, is_status_sound}
use gpufleet.Tasks.Table.{TaskRow, find_task}
use gpufleet.Tasks.Transition.{
  Event, review_approve, TaskStateError, Outcome, ok, raise, TaskStore, Arguments, transition_task,
  at_stage_3,
}
use gpufleet.Tasks.Transition.Diagram.{Edge, approve}
use gpufleet.Tasks.Transition.Lifecycle.{transition_task-Took, decided}
use gpufleet.Audit.{AlertMessage}
use gpufleet.Scanner.Expire.{unread_of}
use gpufleet.Scanner.{Moment, absent, at_instant, unreadable, parse_utc_or_none, seconds}
use gpufleet.Review.Create.{AdminStore, Admin, insert_audit, insert_review_audit}
use gpufleet.Review.Decide.{
  DecideContext, done, decide, with_tasks, approve_review, approve_now, approval,
  mark_task_alerts_actioned, too_early, human_review_cooldown_sec,
}

Outcome-cases :
    (o : Outcome (TaskStore × TaskRow))
    → ((e : TaskStateError) × (o ≡ raise e)) ⊎ ((t : TaskStore) × (r : TaskRow) × (o ≡ ok (t, r)))
Outcome-cases (ok (t, r)) = inr (t, r, refl)
Outcome-cases (raise e) = inl (e, refl)

-- A handler that sends one event to one task, and writes nothing else into the table of tasks.
module _ (s s' : AdminStore) (j : String) (e : Event) (a : Arguments)
    (besides : TaskRow → TaskRow → AdminStore → AdminStore) (r : TaskRow)
    (keeps : (row saved : TaskRow) (x : AdminStore) → (besides row saved x).tasks ≡ x.tasks) where
  pub decide-event :
      decide s j e a besides ≡ done s' r
      → (row : TaskRow) × (find_task j s.tasks.rows ≡ some row)
        × (transition_task s.tasks j e a ≡ ok (s'.tasks, r))
        × (besides row r (with_tasks s s'.tasks) ≡ s')
  unfolding decide
  decide-event h = elim (Option-cases (find_task j s.tasks.rows)) [
    | inl missing ↦ absurd (ground (arith, missing, h))
    | inr (row, found) ↦ elim (Outcome-cases (transition_task s.tasks j e a)) [
      | inl (x, raised) ↦ absurd (ground (arith, found, raised, h))
      | inr (t, r', moved) ↦
          let same_row : r' ≡ r = ground (arith, found, moved, h) in
          let same_store : besides row r' (with_tasks s t) ≡ s' = ground (arith, found, moved, h) in
          let same_tasks : t ≡ s'.tasks =
            sym (keeps row r' (with_tasks s t)) ∙ ap (λ (x : AdminStore). x.tasks) same_store in
          (
            row,
            found,
            moved ∙ ap₂ (λ x y. ok (x, y)) same_tasks same_row,
            ap₂ (λ x y. besides row y (with_tasks s x)) (sym same_tasks) (sym same_row)
                ∙ same_store,
          )
    ]
  ]

Moment-cases : (m : Moment) → (m ≡ absent) ⊎ (((t : ℕ) × (m ≡ at_instant t)) ⊎ (m ≡ unreadable))
Moment-cases absent = inl refl
Moment-cases (at_instant t) = inr (inl (t, refl))
Moment-cases unreadable = inr (inr refl)

-- A review that a human has had in hand for the cooldown.
pub record Waited (c : DecideContext) (row : TaskRow) : Type 0 where
  pub under_review : row.status ≡ reviewing
  pub third_stage : row.review_stage ≡ some 3
  pub waited :
      (t : ℕ)
      → parse_utc_or_none c.fromisoformat row.review_started_at ≡ at_instant t
      → t + seconds human_review_cooldown_sec ≤ c.now

stage_3 : (o : Option ℕ) → at_stage_3 o ≡ true → o ≡ some 3
stage_3 none h = absurd (ground arith)
stage_3 (some n) h = ap some (ground arith)

module _ (c : DecideContext) (admin : Admin) (j : String) (s s' : AdminStore) (r : TaskRow)
    (h : approve_review c admin j s ≡ done s' r) where
  row-Waited :
      (row : TaskRow)
      → is_status row.status reviewing ≡ true
      → at_stage_3 row.review_stage ≡ true
      → ((t : ℕ)
          → parse_utc_or_none c.fromisoformat row.review_started_at ≡ at_instant t
          → t + seconds human_review_cooldown_sec ≤ c.now)
      → Waited c row
  row-Waited row a b w = record {
    under_review = is_status_sound _ _ a;
    third_stage = stage_3 row.review_stage b;
    waited = w;
  }

  past_checks :
      (row : TaskRow)
      → find_task j s.tasks.rows ≡ some row
      → is_status row.status reviewing ≡ true
      → at_stage_3 row.review_stage ≡ true
      → Waited c row × (approve_now c admin j s ≡ done s' r)
  unfolding approve_review too_early
  past_checks row found a b =
      let m = parse_utc_or_none c.fromisoformat row.review_started_at in
      elim (Moment-cases m) [
        | inl e ↦ (
          row-Waited row a b (λ t q. absurd (ground (arith, e, q))),
          ground (arith, found, a, b, e, h),
        )
        | inr (inl (t, e)) ↦
            let late : t + seconds human_review_cooldown_sec ≤ c.now =
              ground (arith, found, a, b, e, h) in
            (
              row-Waited row a b (λ u q. ground (arith, e, q, late)),
              ground (arith, found, a, b, e, h),
            )
        | inr (inr e) ↦ absurd (ground (arith, found, a, b, e, h))
      ]

  pub approve_review-past :
      (row : TaskRow) × (find_task j s.tasks.rows ≡ some row)
      × Waited c row
      × (approve_now c admin j s ≡ done s' r)
  unfolding approve_review
  approve_review-past = elim (Option-cases (find_task j s.tasks.rows)) [
    | inl missing ↦ absurd (ground (arith, missing, h))
    | inr (row, found) ↦
        let a : is_status row.status reviewing ≡ true = ground (arith, found, h) in
        let b : at_stage_3 row.review_stage ≡ true = ground (arith, found, h, a) in
        let (waited, now) = past_checks row found a b in (row, found, waited, now)
  ]

-- What an approval leaves: the task waits for its node, under the administrator's name.
pub record Approved (admin : Admin) (j : String) (s s' : AdminStore) (saved : TaskRow)
    : Type 0 where
  pub stored : find_task j s'.tasks.rows ≡ some saved
  pub now_pending : saved.status ≡ pending
  pub decision : saved.review_decision ≡ some "human_approved"
  pub others :
      (k : String) → same j k ≡ false → find_task k s'.tasks.rows ≡ find_task k s.tasks.rows
  pub recorded : length s'.reviews ≡ suc (length s.reviews)
  pub none_unread : any (unread_of j) s'.alerts ≡ false

never : (a b : Bool) → (a && (b && false)) ≡ false
never true true = refl
never true false = refl
never false b = refl

approve-Edge : {r : TaskRow} {t : Status} → Edge review_approve r t → t ≡ pending
approve-Edge (approve p q) = refl

actioned_read :
    (j : String) (now_iso : Text) (a : AlertMessage)
    → unread_of j (record a { status = "actioned"; actioned_at = some now_iso }) ≡ false
unfolding unread_of same
actioned_read j now_iso a = never (same a.target_type "task") (same a.target_id j)

actioned_unread :
    (j : String) (now_iso : Text) (alerts : List AlertMessage)
    → any (unread_of j) (
        update_where
          (unread_of j)
          (λ a. record a { status = "actioned"; actioned_at = some now_iso })
          alerts)
      ≡ false
actioned_unread j now_iso [] = refl
actioned_unread j now_iso (a ∷ alerts) = elim (Bool-cases (unread_of j a)) [
  | inl h ↦ rw (h, actioned_read j now_iso a) (actioned_unread j now_iso alerts)
  | inr h ↦ rw (h, h) (actioned_unread j now_iso alerts)
]

approve_now-Approved :
    (c : DecideContext) (admin : Admin) (j : String) (s s' : AdminStore) (r : TaskRow)
    → approve_now c admin j s ≡ done s' r
    → Approved admin j s s' r
unfolding approve_now approval insert_audit mark_task_alerts_actioned insert_review_audit decided
approve_now-Approved c admin j s s' r h =
    let (row, found, moved, same_store) =
      decide-event s s' j review_approve _ _ r (λ row saved x. refl) h in
    let took = transition_task-Took s.tasks j review_approve _ s'.tasks r moved in
    record {
      stored = took.stored;
      now_pending = approve-Edge took.edge;
      decision = took.decision;
      others = took.others;
      recorded =
          ap (λ (x : AdminStore). length x.reviews) (sym same_store)
          ∙ length-append s.reviews _
          ∙ omega arith;
      none_unread =
          ap (λ (x : AdminStore). any (unread_of j) x.alerts) (sym same_store)
          ∙ actioned_unread j c.now_iso s.alerts;
    }

-- An approval succeeds only for a task under review in the third stage, ten seconds after the review
-- began (where its time can be told), and then it is complete: the task is pending and approved by a
-- human, no other task is touched, the review is recorded, and no alert of the task is left unread.
pub approve_review-Approved :
    (c : DecideContext) (admin : Admin) (j : String) (s s' : AdminStore) (r : TaskRow)
    → approve_review c admin j s ≡ done s' r
    → ((row : TaskRow) × (find_task j s.tasks.rows ≡ some row) × Waited c row)
      × Approved admin j s s' r
approve_review-Approved c admin j s s' r h =
    let (row, found, waited, now) = approve_review-past c admin j s s' r h in
    ((row, found, waited), approve_now-Approved c admin j s s' r now)
