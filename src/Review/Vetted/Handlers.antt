-- ===== src/Review/Vetted/Handlers.antt =====
-- What each handler and each request of a node does to the rows of the table `tasks`.
use gpufleet.Prelude.{
  ℕ, String, Text, Bool, true, false, ◌||◌, ◌≡◌, refl, sym, ap, subst, ◌∙◌, Option, some, List, [],
  ◌∷◌, ◌++◌, same, if◌then◌else◌, arith, Bool-cases, Option-cases, inl, inr,
}
use gpufleet.Tasks.Status.{pending, reviewing, is_status}
use gpufleet.Tasks.Table.{TaskRow, find_task, update_task, find-append, find-append_missing}
use gpufleet.Tasks.Transition.{Event, review_approve, ok, TaskStore, Arguments, no_guard}
use gpufleet.Tasks.Finalize.{
  FinalResult, open_for_result, set_result, finalize_task_result, finalize_rows,
}
use gpufleet.Tasks.Claim.{
  is_pending, next_task, set_claimed, set_synced, claim_next_task_for_node,
  sync_reported_active_task, hand_out, given,
}
use gpufleet.Tasks.History.{Selected}
use gpufleet.Review.{approve, reject, uncertain, Judgement, review}
use gpufleet.Scanner.{find_node}
use gpufleet.Review.Create.{
  AdminStore, Admin, AdminTaskCreateRequest, CreateContext, created_task, create_task,
  store_new_task, check_target, new_task, gate, judged_gate, judgement_text, is_l2, is_approved,
  write_alert, write_review, insert_task, insert_audit, insert_review_audit, create_review_alert,
  count_created, Gate,
}
use gpufleet.Review.Decide.{
  DecideContext, done, decide, approve_now, approval, mark_task_alerts_actioned,
}
use gpufleet.Review.Cooldown.{decide-event}
use gpufleet.Review.Vetted.{
  held, cleared, vetted, AllVetted, leaving-vetted, is_active_free, event-AllVetted,
  update-AllVetted,
}

-- A handler that sends one event to one task, and writes nothing else into the table of tasks.
module _ (s s' : AdminStore) (j : String) (e : Event) (a : Arguments)
    (besides : TaskRow → TaskRow → AdminStore → AdminStore) (r : TaskRow)
    (keeps : (row saved : TaskRow) (x : AdminStore) → (besides row saved x).tasks ≡ x.tasks) where
  pub decide-AllVetted :
      ((x : TaskRow) → Selected e x)
      → decide s j e a besides ≡ done s' r
      → AllVetted s.tasks.rows
      → AllVetted s'.tasks.rows
  decide-AllVetted selected h all =
      let (row, found, moved, same_store) = decide-event s s' j e a besides r keeps h in
      event-AllVetted s.tasks s'.tasks j e a row r all found (selected row) moved

pub approve_now-AllVetted :
    (c : DecideContext) (admin : Admin) (j : String) (s s' : AdminStore) (r : TaskRow)
    → approve_now c admin j s ≡ done s' r
    → AllVetted s.tasks.rows
    → AllVetted s'.tasks.rows
unfolding approve_now approval insert_audit mark_task_alerts_actioned insert_review_audit
approve_now-AllVetted c admin j s s' r h all =
    decide-AllVetted s s' j review_approve _ _ r (λ row saved x. refl) (λ x. tt) h all

held_or_cleared :
    (j : Judgement)
    → (held (if is_approved j then pending else reviewing) || cleared (some (judgement_text j)))
      ≡ true
unfolding held cleared judgement_text same
held_or_cleared approve = refl
held_or_cleared reject = refl
held_or_cleared uncertain = refl

new_task-vetted :
    (c : CreateContext) (admin : Admin) (p : AdminTaskCreateRequest) (id : ℕ)
    → vetted (new_task c admin p (gate c p) id) ≡ true
unfolding new_task gate vetted held cleared judged_gate judgement_text same
new_task-vetted c admin p id = elim (Bool-cases (is_l2 p.type)) [
  | inr plain ↦ rw plain refl
  | inl risky ↦ elim (Bool-cases c.is_configured) [
    | inr bare ↦ rw (risky, bare) refl
    | inl asked ↦ rw (risky, asked) (held_or_cleared (review c.json_library c.stream).decision)
  ]
]

append-AllVetted :
    (rows : List TaskRow) (r : TaskRow)
    → AllVetted rows
    → vetted r ≡ true
    → AllVetted (rows ++ r ∷ [])
unfolding find_task
append-AllVetted rows r all h k x found = elim (Option-cases (find_task k rows)) [
  | inl missing ↦
      ground (arith, h, find-append_missing k rows (r ∷ []) missing, Bool-cases (same r.task_id k))
  | inr (y, at_y) ↦ ground (arith, all k y at_y, find-append k rows (r ∷ []) y at_y)
]

-- The rows of the task table are those of the INSERT.
write_alert-tasks :
    (c : CreateContext) (p : AdminTaskCreateRequest) (r : TaskRow) (s : AdminStore)
    → (write_alert c p r s).tasks ≡ s.tasks
unfolding write_alert create_review_alert
write_alert-tasks c p r s = elim (Bool-cases (is_status r.status reviewing)) [
  | inl h ↦ rw h refl
  | inr h ↦ rw h refl
]

write_review-tasks :
    (c : CreateContext) (r : TaskRow) (g : Gate) (s : AdminStore)
    → (write_review c r g s).tasks ≡ s.tasks
unfolding write_review insert_review_audit
write_review-tasks c r g s = elim (Option-cases g.review_decision) [
  | inl h ↦ rw (h, write_review) refl
  | inr (d, h) ↦ rw (h, write_review) refl
]

pub create_task-AllVetted :
    (c : CreateContext) (admin : Admin) (p : AdminTaskCreateRequest) (id : ℕ) (s s' : AdminStore)
    (r : TaskRow)
    → create_task c admin p id s ≡ created_task s' r
    → AllVetted s.tasks.rows
    → AllVetted s'.tasks.rows
unfolding create_task store_new_task count_created insert_audit insert_task
create_task-AllVetted c admin p id s s' r h all =
    let new = new_task c admin p (gate c p) id in
    elim (Option-cases (find_node p.node_id s.nodes)) [
      | inl e ↦ absurd (ground (arith, e, h))
      | inr (node, at_node) ↦ elim (Option-cases (check_target c node p)) [
        | inr (x, e) ↦ absurd (ground (arith, at_node, e, h))
        | inl free ↦ elim (Option-cases (find_task new.task_id s.tasks.rows)) [
          | inr (x, e) ↦ absurd (ground (arith, at_node, free, e, h))
          | inl fresh ↦
              let written =
                write_alert c p new (write_review c new (gate c p) (insert_task new s)) in
              let same_tasks : written.tasks ≡ (insert_task new s).tasks =
                write_alert-tasks c p new _ ∙ write_review-tasks c new (gate c p) _ in
              let same_rows : written.tasks.rows ≡ s'.tasks.rows =
                ground (arith, at_node, free, fresh, h) in
              subst AllVetted (ap (λ (x : TaskStore). x.rows) (sym same_tasks) ∙ same_rows)
                (append-AllVetted s.tasks.rows new all (new_task-vetted c admin p id))
        ]
      ]
    ]

pending_free : (r : TaskRow) → is_pending r ≡ true → held r.status ≡ false
unfolding held
pending_free r h = ground arith

claim-AllVetted :
    (s : TaskStore) (node_id : String) (now : Text)
    → AllVetted s.rows
    → AllVetted (claim_next_task_for_node s node_id now).0.rows
unfolding claim_next_task_for_node set_claimed
claim-AllVetted s node_id now all = elim (Option-cases (next_task node_id s.rows)) [
  | inl e ↦ rw (e, claim_next_task_for_node) all
  | inr (t, e) ↦
      rw (e, claim_next_task_for_node)
        (update-AllVetted s.rows t.task_id is_pending (set_claimed now) (λ y. refl)
          (λ r found pend v. leaving-vetted r (set_claimed now r) refl refl (pending_free r pend) v)
          all)
]

synced-AllVetted :
    (rows : List TaskRow) (j : String) (row : TaskRow) (now : Text)
    → find_task j rows ≡ some row
    → is_pending row ≡ true
    → AllVetted rows
    → AllVetted (update_task j no_guard (set_synced now) rows)
unfolding set_synced
synced-AllVetted rows j row now at_j pend =
    update-AllVetted rows j no_guard (set_synced now) (λ y. refl)
      (λ r found any_row v.
        leaving-vetted r (set_synced now r) refl refl
          (pending_free r (ground (arith, found, at_j, pend))) v)

sync-AllVetted :
    (s : TaskStore) (node_id : String) (active : Option String) (now : Text)
    → AllVetted s.rows
    → AllVetted (sync_reported_active_task s node_id active now).0.rows
unfolding sync_reported_active_task
sync-AllVetted s node_id active now all = elim (Option-cases (given active)) [
  | inl e ↦ rw (e, sync_reported_active_task) all
  | inr (j, e) ↦ elim (Option-cases (find_task j s.rows)) [
    | inl missing ↦ rw (e, missing, sync_reported_active_task) all
    | inr (x, at_j) ↦ elim (Bool-cases (same x.node_id node_id)) [
      | inr other ↦ rw (e, at_j, other, sync_reported_active_task) all
      | inl mine ↦ elim (Bool-cases (is_pending x)) [
        | inr busy ↦ rw (e, at_j, mine, busy, sync_reported_active_task) all
        | inl pend ↦
            rw (e, at_j, mine, pend, sync_reported_active_task)
              (synced-AllVetted s.rows j x now at_j pend all)
      ]
    ]
  ]
]

pub hand_out-AllVetted :
    (s t : TaskStore) (node_id : String) (active : Option String) (now : Text)
    (handed : Option TaskRow)
    → hand_out s node_id active now ≡ (t, handed)
    → AllVetted s.rows
    → AllVetted t.rows
unfolding hand_out
hand_out-AllVetted s t node_id active now handed h all =
    let synced = sync_reported_active_task s node_id active now in
    elim (Option-cases synced.1) [
      | inl idle ↦
          let same_table : (claim_next_task_for_node synced.0 node_id now).0 ≡ t =
            ground (arith, idle, h) in
          subst (λ (x : TaskStore). AllVetted x.rows) same_table
            (claim-AllVetted synced.0 node_id now (sync-AllVetted s node_id active now all))
      | inr (row, busy) ↦
          let same_table : synced.0 ≡ t = ground (arith, busy, h) in
          subst (λ (x : TaskStore). AllVetted x.rows) same_table
            (sync-AllVetted s node_id active now all)
    ]

pub result-AllVetted :
    (s t : TaskStore) (j : String) (f : FinalResult) (r' : TaskRow) (d : Bool)
    → finalize_task_result s j f ≡ ok (t, r', d)
    → AllVetted s.rows
    → AllVetted t.rows
unfolding set_result
result-AllVetted s t j f r' d h all = rw (finalize_rows s j f (t, r', d) h) (
    update-AllVetted s.rows j open_for_result (set_result f) (λ y. refl)
      (λ r found unlocked v.
        leaving-vetted r (set_result f r) refl refl
          (is_active_free r.status (ground (arith, unlocked))) v)
      all)
