-- ===== src/Tasks/History/Ended.antt =====
-- The row of an ended task under the statements of app/services/task_state.py and app/db.py.
use gpufleet.Prelude.{
  String, Text, Bool, true, false, ◌≡◌, refl, ap, not, ◌∙◌, subst, Option, some, List, [], ◌∷◌,
  same, select, same_iff, arith, Bool-cases, Option-cases, inl, inr,
}
use gpufleet.Tasks.Status.{Status, is_terminal, is_active}
use gpufleet.Tasks.Table.{
  TaskRow, find_task, update_task, find-update_unselected, find-update_other, find-append,
}
use gpufleet.Tasks.Transition.{Event, ok, TaskStore, Arguments, transition_task, no_guard}
use gpufleet.Tasks.Transition.Diagram.{
  Edge, confirm, start, go_on, finish, withdraw, ask_to_stop, escalate, approve, reject, expire,
  overrun, lose, IsActive, is_claimed, is_running, is_cancel_requested,
}
use gpufleet.Tasks.Transition.Lifecycle.{transition_task-Took}
use gpufleet.Tasks.Finalize.{
  FinalResult, open_for_result, set_result, finalize_task_result, finalize_rows,
}
use gpufleet.Tasks.Claim.{
  is_pending, next_task, set_claimed, set_synced, claim_next_task_for_node,
  sync_reported_active_task, hand_out, given,
}
use gpufleet.Tasks.History.{
  Selected, Step, create, event, result, heartbeat, rolled_back, delete_node_tasks, Life, begin,
  step, delete_node,
}

active_not_terminal : (s : Status) → is_active s ≡ true → is_terminal s ≡ true → ⊥
active_not_terminal s h k = ground arith

closed_for_result : (x : TaskRow) → is_terminal x.status ≡ true → open_for_result x ≡ false
closed_for_result x h = ground arith

IsActive-not_terminal : {s : Status} → IsActive s → is_terminal s ≡ false
IsActive-not_terminal is_claimed = refl
IsActive-not_terminal is_running = refl
IsActive-not_terminal is_cancel_requested = refl

-- No edge leaves an ended task.
ended-no-Edge :
    (e : Event) {r : TaskRow} {t : Status}
    → is_terminal r.status ≡ true
    → Selected e r
    → Edge e r t
    → ⊥
ended-no-Edge e h sel (confirm p) = ground arith
ended-no-Edge e h sel (start p) = ground arith
ended-no-Edge e h sel (go_on p) = ground arith
ended-no-Edge e h sel (finish o p) = ground (arith, IsActive-not_terminal p)
ended-no-Edge e h sel (withdraw p) = ground arith
ended-no-Edge e h sel (ask_to_stop p) = ground (arith, IsActive-not_terminal p)
ended-no-Edge e h sel (escalate p q) = ground arith
ended-no-Edge e h sel (approve p q) = ground arith
ended-no-Edge e h sel (reject p) = ground arith
ended-no-Edge e h sel (expire p) = ground arith
ended-no-Edge e {r} h sel overrun = active_not_terminal r.status sel h
ended-no-Edge e {r} h sel lose = active_not_terminal r.status sel h

module _ (k : String) (r : TaskRow) (ended : is_terminal r.status ≡ true) where
  event_keeps :
      (s s' : TaskStore) (j : String) (e : Event) (a : Arguments) (x x' : TaskRow)
      → find_task k s.rows ≡ some r
      → find_task j s.rows ≡ some x
      → Selected e x
      → transition_task s j e a ≡ ok (s', x')
      → find_task k s'.rows ≡ some r
  event_keeps s s' j e a x x' found at_j sel h =
      let took = transition_task-Took s j e a s' x' h in
      elim (Bool-cases (same j k)) [
        | inl hit ↦
            let j_k : j ≡ k = (same_iff j k).0 hit in
            let x_r : x ≡ r = ground (arith, j_k) in
            let before_r : took.before ≡ r = ground (arith, j_k, took.found) in
            absurd (
              ended-no-Edge e ended (subst (Selected e) x_r sel)
                (subst (λ z. Edge e z x'.status) before_r took.edge))
        | inr miss ↦ took.others k miss ∙ found
      ]

  result_keeps :
      (s s' : TaskStore) (j : String) (f : FinalResult) (x : TaskRow) (d : Bool)
      → find_task k s.rows ≡ some r
      → finalize_task_result s j f ≡ ok (s', x, d)
      → find_task k s'.rows ≡ some r
  result_keeps s s' j f x d found h = rw (finalize_rows s j f (s', x, d) h) (
      find-update_unselected j k open_for_result (set_result f) (unfold set_result in λ y. refl)
        s.rows r found (closed_for_result r ended))

  claim_keeps :
      (s : TaskStore) (node_id : String) (now : Text)
      → find_task k s.rows ≡ some r
      → find_task k (claim_next_task_for_node s node_id now).0.rows ≡ some r
  unfolding claim_next_task_for_node
  claim_keeps s node_id now found = elim (Option-cases (next_task node_id s.rows)) [
    | inl e ↦ ground arith
    | inr (t, e) ↦ ground (
      arith,
      find-update_unselected t.task_id k is_pending (set_claimed now)
          (unfold set_claimed in λ y. refl) s.rows r found,
    )
  ]

  -- A task that is reported as active is touched only while it is pending.
  sync_update :
      (j : String) (x : TaskRow) (rows : List TaskRow) (now : Text)
      → find_task k rows ≡ some r
      → find_task j rows ≡ some x
      → is_pending x ≡ true
      → find_task k (update_task j no_guard (set_synced now) rows) ≡ some r
  sync_update j x rows now found at_j pend = elim (Bool-cases (same j k)) [
    | inl hit ↦ absurd (ground (arith, (same_iff j k).0 hit))
    | inr miss ↦
        find-update_other j k no_guard (set_synced now) (unfold set_synced in λ y. refl) rows miss
        ∙ found
  ]

  sync_keeps :
      (s : TaskStore) (node_id : String) (active : Option String) (now : Text)
      → find_task k s.rows ≡ some r
      → find_task k (sync_reported_active_task s node_id active now).0.rows ≡ some r
  unfolding sync_reported_active_task
  sync_keeps s node_id active now found = elim (Option-cases (given active)) [
    | inl e ↦ ground arith
    | inr (j, e) ↦ elim (Option-cases (find_task j s.rows)) [
      | inl missing ↦ ground arith
      | inr (x, at_j) ↦ ground (arith, sync_update j x s.rows now found at_j)
    ]
  ]

  heartbeat_keeps :
      (s s' : TaskStore) (node_id : String) (active : Option String) (now : Text)
      (handed : Option TaskRow)
      → find_task k s.rows ≡ some r
      → hand_out s node_id active now ≡ (s', handed)
      → find_task k s'.rows ≡ some r
  unfolding hand_out
  heartbeat_keeps s s' node_id active now handed found h = ground (
    arith,
    sync_keeps s node_id active now found,
    claim_keeps (sync_reported_active_task s node_id active now).0 node_id now,
  )

  Step-keeps :
      {s s' : TaskStore} → Step s s' → find_task k s.rows ≡ some r → find_task k s'.rows ≡ some r
  Step-keeps {s} (create x new fresh) found = find-append k s.rows _ r found
  Step-keeps {s} {s'} (event j e a x x' at_j sel h) found =
      event_keeps s s' j e a x x' found at_j sel h
  Step-keeps {s} {s'} (result j f x d h) found = result_keeps s s' j f x d found h
  Step-keeps {s} {s'} (heartbeat node_id active now handed h) found =
      heartbeat_keeps s s' node_id active now handed found h
  Step-keeps {s} (rolled_back metrics) found = found

  delete_keeps :
      (other : String) (rows : List TaskRow)
      → same r.node_id other ≡ false
      → find_task k rows ≡ some r
      → find_task k (select (λ x. not (same x.node_id other)) rows) ≡ some r
  unfolding find_task
  delete_keeps other [] away found = absurd (ground (arith, found))
  delete_keeps other (x ∷ rows) away found = elim (Bool-cases (same x.task_id k)) [
    | inl hit ↦
        let x_r : x ≡ r = ground (arith, hit, found) in
        let stays : same x.node_id other ≡ false = rw x_r away in rw (stays, hit) (ap some x_r)
    | inr miss ↦
        let rest : find_task k (select (λ y. not (same y.node_id other)) rows) ≡ some r =
          delete_keeps other rows away (ground (arith, miss, found)) in
        elim (Bool-cases (same x.node_id other)) [
          | inl gone ↦ rw gone rest
          | inr stays ↦ rw (stays, miss) rest
        ]
  ]

  Life-keeps :
      {s s' : TaskStore}
      → Life r.node_id s s'
      → find_task k s.rows ≡ some r
      → find_task k s'.rows ≡ some r
  unfolding delete_node_tasks
  Life-keeps begin found = found
  Life-keeps (step life one) found = Step-keeps one (Life-keeps life found)
  Life-keeps (delete_node {t} other away life) found =
      delete_keeps other t.rows away (Life-keeps life found)

-- Whatever nodes, administrators and the scanner do afterwards, in whatever order, the row of a task
-- that has ended stays as it is, as long as the node of the task is not deleted. Other nodes may be.
pub ended_forever :
    {s s' : TaskStore} (k : String) (r : TaskRow)
    → find_task k s.rows ≡ some r
    → is_terminal r.status ≡ true
    → Life r.node_id s s'
    → find_task k s'.rows ≡ some r
ended_forever k r found ended life = Life-keeps k r ended life found
