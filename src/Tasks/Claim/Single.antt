-- ===== src/Tasks/Claim/Single.antt =====
-- How many active tasks a node has, under the claims of app/db.py.
use gpufleet.Prelude.{
  ℕ, suc, ◌+◌, ◌≤◌, String, Text, Bool, true, false, ◌≡◌, refl, Option, none, some, List, [], ◌∷◌,
  same, same_iff, any, count_where, if◌then◌else◌, arith, Bool-cases, Option-cases, inl, inr,
}
use gpufleet.Tasks.Status.{claimed}
use gpufleet.Tasks.Table.{TaskRow, find_task, update_task, find-update_self, UniqueIds}
use gpufleet.Tasks.Table.OneRow.{OneRow, update-OneRow, count-OneRow}
use gpufleet.Tasks.Transition.{TaskStore, no_guard}
use gpufleet.Tasks.Claim.{
  active_on, is_pending, next_task, set_claimed, set_synced, given, task_of_node,
  claim_next_task_for_node, sync_reported_active_task, hand_out,
}
use gpufleet.Tasks.Claim.Oldest.{next_task-Chosen, Chosen}

abbrev pub active_tasks : String → List TaskRow → ℕ
active_tasks node_id rows = count_where (active_on node_id) rows

abbrev pub SingleActive : List TaskRow → Type 0
SingleActive rows = (node_id : String) → active_tasks node_id rows ≤ 1

count-any : (p : TaskRow → Bool) (rows : List TaskRow) → any p rows ≡ false → count_where p rows ≡ 0
count-any p [] h = refl
count-any p (r ∷ rows) h = ground (arith, count-any p rows)

-- One more task of the node `t.node_id` is active once `t` is written as claimed.
count_claimed :
    (n : String) (t t' : TaskRow) (xs ys : List TaskRow)
    → OneRow t t' xs ys
    → is_pending t ≡ true
    → t'.node_id ≡ t.node_id
    → t'.status ≡ claimed
    → active_tasks n ys ≡ active_tasks n xs + (if same t.node_id n then 1 else 0)
count_claimed n t t' xs ys one pend node now_claimed =
    ground (arith, count-OneRow (active_on n) one)

claim_written :
    (s : TaskStore) (node_id : String) (now : Text) (t : TaskRow)
    → UniqueIds s.rows
    → Chosen node_id s.rows t
    → OneRow t
        (set_claimed now t)
        s.rows
        (update_task t.task_id is_pending (set_claimed now) s.rows)
claim_written s node_id now t u c =
    update-OneRow t.task_id is_pending (set_claimed now) s.rows t u c.found
      (ground (arith, c.was_pending))

claim_single :
    (s : TaskStore) (node_id : String) (now : Text)
    → UniqueIds s.rows
    → SingleActive s.rows
    → SingleActive (claim_next_task_for_node s node_id now).0.rows
unfolding claim_next_task_for_node
claim_single s node_id now u single n = elim (Option-cases (next_task node_id s.rows)) [
  | inl e ↦ ground (arith, single n)
  | inr (t, e) ↦
      let c = next_task-Chosen node_id s.rows t u e in
      let count =
        count_claimed n t (set_claimed now t) s.rows _ (claim_written s node_id now t u c)
          (ground (arith, c.was_pending)) (unfold set_claimed in refl)
          (unfold set_claimed in refl) in
      let same_node : t.node_id ≡ node_id = (same_iff _ _).0 (ground (arith, c.was_pending)) in
      elim (Bool-cases (same t.node_id n)) [
        | inl here ↦
            let n_node : n ≡ node_id = ground (arith, same_node, (same_iff t.node_id n).0 here) in
            ground (arith, n_node, count, count-any (active_on node_id) s.rows c.node_idle)
        | inr away ↦ ground (arith, count, single n)
      ]
]

-- What the report of an active task leads to.
no_report :
    (s : TaskStore) (node_id : String) (active : Option String) (now : Text)
    → given active ≡ none
    → hand_out s node_id active now ≡ claim_next_task_for_node s node_id now
unfolding hand_out sync_reported_active_task
no_report s node_id active now e = ground arith

unknown_report :
    (s : TaskStore) (node_id : String) (active : Option String) (now : Text) (j : String)
    → given active ≡ some j
    → task_of_node node_id j s.rows ≡ none
    → hand_out s node_id active now ≡ claim_next_task_for_node s node_id now
unfolding hand_out sync_reported_active_task
unknown_report s node_id active now j e m = ground arith

settled_report :
    (s : TaskStore) (node_id : String) (active : Option String) (now : Text) (j : String)
    (x : TaskRow)
    → given active ≡ some j
    → task_of_node node_id j s.rows ≡ some x
    → is_pending x ≡ false
    → hand_out s node_id active now ≡ (s, none)
unfolding hand_out sync_reported_active_task
settled_report s node_id active now j x e m p = ground arith

-- A heartbeat gives no node a second task: if every node has at most one active task, and the task
-- that the node reports is not a pending one, every node has at most one afterwards.
pub heartbeat_single :
    (s : TaskStore) (node_id : String) (active : Option String) (now : Text)
    → UniqueIds s.rows
    → SingleActive s.rows
    → ((j : String) (x : TaskRow)
        → given active ≡ some j
        → task_of_node node_id j s.rows ≡ some x
        → is_pending x ≡ false)
    → SingleActive (hand_out s node_id active now).0.rows
heartbeat_single s node_id active now u single quiet = elim (Option-cases (given active)) [
  | inl e ↦ rw (no_report s node_id active now e) (claim_single s node_id now u single)
  | inr (j, e) ↦ elim (Option-cases (task_of_node node_id j s.rows)) [
    | inl missing ↦
        rw (unknown_report s node_id active now j e missing) (claim_single s node_id now u single)
    | inr (x, has) ↦ rw (settled_report s node_id active now j x e has (quiet j x e has)) single
  ]
]

believed_report :
    (s : TaskStore) (node_id : String) (active : Option String) (now : Text) (j : String)
    (x : TaskRow)
    → given active ≡ some j
    → find_task j s.rows ≡ some x
    → same x.node_id node_id ≡ true
    → is_pending x ≡ true
    → hand_out s node_id active now
      ≡ (record s { rows = update_task j no_guard (set_synced now) s.rows }, none)
unfolding hand_out sync_reported_active_task set_synced
believed_report s node_id active now j x e found on_node pend =
    ground (arith, find-update_self j no_guard (set_synced now) (λ y. refl) s.rows x found)

-- A node that reports one of its pending tasks has one more active task afterwards, however many it
-- had: the report is believed.
pub pending_report_adds :
    (s : TaskStore) (node_id : String) (active : Option String) (now : Text) (j : String)
    (x : TaskRow)
    → UniqueIds s.rows
    → given active ≡ some j
    → task_of_node node_id j s.rows ≡ some x
    → is_pending x ≡ true
    → active_tasks node_id (hand_out s node_id active now).0.rows
      ≡ suc (active_tasks node_id s.rows)
pending_report_adds s node_id active now j x u e has pend =
    let found : find_task j s.rows ≡ some x = ground arith in
    let on_node : same x.node_id node_id ≡ true = ground arith in
    let count =
      count_claimed node_id x (set_synced now x) s.rows _
        (update-OneRow j no_guard (set_synced now) s.rows x u found refl) pend
        (unfold set_synced in refl) (unfold set_synced in refl) in
    rw (believed_report s node_id active now j x e found on_node pend)
      (ground (arith, count, on_node))
