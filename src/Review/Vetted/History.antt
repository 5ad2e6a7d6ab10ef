-- ===== src/Review/Vetted/History.antt =====
-- Everything that writes the table `tasks`, administrators' handlers and nodes' requests, in any order.
use gpufleet.Prelude.{ℕ, String, Text, Bool, true, false, ◌≡◌, refl, Option, some, List, [], arith}
use gpufleet.Tasks.Table.{TaskRow, find_task}
use gpufleet.Tasks.Transition.{
  Event, cancel, review_escalate, review_reject, ok, TaskStore, Arguments, transition_task,
}
use gpufleet.Tasks.Finalize.{FinalResult, finalize_task_result}
use gpufleet.Tasks.Claim.{hand_out}
use gpufleet.Tasks.History.{Selected}
use gpufleet.Auth.Nodes.{NodeRow}
use gpufleet.Review.Create.{
  AdminStore, Admin, AdminTaskCreateRequest, CreateContext, created_task, create_task, is_l2,
  insert_audit, insert_review_audit, create_review_alert,
}
use gpufleet.Review.Decide.{
  DecideContext, done, with_tasks, cancel_task, escalate_review, approve_review, reject_review,
  mark_task_alerts_actioned, announce_escalation,
}
use gpufleet.Review.Cooldown.{approve_review-past}
use gpufleet.Review.Vetted.{held, cleared, vetted, AllVetted, event-AllVetted}
use gpufleet.Review.Vetted.Handlers.{
  decide-AllVetted, approve_now-AllVetted, create_task-AllVetted, hand_out-AllVetted,
  result-AllVetted,
}

pub data Turn : AdminStore → AdminStore → Type 0 where
  creates :
      {s s' : AdminStore} (c : CreateContext) (admin : Admin) (p : AdminTaskCreateRequest) (id : ℕ)
      (r : TaskRow)
      → create_task c admin p id s ≡ created_task s' r
      → Turn s s'
  cancels :
      {s s' : AdminStore} (c : DecideContext) (admin : Admin) (j : String) (r : TaskRow)
      → cancel_task c admin j s ≡ done s' r
      → Turn s s'
  escalates :
      {s s' : AdminStore} (c : DecideContext) (admin : Admin) (j : String) (r : TaskRow)
      → escalate_review c admin j s ≡ done s' r
      → Turn s s'
  approves :
      {s s' : AdminStore} (c : DecideContext) (admin : Admin) (j : String) (r : TaskRow)
      → approve_review c admin j s ≡ done s' r
      → Turn s s'
  rejects :
      {s s' : AdminStore} (c : DecideContext) (admin : Admin) (j : String) (r : TaskRow)
      → reject_review c admin j s ≡ done s' r
      → Turn s s'
  nodes_change : {s : AdminStore} (nodes : List NodeRow) → Turn s (record s { nodes = nodes })
  event :
      {s : AdminStore} {t : TaskStore} (j : String) (e : Event) (a : Arguments) (r r' : TaskRow)
      → find_task j s.tasks.rows ≡ some r
      → Selected e r
      → transition_task s.tasks j e a ≡ ok (t, r')
      → Turn s (with_tasks s t)
  result :
      {s : AdminStore} {t : TaskStore} (j : String) (f : FinalResult) (r' : TaskRow)
      (duplicate : Bool)
      → finalize_task_result s.tasks j f ≡ ok (t, r', duplicate)
      → Turn s (with_tasks s t)
  heartbeat :
      {s : AdminStore} {t : TaskStore} (node_id : String) (active : Option String) (now : Text)
      (handed : Option TaskRow)
      → hand_out s.tasks node_id active now ≡ (t, handed)
      → Turn s (with_tasks s t)

pub data Turns (s : AdminStore) : AdminStore → Type 0 where
  start : Turns s s
  then_turn : {t u : AdminStore} → Turns s t → Turn t u → Turns s u

Turn-AllVetted : {s s' : AdminStore} → Turn s s' → AllVetted s.tasks.rows → AllVetted s'.tasks.rows
unfolding cancel_task escalate_review reject_review insert_audit announce_escalation
    create_review_alert mark_task_alerts_actioned insert_review_audit
Turn-AllVetted {s} {s'} (creates c admin p id r h) all =
    create_task-AllVetted c admin p id s s' r h all
Turn-AllVetted {s} {s'} (cancels c admin j r h) all =
    decide-AllVetted s s' j cancel _ _ r (λ row saved x. refl) (λ x. tt) h all
Turn-AllVetted {s} {s'} (escalates c admin j r h) all =
    decide-AllVetted s s' j review_escalate _ _ r (λ row saved x. refl) (λ x. tt) h all
Turn-AllVetted {s} {s'} (approves c admin j r h) all =
    approve_now-AllVetted c admin j s s' r (approve_review-past c admin j s s' r h).3 all
Turn-AllVetted {s} {s'} (rejects c admin j r h) all =
    decide-AllVetted s s' j review_reject _ _ r (λ row saved x. refl) (λ x. tt) h all
Turn-AllVetted (nodes_change nodes) all = all
Turn-AllVetted {s} (event {t = t} j e a r r' found sel h) all =
    event-AllVetted s.tasks t j e a r r' all found sel h
Turn-AllVetted {s} (result {t = t} j f r' d h) all = result-AllVetted s.tasks t j f r' d h all
Turn-AllVetted {s} (heartbeat {t = t} node_id active now handed h) all =
    hand_out-AllVetted s.tasks t node_id active now handed h all

Turns-AllVetted :
    {s s' : AdminStore} → Turns s s' → AllVetted s.tasks.rows → AllVetted s'.tasks.rows
Turns-AllVetted start all = all
Turns-AllVetted (then_turn turns turn) all = Turn-AllVetted turn (Turns-AllVetted turns all)

none_AllVetted : AllVetted []
unfolding find_task
none_AllVetted k r h = absurd (ground arith)

-- From an empty table, whatever administrators, nodes and the scanner do in whatever order: a task of a
-- risky type that is neither waiting for its review nor refused by it was approved, by the model or by
-- a human. So no node is ever given one that was not.
pub no_unvetted_task :
    {s s' : AdminStore} (k : String) (r : TaskRow)
    → s.tasks.rows ≡ []
    → Turns s s'
    → find_task k s'.tasks.rows ≡ some r
    → is_l2 r.task_type ≡ true
    → held r.status ≡ false
    → cleared r.review_decision ≡ true
unfolding vetted
no_unvetted_task k r empty turns found risky free =
    ground (arith, Turns-AllVetted turns (rw empty none_AllVetted) k r found, risky, free)
