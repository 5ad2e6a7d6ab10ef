-- ===== src/Tasks/Reports/Repeated.antt =====
-- Final results, first and repeated, at `task_result` of app/services/node_runtime_service.py.
use gpufleet.Prelude.{String, Text, true, ◌≡◌, refl, ap, ◌∙◌, none, some, arith, same, ◌++◌}
use gpufleet.Tasks.Status.{is_terminal}
use gpufleet.Tasks.Table.{TaskRow, find_task, UniqueIds}
use gpufleet.Tasks.Claim.{task_of_node}
use gpufleet.Tasks.Finalize.{accepts_result, set_result, finalize_task_result}
use gpufleet.Tasks.Finalize.Once.{result_once}
use gpufleet.Tasks.Reports.{
  upsert_task_attempt, ReportStore, reported, duplicate, NodeTaskResult, final_result,
  result_attempt, failure_webhooks, finish_result, task_result,
}
use gpufleet.Tasks.Reports.Agree.{Agree, latest-upsert}

on_node :
    (s : ReportStore) (node_id j : String) (r : TaskRow)
    → find_task j s.tasks.rows ≡ some r
    → same r.node_id node_id ≡ true
    → task_of_node node_id j s.tasks.rows ≡ some r
on_node s node_id j r found here = ground (arith, found, here)

-- The first result of a node's open task is stored and answered with its status, the task and its
-- latest attempt then stand in that status, and a failure is announced once. Every later result of
-- the task is answered as a duplicate and changes nothing: no row, no attempt, no announcement.
pub task_result_once :
    (s : ReportStore) (node_id : String) (p : NodeTaskResult) (now_iso : Text) (r : TaskRow)
    → UniqueIds s.tasks.rows
    → find_task p.task_id s.tasks.rows ≡ some r
    → same r.node_id node_id ≡ true
    → accepts_result r.status ≡ true
    → r.result_locked_at ≡ none
    → is_terminal p.final_status ≡ true
    → (s' : ReportStore) × (task_result s node_id p now_iso ≡ (reported p.final_status, s'))
      × Agree s' p.task_id p.final_status
      × (s'.webhooks ≡ s.webhooks ++ failure_webhooks node_id p)
      × ((q : NodeTaskResult) (later : Text)
          → q.task_id ≡ p.task_id
          → task_result s' node_id q later ≡ (duplicate p.final_status, s'))
unfolding task_result finish_result
task_result_once s node_id p now_iso r u found here accepts unlocked ends =
    let f = final_result p r now_iso in
    let (tasks, st, again) = result_once s.tasks p.task_id f r u found accepts unlocked ends in
    let (x, latest, x_status) = latest-upsert s.attempts p.task_id node_id (result_attempt p f) in
    let s' : ReportStore = record s {
      tasks = tasks;
      attempts = upsert_task_attempt s.attempts p.task_id node_id (result_attempt p f);
      webhooks = s.webhooks ++ failure_webhooks node_id p;
    } in
    let ended : (set_result f r).status ≡ p.final_status = unfold set_result in refl in
    let still_here : same (set_result f r).node_id node_id ≡ true = unfold set_result in here in
    (
      s',
      rw (on_node s node_id p.task_id r found here, st.accepted, task_result) refl,
      record {
        row = set_result f r;
        found = st.stored;
        attempt = x;
        latest = latest;
        row_status = ended;
        attempt_status = x_status;
      },
      refl,
      λ q later same_task.
          rw
            (
              ap (λ j. task_of_node node_id j tasks.rows) same_task
                  ∙ on_node s' node_id p.task_id (set_result f r) st.stored still_here,
              ap (λ j. finalize_task_result tasks j (final_result q (set_result f r) later))
                    same_task
                  ∙ again (final_result q (set_result f r) later),
              task_result,
            )
            (unfold set_result in refl),
    )
