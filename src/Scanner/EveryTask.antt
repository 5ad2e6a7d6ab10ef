-- ===== src/Scanner/EveryTask.antt =====
-- From the loop of `_mark_lost_tasks` (app/background.py) to a pass over the table.
use gpufleet.Prelude.{
  true, false, ◌≡◌, refl, sym, ap, ◌∙◌, subst, some, List, [], ◌∷◌, ◌++◌, append_assoc, append-nil,
  any, same, same_iff, arith, Bool-cases, Option-cases, inl, inr,
}
use gpufleet.Tasks.Status.{is_active}
use gpufleet.Tasks.Table.{TaskRow, find_task, UniqueIds}
use gpufleet.Tasks.Table.Walk.{StandIn, StandIn-tail, StandIn-head}
use gpufleet.Tasks.Metrics.{TaskMetric}
use gpufleet.Tasks.Transition.{TaskStore}
use gpufleet.Tasks.History.{Reach, here, next}
use gpufleet.Auth.Nodes.{NodeRow}
use gpufleet.Audit.{AuditEvent, Notice}
use gpufleet.Scanner.{
  Clock, ScanStore, find_node, active_tasks_with_nodes, Verdict, keep, value_error, judge, measure,
  mark_task, mark_loop, mark_lost_tasks,
}
use gpufleet.Scanner.OneTask.{settled, ended_as, notices_of, audits_of, Settled, mark-task_lem}
use gpufleet.Scanner.Verdicts.{
  with_node, verdict, is_value_error, unreadable_row, row_notices, all_notices, row_audits,
  all_audits, SameCancels, judge-SameCancels, Passed,
}

pub Reach-append : {s t u : TaskStore} → Reach s t → Reach t u → Reach s u
Reach-append p here = p
Reach-append p (next q step) = next (Reach-append p q) step

module _ (c : Clock) (audits : List AuditEvent) (nodes : List NodeRow) where
  skip_head :
      (s s' : ScanStore) (r : TaskRow) (rs : List TaskRow)
      → UniqueIds (r ∷ rs)
      → StandIn (r ∷ rs) s.tasks.rows
      → settled c.now_iso (verdict c audits nodes r) r ≡ r
      → row_notices c audits nodes r ≡ []
      → row_audits c audits nodes r ≡ []
      → Passed c audits nodes rs s s'
      → Passed c audits nodes (r ∷ rs) s s'
  unfolding find_task all_notices all_audits
  skip_head s s' r rs u p same_row silent unnoted passed = record {
    each = λ k x h. elim (Bool-cases (same r.task_id k)) [
      | inl hit ↦
          let r_x : r ≡ x = ground (arith, hit) in
          let at_k : find_task k s'.tasks.rows ≡ find_task k s.tasks.rows =
            passed.others k (ground (arith, u.0, (same_iff r.task_id k).0 hit)) in
          at_k
          ∙ p k x h
          ∙ ap some
              (sym (subst (λ y. settled c.now_iso (verdict c audits nodes y) y ≡ y) r_x same_row))
      | inr miss ↦ passed.each k x (ground (arith, miss))
    ];
    others = λ k h. passed.others k (ground arith);
    told = rw silent passed.told;
    noted = rw unnoted passed.noted;
    reach = passed.reach;
    unique = passed.unique;
  }

  step_head :
      (s s1 s' : ScanStore) (r : TaskRow) (n : NodeRow) (rs : List TaskRow)
      → UniqueIds (r ∷ rs)
      → find_node r.node_id nodes ≡ some n
      → Settled c (with_node r n) (verdict c audits nodes r) s s1
      → Passed c audits nodes rs s1 s'
      → Passed c audits nodes (r ∷ rs) s s'
  unfolding find_task all_notices all_audits row_notices row_audits
  step_head s s1 s' r n rs u at_node one passed = record {
    each = λ k x h. elim (Bool-cases (same r.task_id k)) [
      | inl hit ↦
          let r_x : r ≡ x = ground (arith, hit) in
          let k_r : r.task_id ≡ k = (same_iff r.task_id k).0 hit in
          passed.others k (ground (arith, u.0, k_r))
          ∙ subst
              (λ j.
                find_task j s1.tasks.rows ≡ some (settled c.now_iso (verdict c audits nodes r) r))
              k_r one.row
          ∙ ap (λ y. some (settled c.now_iso (verdict c audits nodes y) y)) r_x
      | inr miss ↦ passed.each k x (ground (arith, miss))
    ];
    others = λ k h.
        passed.others k (ground arith)
        ∙ one.others k (ground (arith, Bool-cases (same r.task_id k)));
    told =
        passed.told
        ∙ ap (λ l. l ++ all_notices c audits nodes rs) one.told
        ∙ append_assoc s.notices _ (all_notices c audits nodes rs)
        ∙ rw (at_node, row_notices) refl;
    noted =
        passed.noted
        ∙ ap (λ l. l ++ all_audits c audits nodes rs) one.noted
        ∙ append_assoc s.audits _ (all_audits c audits nodes rs)
        ∙ rw (at_node, row_audits) refl;
    reach = Reach-append one.reach passed.reach;
    unique = λ h. passed.unique (one.unique h);
  }

  -- The loop over `rs`: to its end, or to the first time that cannot be read.
  data Ran (s : ScanStore) (rs : List TaskRow) : Type 0 where
    to_the_end :
        (s' : ScanStore)
        → any (unreadable_row c audits nodes) rs ≡ false
        → mark_loop c s (active_tasks_with_nodes nodes rs) ≡ (true, s')
        → Passed c audits nodes rs s s'
        → Ran s rs
    stopped :
        (s' : ScanStore)
        → any (unreadable_row c audits nodes) rs ≡ true
        → mark_loop c s (active_tasks_with_nodes nodes rs) ≡ (false, s')
        → Ran s rs

  kept-Ran :
      (s : ScanStore) (r : TaskRow) (rs : List TaskRow)
      → UniqueIds (r ∷ rs)
      → StandIn (r ∷ rs) s.tasks.rows
      → verdict c audits nodes r ≡ keep
      → row_notices c audits nodes r ≡ []
      → row_audits c audits nodes r ≡ []
      → active_tasks_with_nodes nodes (r ∷ rs) ≡ active_tasks_with_nodes nodes rs
      → Ran s rs
      → Ran s (r ∷ rs)
  unfolding unreadable_row is_value_error
  kept-Ran s r rs u p v silent unnoted same_list (to_the_end s' h run passed) =
      to_the_end s' (ground arith) (rw same_list run)
        (skip_head s s' r rs u p (unfold settled ended_as in rw v refl) silent unnoted passed)
  kept-Ran s r rs u p v silent unnoted same_list (stopped s' h run) =
      stopped s' (ground arith) (rw same_list run)

  marked-Ran :
      (s s1 : ScanStore) (r : TaskRow) (n : NodeRow) (rs : List TaskRow)
      → UniqueIds (r ∷ rs)
      → find_node r.node_id nodes ≡ some n
      → is_active r.status ≡ true
      → judge c s.audits (with_node r n) ≡ verdict c audits nodes r
      → is_value_error (verdict c audits nodes r) ≡ false
      → mark_task c s (with_node r n) (verdict c audits nodes r) ≡ (true, s1)
      → Settled c (with_node r n) (verdict c audits nodes r) s s1
      → Ran s1 rs
      → Ran s (r ∷ rs)
  unfolding unreadable_row active_tasks_with_nodes mark_loop
  marked-Ran s s1 r n rs u at_node act judged fine marked one (to_the_end s' h run passed) =
      to_the_end s' (ground arith) (rw (act, at_node, judged, marked) run)
        (step_head s s1 s' r n rs u at_node one passed)
  marked-Ran s s1 r n rs u at_node act judged fine marked one (stopped s' h run) =
      stopped s' (ground arith) (rw (act, at_node, judged, marked) run)

  fine-no_error : (v : Verdict) → is_value_error v ≡ false → ¬ (v ≡ value_error)
  unfolding is_value_error
  fine-no_error v h e = absurd (ground arith)

  error-value_error : (v : Verdict) → is_value_error v ≡ true → v ≡ value_error
  unfolding is_value_error
  error-value_error value_error h = refl
  error-value_error _ h = cc

  keep_silent :
      (r : TaskRow)
      → verdict c audits nodes r ≡ keep
      → (row_notices c audits nodes r ≡ []) × (row_audits c audits nodes r ≡ [])
  unfolding row_notices row_audits notices_of audits_of measure
  keep_silent r v = elim (Option-cases (find_node r.node_id nodes)) [
    | inl e ↦ (rw (e, row_notices) refl, rw (e, row_audits) refl)
    | inr (n, e) ↦ (rw (e, v, row_notices) refl, rw (e, v, row_audits) refl)
  ]

  active-Ran :
      (r : TaskRow) (rs : List TaskRow) (s : ScanStore) (n : NodeRow)
      → UniqueIds (r ∷ rs)
      → StandIn (r ∷ rs) s.tasks.rows
      → SameCancels s.audits audits
      → is_active r.status ≡ true
      → find_node r.node_id nodes ≡ some n
      → ((s1 : ScanStore) → StandIn rs s1.tasks.rows → SameCancels s1.audits audits → Ran s1 rs)
      → Ran s (r ∷ rs)
  unfolding verdict unreadable_row active_tasks_with_nodes mark_loop mark_task find_task
  active-Ran r rs s n u p same_cancels act at_node rest =
      let same_judged : judge c s.audits (with_node r n) ≡ verdict c audits nodes r =
        judge-SameCancels c s.audits audits (with_node r n) same_cancels ∙ rw (act, at_node) refl in
      elim (Bool-cases (is_value_error (verdict c audits nodes r))) [
        | inl bad ↦
            let e = error-value_error (verdict c audits nodes r) bad in
            stopped s (ground arith) (rw (act, at_node, same_judged, e) refl)
        | inr fine ↦
            let at_r : find_task r.task_id s.tasks.rows ≡ some r =
              StandIn-head s.tasks.rows r rs p in
            let (s1, marked, one) =
              mark-task_lem c s (with_node r n) at_r act (verdict c audits nodes r)
                (fine-no_error (verdict c audits nodes r) fine) in
            marked-Ran s s1 r n rs u at_node act same_judged fine marked one (
              rest s1 (StandIn-tail s.tasks.rows s1.tasks.rows r rs u p one.others)
                (λ j. one.cancels j ∙ same_cancels j))
      ]

  loop-Ran :
      (rs : List TaskRow) (s : ScanStore)
      → UniqueIds rs
      → StandIn rs s.tasks.rows
      → SameCancels s.audits audits
      → Ran s rs
  unfolding find_task all_notices all_audits active_tasks_with_nodes mark_loop verdict
  loop-Ran [] s u p same_cancels = to_the_end s refl refl (record {
    each = λ k r h. absurd (ground arith);
    others = λ k h. refl;
    told = sym (append-nil s.notices);
    noted = sym (append-nil s.audits);
    reach = here;
    unique = λ h. h;
  })
  loop-Ran (r ∷ rs) s u p same_cancels = elim (Bool-cases (is_active r.status)) [
    | inl act ↦ elim (Option-cases (find_node r.node_id nodes)) [
      | inl alone ↦
          let v : verdict c audits nodes r ≡ keep = rw (act, alone) refl in
          kept-Ran s r rs u p v (keep_silent r v).0 (keep_silent r v).1 (rw (act, alone) refl) (
            loop-Ran rs s u.1 (StandIn-tail s.tasks.rows s.tasks.rows r rs u p (λ k ne. refl))
              same_cancels)
      | inr (n, at_node) ↦
          active-Ran r rs s n u p same_cancels act at_node (λ s1 p1 c1. loop-Ran rs s1 u.1 p1 c1)
    ]
    | inr idle ↦
        let v : verdict c audits nodes r ≡ keep = rw idle refl in
        kept-Ran s r rs u p v (keep_silent r v).0 (keep_silent r v).1 (rw idle refl) (
          loop-Ran rs s u.1 (StandIn-tail s.tasks.rows s.tasks.rows r rs u p (λ k ne. refl))
            same_cancels)
  ]

-- Where every time of an active task can be read, the job ends each task as the verdict on its row
-- says, and only these: every row is afterwards what the verdict on it makes of it, and the notices and
-- audit rows are those of the verdicts, in the order of the table. Task ids are unique.
pub mark_lost_tasks-verdicts :
    (c : Clock) (s : ScanStore)
    → UniqueIds s.tasks.rows
    → any (unreadable_row c s.audits s.nodes) s.tasks.rows ≡ false
    → (s' : ScanStore) × (mark_lost_tasks c s ≡ (true, s'))
      × Passed c s.audits s.nodes s.tasks.rows s s'
unfolding mark_lost_tasks
mark_lost_tasks-verdicts c s u readable =
    elim (loop-Ran c s.audits s.nodes s.tasks.rows s u (λ k r h. h) (λ j. refl)) [
      | to_the_end s' h run passed ↦ (s', rw run refl, passed)
      | stopped s' h run ↦ absurd (ground arith)
    ]

-- One active task with a time that cannot be read stops the whole job: no row of any table is changed,
-- whatever tasks were found overdue before it. Only what was announced and counted until then stays,
-- since neither is part of the transaction. Task ids are unique.
pub mark_lost_tasks-unreadable :
    (c : Clock) (s : ScanStore)
    → UniqueIds s.tasks.rows
    → any (unreadable_row c s.audits s.nodes) s.tasks.rows ≡ true
    → (notices : List Notice) × (metrics : List TaskMetric) × (mark_lost_tasks c s
        ≡ (false, record s { tasks = record s.tasks { metrics = metrics }; notices = notices }))
unfolding mark_lost_tasks
mark_lost_tasks-unreadable c s u unreadable =
    elim (loop-Ran c s.audits s.nodes s.tasks.rows s u (λ k r h. h) (λ j. refl)) [
      | to_the_end s' h run passed ↦ absurd (ground arith)
      | stopped s' h run ↦ (s'.notices, s'.tasks.metrics, rw run refl)
    ]
