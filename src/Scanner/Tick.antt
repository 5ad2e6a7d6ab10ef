-- ===== src/Scanner/Tick.antt =====
-- One round of app/background.py's `lost_task_scanner`: the jobs of `_JOB_REGISTRY`, each run by
-- `_run_background_job`, then the gauges. Expired nonces are pruned as in Auth/Nodes.
use gpufleet.Prelude.{
  String, Text, Bool, true, false, ◌≡◌, ◌∙◌, some, List, [], ◌∷◌, ◌++◌, any, same, Bool-cases, inl,
  inr, if◌then◌else◌,
}
use gpufleet.Tasks.Status.{is_terminal}
use gpufleet.Tasks.Table.{TaskRow, find_task, UniqueIds}
use gpufleet.Tasks.Transition.{TaskStore}
use gpufleet.Tasks.History.{Reach, here, next, rolled_back, in_place}
use gpufleet.Tasks.History.Ended.{ended_forever}
use gpufleet.Scanner.{Clock, ScanStore, mark_lost_tasks}
use gpufleet.Scanner.Verdicts.{unreadable_row}
use gpufleet.Scanner.EveryTask.{Reach-append, mark_lost_tasks-verdicts, mark_lost_tasks-unreadable}
use gpufleet.Scanner.Expire.{expire_reviewing_tasks, expire_reviewing_tasks-Expired}
use gpufleet.Scanner.Gauges.{Gauges, refresh_status_gauges}
use gpufleet.Scanner.Prune.{
  Storage, Roots, prune_old_status_snapshots, prune_old_task_logs, prune_old_artifacts, may_remove,
  cleanup-keeps,
}

-- `job_errors` are the increments of BACKGROUND_JOB_ERRORS_TOTAL, by job.
pub record World : Type 0 where
  pub scan : ScanStore
  pub storage : Storage
  pub gauges : Gauges
  pub job_errors : List String

-- The time of a round, and the times that the retention settings reach back to.
pub record Now : Type 0 where
  pub clock : Clock
  pub review_cutoff : Text
  pub snapshot_cutoff : Text
  pub log_cutoff : Text
  pub artifact_cutoff : Text
  pub roots : Roots
  pub older : Text → Bool
  pub storage_ok : Bool

unfoldable pub run_background_job : String → (ScanStore → Bool × ScanStore) → World → World
run_background_job job_name fn w =
    let (done, s) = fn w.scan in
    record w { scan = s; job_errors = w.job_errors ++ (if done then [] else job_name ∷ []) }

unfoldable pub prune : Now → List TaskRow → Storage → Storage
prune i rows st = prune_old_artifacts i.roots i.artifact_cutoff rows (
    prune_old_task_logs i.roots i.log_cutoff rows (prune_old_status_snapshots i.snapshot_cutoff st))

-- The jobs that write the table of tasks.
unfoldable pub task_jobs : Now → World → World
task_jobs i w =
    run_background_job "expire_reviewing" (expire_reviewing_tasks i.clock.now_iso i.review_cutoff)
      (run_background_job "mark_lost" (mark_lost_tasks i.clock) w)

unfoldable pub refresh : Now → World → World
refresh i w =
    let (g, notices) = refresh_status_gauges w.gauges (record {
      clock = i.clock;
      older = i.older;
      storage_ok = i.storage_ok;
      nodes = w.scan.nodes;
      rows = w.scan.tasks.rows;
    }) in
    record w { scan = record w.scan { notices = w.scan.notices ++ notices }; gauges = g }

unfoldable pub tick : Now → World → World
tick i w =
    let w' = task_jobs i w in
    refresh i (record w' { storage = prune i w'.scan.tasks.rows w'.storage })

unfoldable pub ticks : List Now → World → World
ticks [] w = w
ticks (i ∷ rest) w = ticks rest (tick i w)

-- A job's writes to the table of tasks are steps of Tasks/History.
record Walks (s s' : TaskStore) : Type 0 where
  reach : Reach s s'
  unique : UniqueIds s'.rows

mark_lost-Walks :
    (c : Clock) (s : ScanStore)
    → UniqueIds s.tasks.rows
    → Walks s.tasks (mark_lost_tasks c s).1.tasks
mark_lost-Walks c s u = elim (Bool-cases (any (unreadable_row c s.audits s.nodes) s.tasks.rows)) [
  | inl bad ↦
      let (notices, metrics, run) = mark_lost_tasks-unreadable c s u bad in
      rw run (record { reach = next here (rolled_back metrics); unique = u })
  | inr fine ↦
      let (s', run, passed) = mark_lost_tasks-verdicts c s u fine in
      rw run (record { reach = passed.reach; unique = passed.unique u })
]

expire-Walks :
    (now_iso cutoff : Text) (s : ScanStore)
    → UniqueIds s.tasks.rows
    → Walks s.tasks (expire_reviewing_tasks now_iso cutoff s).1.tasks
expire-Walks now_iso cutoff s u =
    let (s', run, passed) = expire_reviewing_tasks-Expired now_iso cutoff s u in
    rw run (record { reach = passed.reach; unique = passed.unique u })

tick-Walks :
    (i : Now) (w : World) → UniqueIds w.scan.tasks.rows → Walks w.scan.tasks (tick i w).scan.tasks
unfolding tick task_jobs refresh run_background_job
tick-Walks i w u =
    let lost = mark_lost-Walks i.clock w.scan u in
    let gone =
      expire-Walks i.clock.now_iso i.review_cutoff (mark_lost_tasks i.clock w.scan).1 lost.unique in
    record { reach = Reach-append lost.reach gone.reach; unique = gone.unique }

ticks-Walks :
    (times : List Now) (w : World)
    → UniqueIds w.scan.tasks.rows
    → Walks w.scan.tasks (ticks times w).scan.tasks
unfolding ticks
ticks-Walks [] w u = record { reach = here; unique = u }
ticks-Walks (i ∷ rest) w u =
    let one = tick-Walks i w u in
    let more = ticks-Walks rest (tick i w) one.unique in
    record { reach = Reach-append one.reach more.reach; unique = more.unique }

-- The row of a task that has ended survives any number of rounds of the scanner unchanged, whatever its
-- jobs find and whether or not they fail. Task ids are unique.
pub ticks-keep_ended :
    (times : List Now) (w : World) (k : String) (r : TaskRow)
    → UniqueIds w.scan.tasks.rows
    → find_task k w.scan.tasks.rows ≡ some r
    → is_terminal r.status ≡ true
    → find_task k (ticks times w).scan.tasks.rows ≡ some r
ticks-keep_ended times w k r u found ended =
    ended_forever k r found ended (in_place r.node_id (ticks-Walks times w u).reach)

-- A round deletes a file only for a row of `task_logs` or `artifacts` that names it and whose task ended
-- before the retention time: any other file that was stored is stored afterwards.
pub tick-keeps_file :
    (i : Now) (w : World) (p : String)
    → any (same p) w.storage.files ≡ true
    → any (may_remove i.log_cutoff (task_jobs i w).scan.tasks.rows p) w.storage.logs ≡ false
    → any (may_remove i.artifact_cutoff (task_jobs i w).scan.tasks.rows p) w.storage.artifacts
      ≡ false
    → any (same p) (tick i w).storage.files ≡ true
unfolding tick refresh task_jobs run_background_job prune prune_old_status_snapshots
    prune_old_task_logs prune_old_artifacts
tick-keeps_file i w p stored logs artifacts =
    let rows = (task_jobs i w).scan.tasks.rows in
    cleanup-keeps i.artifact_cutoff rows (i.roots.is_within_root i.roots.artifacts_root) p
      w.storage.artifacts _ artifacts
    ∙ cleanup-keeps i.log_cutoff rows (i.roots.is_within_root i.roots.logs_root) p w.storage.logs
        w.storage.files logs
    ∙ stored
