-- ===== src/Scenarios/Scanner.antt =====
-- A task that runs past its limit, one that has ended, and one under review since long ago.
use gpufleet.Prelude.{
  String, Text, true, false, Bool, ◌≡◌, ◌⊎◌, refl, Option, none, some, List, [], ◌∷◌, codes, same,
  any, text_eq, if◌then◌else◌, arith,
}
use gpufleet.Scenarios.Rows.{task, node}
use gpufleet.Tasks.Status.{running, succeeded, reviewing}
use gpufleet.Tasks.Table.{TaskRow, find_task}
use gpufleet.Auth.Request.{Parsed, aware}
use gpufleet.Audit.{Notice}
use gpufleet.Tasks.Metrics.{TaskMetric}
use gpufleet.Scanner.{
  Clock, ScanStore, find_node, judge, parse_utc_or_none, mark_lost_tasks, keep, value_error,
}
use gpufleet.Scanner.Verdicts.{verdict, unreadable_row, is_value_error, with_node, Passed}
use gpufleet.Scanner.EveryTask.{mark_lost_tasks-verdicts, mark_lost_tasks-unreadable}
use gpufleet.Scanner.Overdue.{Overdue, judge-Overdue}
use gpufleet.Scanner.Expire.{Expired, expire_reviewing_tasks, expire_reviewing_tasks-Expired}
use gpufleet.Scanner.Gauges.{Gauges, Round, refresh_rounds}
use gpufleet.Scanner.Gauges.Alternate.{Alternating, signals, node_events-alternate}
use gpufleet.Scanner.Prune.{StoredFile}
use gpufleet.Scanner.Tick.{World, Now, ticks, tick, ticks-keep_ended, tick-keeps_file}

-- A calendar that knows one time.
abbrev reads : Text → Option Parsed
reads t = if text_eq t (codes "12:00") then some (aware 43200000000) else none

abbrev clock : Clock
clock = record { now = 86400000000; now_iso = codes "24:00"; fromisoformat = reads }

abbrev overdue : TaskRow
overdue = record (task 1 "t1" running (codes "11:00")) {
  node_id = "a";
  started_at = some (codes "12:00");
}

abbrev ended : TaskRow
ended = task 2 "t2" succeeded (codes "11:00")

abbrev in_review : TaskRow
in_review = record (task 3 "t3" reviewing (codes "11:00")) {
  review_started_at = some (codes "11:00");
}

abbrev store : ScanStore
store = record {
  tasks = record { rows = overdue ∷ ended ∷ in_review ∷ []; metrics = [] };
  nodes = node ∷ [];
  audits = [];
  alerts = [];
  notices = [];
}

abbrev unreadable_store : ScanStore
unreadable_store = record store {
  tasks = record {
    rows = overdue ∷ record overdue { task_id = "t4"; started_at = some (codes "noon") } ∷ [];
    metrics = [];
  };
}

mark_lost_tasks-verdicts_example :
    (s' : ScanStore) × (mark_lost_tasks clock store ≡ (true, s'))
    × Passed clock store.audits store.nodes store.tasks.rows store s'
unfolding find_task same unreadable_row verdict find_node judge is_value_error parse_utc_or_none
    text_eq
mark_lost_tasks-verdicts_example =
    mark_lost_tasks-verdicts clock store (refl, (refl, (refl, tt))) refl

mark_lost_tasks-unreadable_example :
    (notices : List Notice) × (metrics : List TaskMetric) × (mark_lost_tasks clock unreadable_store
      ≡ (
        false,
        record unreadable_store {
          tasks = record unreadable_store.tasks { metrics = metrics };
          notices = notices;
        },
      ))
unfolding find_task same unreadable_row verdict find_node judge is_value_error parse_utc_or_none
    text_eq
mark_lost_tasks-unreadable_example =
    mark_lost_tasks-unreadable clock unreadable_store (refl, (refl, tt)) refl

judge-Overdue_example :
    ((judge clock [] (with_node overdue node) ≡ keep)
      ⊎ ((judge clock [] (with_node overdue node) ≡ value_error)
          ⊎ Overdue clock [] (with_node overdue node) (judge clock [] (with_node overdue node))))
judge-Overdue_example = judge-Overdue clock [] (with_node overdue node)

expire_reviewing_tasks-Expired_example :
    (s' : ScanStore) × (expire_reviewing_tasks (codes "24:00") (codes "23:30") store ≡ (true, s'))
    × Expired (codes "24:00") (codes "23:30") store.tasks.rows store s'
unfolding find_task same
expire_reviewing_tasks-Expired_example =
    expire_reviewing_tasks-Expired (codes "24:00") (codes "23:30") store (refl, (refl, (refl, tt)))

abbrev gauges : Gauges
gauges = record {
  offline_node_cache = "a" ∷ [];
  scanner_first_tick = false;
  nodes_by_status = [];
  tasks_by_status = [];
  review_pending = 0;
}

abbrev round : (Text → Bool) → Round
round older = record {
  clock = clock;
  older = older;
  storage_ok = true;
  nodes = record node { last_seen_at = some (codes "12:00") } ∷ [];
  rows = [];
}

abbrev rounds : List Round
rounds = round (λ t. false) ∷ round (λ t. true) ∷ []

node_events-alternate_example :
    Alternating
      (any (same "a") gauges.offline_node_cache)
      (signals "a" (refresh_rounds gauges rounds).1)
unfolding same
node_events-alternate_example = node_events-alternate "a" rounds gauges refl (omega arith)

abbrev log_row : StoredFile
log_row = record { task_id = "t1"; path = some "logs/t1/stdout.log" }

abbrev world : World
world = record {
  scan = store;
  storage = record {
    snapshots = [];
    logs = log_row ∷ [];
    artifacts = [];
    files = "logs/t1/stdout.log" ∷ [];
  };
  gauges = gauges;
  job_errors = [];
}

abbrev present_time : Now
present_time = record {
  clock = clock;
  review_cutoff = codes "23:30";
  snapshot_cutoff = codes "10:00";
  log_cutoff = codes "10:00";
  artifact_cutoff = codes "10:00";
  roots = record {
    is_within_root = λ root path. true;
    logs_root = "logs";
    artifacts_root = "artifacts";
  };
  older = λ t. true;
  storage_ok = true;
}

ticks-keep_ended_example :
    find_task "t2" (ticks (present_time ∷ present_time ∷ []) world).scan.tasks.rows ≡ some ended
unfolding find_task same
ticks-keep_ended_example =
    ticks-keep_ended (present_time ∷ present_time ∷ []) world "t2" ended (refl, (refl, (refl, tt)))
      refl refl

abbrev kept_path : String
kept_path = "logs/t9/stdout.log"

abbrev kept_world : World
kept_world = record world {
  storage = record world.storage { files = kept_path ∷ "logs/t1/stdout.log" ∷ [] };
}

tick-keeps_file_example : any (same kept_path) (tick present_time kept_world).storage.files ≡ true
unfolding same
tick-keeps_file_example = tick-keeps_file present_time kept_world kept_path refl refl refl
