-- ===== src/Scanner/Gauges.antt =====
-- app/background.py: `_refresh_status_gauges`, with the two gauges of app/metrics.py that it sets.
-- A Python set is a list without duplicates. `older` is SQLite's comparison of a time with the time
-- 30 seconds ago, `storage_ok` says whether the directories could be measured.
pub mod Alternate
use gpufleet.Prelude.{
  ℕ, String, Text, Bool, true, false, not, ◌≡◌, Option, none, some, List, [], ◌∷◌, ◌++◌, map, any,
  same, select, count_where, if◌then◌else◌, ◌==◌,
}
use gpufleet.Tasks.Status.{
  Status, pending, reviewing, claimed, running, succeeded, failed, timeout, cancelled, lost,
  rejected, review_expired, is_status,
}
use gpufleet.Tasks.Table.{TaskRow}
use gpufleet.Auth.Nodes.{NodeRow}
use gpufleet.Audit.{Notice, node_offline, node_online}
use gpufleet.Scanner.{Clock, ScanStore, Moment, absent, at_instant, unreadable, parse_utc_or_none}

pub data NodeStatus : Type 0 where
  disabled never_seen offline online : NodeStatus

abbrev node_code : NodeStatus → ℕ
node_code disabled = 0
node_code never_seen = 1
node_code offline = 2
node_code online = 3

abbrev status_seen : (Text → Bool) → Option Text → NodeStatus
status_seen older none = never_seen
status_seen older (some t) = if older t then offline else online

-- The CASE of the query.
unfoldable pub node_status : (Text → Bool) → NodeRow → NodeStatus
node_status older n = if not n.is_enabled then disabled else status_seen older n.last_seen_at

abbrev has_status : (Text → Bool) → NodeStatus → NodeRow → Bool
has_status older k n = node_code (node_status older n) == node_code k

-- set.add
unfoldable pub set_add : String → List String → List String
set_add j set = if any (same j) set then set else j ∷ set

unfoldable pub offline_nodes : (Text → Bool) → List NodeRow → List String
offline_nodes older [] = []
offline_nodes older (n ∷ nodes) =
    let rest = offline_nodes older nodes in
    if has_status older offline n then set_add n.node_id rest else rest

-- set difference
unfoldable pub difference : List String → List String → List String
difference xs ys = select (λ j. not (any (same j) ys)) xs

pub record Gauges : Type 0 where
  pub offline_node_cache : List String
  pub scanner_first_tick : Bool
  pub nodes_by_status : List ℕ
  pub tasks_by_status : List ℕ
  pub review_pending : ℕ

abbrev known_statuses : List Status
known_statuses =
    pending ∷ claimed ∷ running ∷ succeeded ∷ failed ∷ cancelled ∷ timeout ∷ lost ∷ reviewing
    ∷ rejected ∷ review_expired ∷ []

unfoldable pub update_nodes_by_status : (Text → Bool) → List NodeRow → List ℕ
update_nodes_by_status older nodes =
    map (λ k. count_where (has_status older k) nodes)
      (online ∷ offline ∷ disabled ∷ never_seen ∷ [])

unfoldable pub update_tasks_by_status : List TaskRow → List ℕ
update_tasks_by_status rows = map (λ k. count_where (λ r. is_status r.status k) rows) known_statuses

unfoldable pub seen_unreadable : Clock → NodeRow → Bool
seen_unreadable c n = elim (parse_utc_or_none c.fromisoformat n.last_seen_at) [
  | absent ↦ false
  | at_instant t ↦ false
  | unreadable ↦ true
]

-- Node events: the nodes newly offline, then the nodes that came back.
unfoldable pub node_events : Gauges → List String → List Notice
node_events g current =
    if g.scanner_first_tick
    then []
    else map node_offline (difference current g.offline_node_cache)
      ++ map node_online (difference g.offline_node_cache current)

-- What one round reads.
pub record Round : Type 0 where
  pub clock : Clock
  pub older : Text → Bool
  pub storage_ok : Bool
  pub nodes : List NodeRow
  pub rows : List TaskRow

unfoldable pub refresh_status_gauges : Gauges → Round → Gauges × List Notice
refresh_status_gauges g r =
    let current = offline_nodes r.older r.nodes in
    let counted = record g {
      nodes_by_status = update_nodes_by_status r.older r.nodes;
      tasks_by_status = update_tasks_by_status r.rows;
      review_pending = count_where (λ (t : TaskRow). is_status t.status reviewing) r.rows;
    } in
    if any (seen_unreadable r.clock) r.nodes
    then (g, [])
    else if not r.storage_ok
    then (counted, [])
    else (
      record counted { offline_node_cache = current; scanner_first_tick = false },
      node_events g current,
    )

-- One round after another.
unfoldable pub refresh_rounds : Gauges → List Round → Gauges × List Notice
refresh_rounds g [] = (g, [])
refresh_rounds g (r ∷ rounds) =
    let (g', notices) = refresh_status_gauges g r in
    let (g'', later) = refresh_rounds g' rounds in (g'', notices ++ later)
