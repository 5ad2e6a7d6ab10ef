-- ===== src/Scenarios/Rows.antt =====
-- A task and a node that the scenarios start from.
use gpufleet.Prelude.{ℕ, String, Text, true, false, none, some, codes}
use gpufleet.Tasks.Status.{Status}
use gpufleet.Tasks.Table.{TaskRow}
use gpufleet.Auth.Nodes.{NodeRow}

abbrev pub task : ℕ → String → Status → Text → TaskRow
task id task_id status created_at = record {
  id = id;
  task_id = task_id;
  revision = 1;
  idempotency_key = "manual";
  node_id = "node-a";
  task_type = "health_check";
  status = status;
  payload_json = "{}";
  workdir = none;
  env_json = "{}";
  requested_gpu_ids_json = "[]";
  timeout_sec = 300;
  kill_grace_sec = 15;
  danger_level = "normal";
  created_by_admin_id = some 1;
  created_at = created_at;
  claimed_at = none;
  started_at = none;
  finished_at = none;
  result_locked_at = none;
  review_stage = none;
  review_decision = none;
  review_detail = none;
  review_admin_id = none;
  review_started_at = none;
  review_finished_at = none;
}

abbrev pub node : NodeRow
node = record {
  id = 1;
  node_id = "a";
  display_name = "A";
  node_signing_key = some (codes "k");
  encrypted_signing_key = none;
  onboarding_token_encrypted = none;
  onboarding_token_created_at = none;
  onboarding_token_expires_at = none;
  node_type = "linux";
  os_type = none;
  hostname = none;
  heartbeat_interval_sec = 5;
  allowed_workdirs_json = "[]";
  tags_json = "[]";
  allow_shell = false;
  allow_modal = false;
  is_enabled = true;
  first_seen_at = none;
  last_seen_at = none;
  last_request_ts = some (codes "2026-01-01T00:00:00+00:00");
  last_boot_id = none;
  created_at = codes "2026-01-01T00:00:00+00:00";
  updated_at = codes "2026-01-01T00:00:00+00:00";
}
