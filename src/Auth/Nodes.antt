-- ===== src/Auth/Nodes.antt =====
-- The tables `nodes` and `nonces` of app/db.py, and what the scanner prunes of the latter.
use gpufleet.Prelude.{
  ℕ, String, Text, Bool, ◌&&◌, not, Option, none, some, List, [], ◌∷◌, same, select, text_lt,
  update_where, if◌then◌else◌,
}

pub record NodeRow : Type 0 where
  pub id : ℕ
  pub node_id : String
  pub display_name : String
  pub node_signing_key : Option Text
  pub encrypted_signing_key : Option Text
  pub onboarding_token_encrypted : Option Text
  pub onboarding_token_created_at : Option Text
  pub onboarding_token_expires_at : Option Text
  pub node_type : String
  pub os_type : Option String
  pub hostname : Option String
  pub heartbeat_interval_sec : ℕ
  pub allowed_workdirs_json : String
  pub tags_json : String
  pub allow_shell : Bool
  pub allow_modal : Bool
  pub is_enabled : Bool
  pub first_seen_at : Option Text
  pub last_seen_at : Option Text
  pub last_request_ts : Option Text
  pub last_boot_id : Option String
  pub created_at : Text
  pub updated_at : Text

pub record NonceRow : Type 0 where
  pub node_id : String
  pub nonce : Text
  pub timestamp_utc : Text
  pub expires_at : Text

-- The tables with the counter NODE_KEY_V1_LEGACY_FALLBACK_TOTAL, which no rollback takes back.
pub record NodeStore : Type 0 where
  pub nodes : List NodeRow
  pub nonces : List NonceRow
  pub legacy_fallbacks : ℕ

-- SELECT * FROM nodes WHERE node_id = ? AND is_enabled = 1
unfoldable pub find_enabled : String → List NodeRow → Option NodeRow
find_enabled j [] = none
find_enabled j (r ∷ rows) = if same r.node_id j && r.is_enabled then some r else find_enabled j rows

-- DELETE FROM nonces WHERE expires_at < ?
unfoldable pub prune_expired_nonces : NodeStore → Text → NodeStore
prune_expired_nonces s now_iso = record s {
  nonces = select (λ n. not (text_lt n.expires_at now_iso)) s.nonces;
}

-- What a heartbeat writes into the row of its node.
pub record HeartbeatFields : Type 0 where
  pub hostname : Option String
  pub heartbeat_interval_sec : ℕ
  pub boot_id : String

-- `payload.hostname or node["hostname"]`
abbrev pub keep_hostname : Option String → Option String → Option String
keep_hostname none old = old
keep_hostname (some new) old = if same new "" then old else some new

abbrev pub first_time : Option Text → Text → Option Text
first_time none now_iso = some now_iso
first_time (some t) now_iso = some t

-- `node` is the row that the authentication read.
unfoldable pub set_seen : HeartbeatFields → NodeRow → Text → NodeRow → NodeRow
set_seen h node now_iso r = record r {
  hostname = keep_hostname h.hostname node.hostname;
  heartbeat_interval_sec = h.heartbeat_interval_sec;
  first_seen_at = first_time r.first_seen_at now_iso;
  last_seen_at = some now_iso;
  last_boot_id = some h.boot_id;
  onboarding_token_encrypted = none;
  onboarding_token_expires_at = none;
  updated_at = now_iso;
}

unfoldable pub record_heartbeat : NodeStore → String → HeartbeatFields → NodeRow → Text → NodeStore
record_heartbeat s node_id h node now_iso = record s {
  nodes = update_where (λ r. same r.node_id node_id) (set_seen h node now_iso) s.nodes;
}
