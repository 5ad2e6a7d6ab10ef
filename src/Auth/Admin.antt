-- ===== src/Auth/Admin.antt =====
-- app/services/admin_nodes_service.py: the handlers by which an administrator changes a node that is
-- registered. The id and the clock of a request are arguments, and so is the JSON of its payload.
pub mod Registry
pub mod History
pub mod Disabled
use gpufleet.Prelude.{
  String, Text, Bool, true, false, ◌&&◌, ◌||◌, not, Option, none, some, List, [], ◌∷◌, ◌++◌, ℕ,
  same, any, select, update_where, if◌then◌else◌,
}
use gpufleet.Audit.{AuditEvent, AuditDetail, json}
use gpufleet.Auth.Nodes.{
  NodeRow, NodeStore, HeartbeatFields, record_heartbeat, prune_expired_nonces,
}
use gpufleet.Auth.Request.{Environment, Request, authenticate_node}

-- The tables with `app.state.pending_fingerprint_refresh`.
pub record NodesState : Type 0 where
  pub store : NodeStore
  pub audit_events : List AuditEvent
  pub pending_fingerprint_refresh : List String

pub record AdminCall : Type 0 where
  pub admin_id : String
  pub detail_json : String
  pub now_iso : Text

pub data NodeReply : Type 0 where
  saved : Option NodeRow → NodeReply
  refresh_queued : NodeReply
  deleted : NodeReply
  no_changes node_not_found duplicate_id : NodeReply

pub record NodeUpdateRequest : Type 0 where
  pub display_name : Option String
  pub os_type : Option String
  pub hostname : Option String
  pub heartbeat_interval_sec : Option ℕ
  pub allowed_workdirs : Option String
  pub tags : Option String
  pub is_enabled : Option Bool
  pub allow_shell : Option Bool
  pub allow_modal : Option Bool

-- SELECT * FROM nodes WHERE node_id = ?
unfoldable pub find_node : String → List NodeRow → Option NodeRow
find_node j [] = none
find_node j (r ∷ rows) = if same r.node_id j then some r else find_node j rows

unfoldable pub insert_node_audit : AdminCall → String → String → NodesState → NodesState
insert_node_audit c action node_id s = record s {
  audit_events =
      s.audit_events
      ++ record {
        actor_type = "admin";
        actor_id = c.admin_id;
        action = action;
        target_type = "node";
        target_id = node_id;
        detail = json c.detail_json;
        created_at = c.now_iso;
      }
        ∷ [];
}

-- UPDATE nodes SET … WHERE node_id = ?
unfoldable pub update_row : String → (NodeRow → NodeRow) → NodesState → NodesState
update_row node_id f s = record s {
  store = record s.store { nodes = update_where (λ r. same r.node_id node_id) f s.store.nodes };
}

-- The UPDATE and the INSERT of a handler, whose answer is the row as it is then.
unfoldable pub write_node :
    AdminCall → String → String → (NodeRow → NodeRow) → NodesState → NodeReply × NodesState
write_node c action node_id f s =
    let written = insert_node_audit c action node_id (update_row node_id f s) in
    (saved (find_node node_id written.store.nodes), written)

abbrev pub is_none {ℓ} : {A : Type ℓ} → Option A → Bool
is_none none = true
is_none (some x) = false

abbrev pub changed {ℓ} : {A : Type ℓ} → Option A → A → A
changed none old = old
changed (some new) old = new

abbrev pub changed_text : Option String → Option String → Option String
changed_text none old = old
changed_text (some new) old = some new

-- `if not changes`
unfoldable pub unchanged : NodeUpdateRequest → Bool
unchanged p =
    is_none p.display_name
    && (is_none p.os_type
        && (is_none p.hostname
            && (is_none p.heartbeat_interval_sec
                && (is_none p.allowed_workdirs
                    && (is_none p.tags
                        && (is_none p.is_enabled
                            && (is_none p.allow_shell && is_none p.allow_modal)))))))

-- `row` is the row that the handler read.
unfoldable pub set_changes : NodeUpdateRequest → Text → NodeRow → NodeRow → NodeRow
set_changes p now_iso row r = record r {
  display_name = changed p.display_name row.display_name;
  os_type = changed_text p.os_type row.os_type;
  hostname = changed_text p.hostname row.hostname;
  heartbeat_interval_sec = changed p.heartbeat_interval_sec row.heartbeat_interval_sec;
  allowed_workdirs_json = changed p.allowed_workdirs row.allowed_workdirs_json;
  tags_json = changed p.tags row.tags_json;
  is_enabled = changed p.is_enabled row.is_enabled;
  allow_shell = changed p.allow_shell row.allow_shell;
  allow_modal = changed p.allow_modal row.allow_modal;
  updated_at = now_iso;
}

unfoldable pub update_node :
    AdminCall → String → NodeUpdateRequest → NodesState → NodeReply × NodesState
update_node c node_id payload s =
    if unchanged payload then (no_changes, s) else elim (find_node node_id s.store.nodes) [
      | none ↦ (node_not_found, s)
      | some row ↦ write_node c "update_node" node_id (set_changes payload c.now_iso row) s
    ]

unfoldable pub set_enabled : Bool → Text → NodeRow → NodeRow
set_enabled enabled now_iso r = record r { is_enabled = enabled; updated_at = now_iso }

unfoldable pub set_node_enabled : AdminCall → String → Bool → NodesState → NodeReply × NodesState
set_node_enabled c node_id enabled s = elim (find_node node_id s.store.nodes) [
  | none ↦ (node_not_found, s)
  | some row ↦
      write_node c (if enabled then "enable_node" else "disable_node") node_id
        (set_enabled enabled c.now_iso) s
]

-- `pending.add(node_id)`
abbrev add_pending : String → List String → List String
add_pending j l = if any (same j) l then l else j ∷ l

unfoldable pub queue_fingerprint_refresh : AdminCall → String → NodesState → NodeReply × NodesState
queue_fingerprint_refresh c node_id s = elim (find_node node_id s.store.nodes) [
  | none ↦ (node_not_found, s)
  | some row ↦
      let audited = insert_node_audit c "refresh_node_fingerprint" node_id s in
      (
        refresh_queued,
        record audited {
          pending_fingerprint_refresh = add_pending node_id audited.pending_fingerprint_refresh;
        },
      )
]

unfoldable pub set_secret : Text → Text → Text → NodeRow → NodeRow
set_secret encrypted_signing_key encrypted_onboarding_token now_iso r = record r {
  node_signing_key = some [];
  encrypted_signing_key = some encrypted_signing_key;
  onboarding_token_encrypted = some encrypted_onboarding_token;
  onboarding_token_created_at = some now_iso;
  onboarding_token_expires_at = none;
  updated_at = now_iso;
}

-- What `reset_node_secret` does with the encrypted key and token that it drew, and
-- `regenerate_node_onboarding` under another name.
unfoldable pub renew_secret :
    AdminCall → (action node_id : String) → (key token : Text) → NodesState → NodeReply × NodesState
renew_secret c action node_id key token s = elim (find_node node_id s.store.nodes) [
  | none ↦ (node_not_found, s)
  | some row ↦ write_node c action node_id (set_secret key token c.now_iso) s
]
