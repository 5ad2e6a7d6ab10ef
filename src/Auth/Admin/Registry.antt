-- ===== src/Auth/Admin/Registry.antt =====
-- `create_node` and `delete_node` of app/services/admin_nodes_service.py. Of a deletion's cascades, the one
-- into the nonces is here; the one into the tasks is in Tasks/History.
use gpufleet.Prelude.{
  String, Text, Bool, true, not, Option, none, some, [], ◌∷◌, ◌++◌, ℕ, same, select,
}
use gpufleet.Auth.Nodes.{NodeRow}
use gpufleet.Auth.Admin.{
  NodesState, AdminCall, NodeReply, saved, deleted, duplicate_id, node_not_found, find_node,
  insert_node_audit,
}

-- The id of the row is given by the database, the encrypted key and token are drawn by the handler.
pub record NodeCreateRequest : Type 0 where
  pub node_id : String
  pub display_name : String
  pub node_type : String
  pub os_type : Option String
  pub hostname : Option String
  pub heartbeat_interval_sec : ℕ
  pub allowed_workdirs : String
  pub tags : String
  pub allow_shell : Bool
  pub allow_modal : Bool

unfoldable pub new_node : NodeCreateRequest → (key token now_iso : Text) → ℕ → NodeRow
new_node p key token now_iso id = record {
  id = id;
  node_id = p.node_id;
  display_name = p.display_name;
  node_signing_key = some [];
  encrypted_signing_key = some key;
  onboarding_token_encrypted = some token;
  onboarding_token_created_at = some now_iso;
  onboarding_token_expires_at = none;
  node_type = p.node_type;
  os_type = p.os_type;
  hostname = p.hostname;
  heartbeat_interval_sec = p.heartbeat_interval_sec;
  allowed_workdirs_json = p.allowed_workdirs;
  tags_json = p.tags;
  allow_shell = p.allow_shell;
  allow_modal = p.allow_modal;
  is_enabled = true;
  first_seen_at = none;
  last_seen_at = none;
  last_request_ts = none;
  last_boot_id = none;
  created_at = now_iso;
  updated_at = now_iso;
}

unfoldable pub insert_node : NodeRow → NodesState → NodesState
insert_node r s = record s { store = record s.store { nodes = s.store.nodes ++ r ∷ [] } }

unfoldable pub create_node :
    AdminCall → NodeCreateRequest → (key token : Text) → ℕ → NodesState → NodeReply × NodesState
create_node c p key token id s = elim (find_node p.node_id s.store.nodes) [
  | some row ↦ (duplicate_id, s)
  | none ↦
      let written =
        insert_node_audit c "create_node" p.node_id
          (insert_node (new_node p key token c.now_iso id) s) in
      (saved (find_node p.node_id written.store.nodes), written)
]

-- DELETE FROM nodes WHERE node_id = ?, which cascades into the nonces.
unfoldable pub remove_node : String → NodesState → NodesState
remove_node node_id s = record s {
  store = record s.store {
    nodes = select (λ r. not (same r.node_id node_id)) s.store.nodes;
    nonces = select (λ n. not (same n.node_id node_id)) s.store.nonces;
  };
}

unfoldable pub delete_node : AdminCall → String → NodesState → NodeReply × NodesState
delete_node c node_id s = elim (find_node node_id s.store.nodes) [
  | none ↦ (node_not_found, s)
  | some row ↦ (deleted, insert_node_audit c "delete_node" node_id (remove_node node_id s))
]
