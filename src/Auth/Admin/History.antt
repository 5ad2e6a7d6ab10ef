-- ===== src/Auth/Admin/History.antt =====
-- The turns of nodes, the pruning of nonces and administrators on the tables of
-- app/services/admin_nodes_service.py.
use gpufleet.Prelude.{String, Text, Bool, List, [], ◌∷◌, ℕ}
use gpufleet.Auth.Nodes.{
  NodeRow, NodeStore, HeartbeatFields, record_heartbeat, prune_expired_nonces,
}
use gpufleet.Auth.Request.{Environment, Request, authenticate_node}
use gpufleet.Auth.Admin.{
  NodesState, AdminCall, NodeUpdateRequest, update_node, set_node_enabled,
  queue_fingerprint_refresh, renew_secret,
}
use gpufleet.Auth.Admin.Registry.{NodeCreateRequest, create_node, delete_node}

-- What happens to the tables, by nodes, by the scanner and by administrators.
pub data Turn : Type 0 where
  requests : Environment → Request → Turn
  beats : String → HeartbeatFields → NodeRow → Text → Turn
  prunes : Text → Turn
  updates : AdminCall → String → NodeUpdateRequest → Turn
  enables : AdminCall → String → Bool → Turn
  refreshes : AdminCall → String → Turn
  renews : AdminCall → (action node_id : String) → (key token : Text) → Turn
  creates : AdminCall → NodeCreateRequest → (key token : Text) → ℕ → Turn
  deletes : AdminCall → String → Turn

abbrev pub on_store : NodeStore → NodesState → NodesState
on_store store s = record s { store = store }

unfoldable pub turn : Turn → NodesState → NodesState
turn (requests env r) s = on_store (authenticate_node env s.store r).1 s
turn (beats j h node now_iso) s = on_store (record_heartbeat s.store j h node now_iso) s
turn (prunes now_iso) s = on_store (prune_expired_nonces s.store now_iso) s
turn (updates c j p) s = (update_node c j p s).1
turn (enables c j enabled) s = (set_node_enabled c j enabled s).1
turn (refreshes c j) s = (queue_fingerprint_refresh c j s).1
turn (renews c action j key token) s = (renew_secret c action j key token s).1
turn (creates c p key token id) s = (create_node c p key token id s).1
turn (deletes c j) s = (delete_node c j s).1

unfoldable pub turns : List Turn → NodesState → NodesState
turns [] s = s
turns (x ∷ rest) s = turns rest (turn x s)
