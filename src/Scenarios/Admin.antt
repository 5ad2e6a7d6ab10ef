-- ===== src/Scenarios/Admin.antt =====
-- A node is disabled and then sends a request, which is refused.
use gpufleet.Prelude.{false, true, ◌≡◌, refl, none, some, List, [], ◌∷◌, codes, any, same}
use gpufleet.Auth.Request.{authenticate_node}
use gpufleet.Auth.Request.Rollback.{is_accepted}
use gpufleet.Auth.Admin.{NodesState, AdminCall, NodeUpdateRequest, set_node_enabled}
use gpufleet.Auth.Admin.Registry.{NodeCreateRequest}
use gpufleet.Auth.Admin.History.{
  Turn, requests, updates, enables, refreshes, renews, creates, deletes, turns,
}
use gpufleet.Auth.Admin.Disabled.Turns.{re_enables}
use gpufleet.Auth.Admin.Disabled.Refused.{disabled_refused}
use gpufleet.Scenarios.Auth.{environment, store, request}

abbrev call : AdminCall
call = record { admin_id = "1"; detail_json = "{}"; now_iso = codes "2026-01-01T00:00:03+00:00" }

abbrev renamed : NodeUpdateRequest
renamed = record {
  display_name = some "B";
  os_type = none;
  hostname = none;
  heartbeat_interval_sec = none;
  allowed_workdirs = none;
  tags = none;
  is_enabled = none;
  allow_shell = none;
  allow_modal = none;
}

abbrev joined : NodeCreateRequest
joined = record {
  node_id = "b";
  display_name = "B";
  node_type = "physical";
  os_type = none;
  hostname = none;
  heartbeat_interval_sec = 5;
  allowed_workdirs = "[]";
  tags = "[]";
  allow_shell = false;
  allow_modal = false;
}

abbrev nodes_state : NodesState
nodes_state = record { store = store; audit_events = []; pending_fingerprint_refresh = [] }

abbrev later : List Turn
later =
    updates call "a" renamed
    ∷ enables call "b" true
    ∷ requests environment request
    ∷ refreshes call "a"
    ∷ creates call joined (codes "key") (codes "token") 2
    ∷ deletes call "b"
    ∷ renews call "reset_node_secret" "a" (codes "key") (codes "token")
    ∷ []

later_calm : any (re_enables "a") later ≡ false
unfolding re_enables same
later_calm = refl

disabled_refused_example :
    is_accepted
      (authenticate_node environment
        (turns later (set_node_enabled call "a" false nodes_state).1).store
        request).0
    ≡ false
disabled_refused_example =
    disabled_refused "a" call later nodes_state environment request later_calm refl
