-- ===== src/Auth/Admin/Disabled/Refused.antt =====
-- Requests of disabled nodes (app/services/admin_nodes_service.py, app/services/node_runtime_service.py).
use gpufleet.Prelude.{
  ◌*◌, String, Text, false, ◌≡◌, refl, Option, none, some, List, [], ◌∷◌, any, ltb, Bool-cases,
  Option-cases, inl, inr, arith,
}
use gpufleet.Auth.Nodes.{NodeStore}
use gpufleet.Auth.Request.{
  Environment, Request, Headers, all_headers, headers, parse_timestamp, skew, authenticate_headers,
  authenticate_node,
}
use gpufleet.Auth.Request.Rollback.{is_accepted}
use gpufleet.Auth.Admin.{NodesState, AdminCall, set_node_enabled}
use gpufleet.Auth.Admin.History.{Turn, turns}
use gpufleet.Auth.Admin.Disabled.{Dead, find_enabled-Dead}
use gpufleet.Auth.Admin.Disabled.Turns.{re_enables, turns-Dead, disabled-Dead}

node_id-all_headers :
    (i : Option String) (t n g : Option Text) (h : Headers) (j : String)
    → all_headers i t n g ≡ some h
    → i ≡ some j
    → h.node_id ≡ j
node_id-all_headers none t n g h j e named = absurd (ground (arith, e))
node_id-all_headers (some i) none n g h j e named = absurd (ground (arith, e))
node_id-all_headers (some i) (some []) n g h j e named = absurd (ground (arith, e))
node_id-all_headers (some i) (some (t ∷ ts)) none g h j e named = absurd (ground (arith, e))
node_id-all_headers (some i) (some (t ∷ ts)) (some []) g h j e named = absurd (ground (arith, e))
node_id-all_headers (some i) (some (t ∷ ts)) (some (n ∷ ns)) none h j e named =
    absurd (ground (arith, e))
node_id-all_headers (some i) (some (t ∷ ts)) (some (n ∷ ns)) (some []) h j e named =
    absurd (ground (arith, e))
node_id-all_headers (some i) (some (t ∷ ts)) (some (n ∷ ns)) (some (g ∷ gs)) h j e named =
    ground (arith, e, named)

authenticate_headers-refused :
    (env : Environment) (s : NodeStore) (r : Request) (h : Headers)
    → Dead h.node_id s
    → is_accepted (authenticate_headers env s r h).0 ≡ false
unfolding authenticate_headers
authenticate_headers-refused env s r h dead =
    elim (Option-cases (parse_timestamp env h.timestamp)) [
      | inl e ↦ rw (e, authenticate_headers) refl
      | inr (t, e) ↦
          elim (Bool-cases (ltb (env.node_allowed_clock_skew_sec * 1000000) (skew env.now t))) [
            | inl far ↦ rw (e, far, authenticate_headers) refl
            | inr near ↦
                rw (e, near, find_enabled-Dead h.node_id s.nodes dead, authenticate_headers) refl
          ]
    ]

authenticate_node-refused :
    (env : Environment) (j : String) (s : NodeStore) (r : Request)
    → Dead j s
    → r.x_node_id ≡ some j
    → is_accepted (authenticate_node env s r).0 ≡ false
unfolding authenticate_node
authenticate_node-refused env j s r dead named = elim (Option-cases (headers r)) [
  | inl e ↦ rw (e, authenticate_node) refl
  | inr (h, e) ↦
      let it : h.node_id ≡ j = node_id-all_headers _ _ _ _ h j e named in
      rw (e, authenticate_node) (authenticate_headers-refused env s r h (rw it dead))
]

-- From the moment an administrator disables a node, none of its requests is accepted, whatever nodes,
-- the scanner's pruning of nonces and administrators do in between, deletions and registrations of nodes
-- included, unless an administrator enables the node again or registers a node of its name.
pub disabled_refused :
    (j : String) (c : AdminCall) (l : List Turn) (s : NodesState) (env : Environment) (r : Request)
    → any (re_enables j) l ≡ false
    → r.x_node_id ≡ some j
    → is_accepted (authenticate_node env (turns l (set_node_enabled c j false s).1).store r).0
      ≡ false
disabled_refused j c l s env r calm named =
    authenticate_node-refused env j (turns l (set_node_enabled c j false s).1).store r
      (turns-Dead j l (set_node_enabled c j false s).1 calm (disabled-Dead j c s)) named
