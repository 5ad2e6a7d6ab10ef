-- ===== src/Auth/Request/Rollback.antt =====
-- Refused requests at `authenticate_node` of app/services/node_runtime_service.py.
use gpufleet.Prelude.{
  suc, ◌≤◌, Text, Bool, true, false, ◌≡◌, refl, Option-cases, Bool-cases, inl, inr, [], ◌∷◌, arith,
  ltb, ◌+◌, ◌*◌,
}
use gpufleet.Auth.Keys.{
  KeyResult, decrypted, value_error, invalid_tag, plain, from_node_key_secret, from_jwt_secret,
  encrypt_node_signing_key,
}
use gpufleet.Auth.Nodes.{NodeRow, NodeStore, find_enabled}
use gpufleet.Auth.Request.{
  Environment, Request, Headers, AuthReply, accepted, headers, parse_timestamp, skew, node_key,
  record_request, check_signature, check_key, authenticate_headers, authenticate_node,
}

abbrev pub is_accepted : AuthReply → Bool
is_accepted (accepted node) = true
is_accepted _ = false

-- The tables of `s`, and at most one more use of the older secret on the counter.
pub record RolledBack (s s' : NodeStore) : Type 0 where
  pub same_nodes : s'.nodes ≡ s.nodes
  pub same_nonces : s'.nonces ≡ s.nonces
  pub counted : s.legacy_fallbacks ≤ s'.legacy_fallbacks
  pub at_most_once : s'.legacy_fallbacks ≤ s.legacy_fallbacks + 1

nothing_done : (s : NodeStore) → RolledBack s s
nothing_done s = record {
  same_nodes = refl;
  same_nonces = refl;
  counted = omega arith;
  at_most_once = omega arith;
}

-- Accepted, or in the state to which a rollback leads.
abbrev Safe : NodeStore → AuthReply × NodeStore → Type 0
Safe s (reply, s') = is_accepted reply ≡ false → RolledBack s s'

record_request-Safe :
    (env : Environment) (s s1 s2 : NodeStore) (h : Headers) (node : NodeRow)
    → RolledBack s s1
    → Safe s (record_request env s1 s2 h node)
unfolding record_request
record_request-Safe env s s1 s2 h node back = ground (arith, back)

check_signature-Safe :
    (env : Environment) (s s1 s2 : NodeStore) (r : Request) (h : Headers) (node : NodeRow)
    (key : Text)
    → RolledBack s s1
    → Safe s (check_signature env s1 s2 r h node key)
unfolding check_signature
check_signature-Safe env s s1 s2 r h node [] back = λ e. back
check_signature-Safe env s s1 s2 r h node (k ∷ key) back =
    ground (arith, back, record_request-Safe env s s1 s2 h node back)

check_key-Safe :
    (env : Environment) (s : NodeStore) (r : Request) (h : Headers) (node : NodeRow)
    (opened : KeyResult)
    → Safe s (check_key env s r h node opened)
unfolding check_key
check_key-Safe env s r h node value_error = λ e. nothing_done s
check_key-Safe env s r h node invalid_tag = λ e. nothing_done s
check_key-Safe env s r h node (decrypted key plain) =
    check_signature-Safe env s s s r h node key (nothing_done s)
check_key-Safe env s r h node (decrypted key from_node_key_secret) =
    check_signature-Safe env s s s r h node key (nothing_done s)
check_key-Safe env s r h node (decrypted key from_jwt_secret) =
    let counted : NodeStore = record s { legacy_fallbacks = suc s.legacy_fallbacks } in
    let back : RolledBack s counted = record {
      same_nodes = refl;
      same_nonces = refl;
      counted = omega arith;
      at_most_once = omega arith;
    } in
    elim (Option-cases (encrypt_node_signing_key env.crypto env.keys env.random_nonce key)) [
      | inl e ↦ rw (e, check_key) (λ refused. back)
      | inr (token, e) ↦ rw (e, check_key) (check_signature-Safe env s counted _ r h node key back)
    ]

authenticate_headers-Safe :
    (env : Environment) (s : NodeStore) (r : Request) (h : Headers)
    → Safe s (authenticate_headers env s r h)
unfolding authenticate_headers
authenticate_headers-Safe env s r h = elim (Option-cases (parse_timestamp env h.timestamp)) [
  | inl e ↦ rw (e, authenticate_headers) (λ refused. nothing_done s)
  | inr (t, e) ↦
      elim (Bool-cases (ltb (env.node_allowed_clock_skew_sec * 1000000) (skew env.now t))) [
        | inl far ↦ rw (e, far, authenticate_headers) (λ refused. nothing_done s)
        | inr near ↦ elim (Option-cases (find_enabled h.node_id s.nodes)) [
          | inl f ↦ rw (e, near, f, authenticate_headers) (λ refused. nothing_done s)
          | inr (node, f) ↦
              rw (e, near, f, authenticate_headers)
                (check_key-Safe env s r h node (node_key env node))
        ]
      ]
]

-- A request that is refused, or that ends in a server error, changes no node and no nonce; all it
-- may leave is one more use of the older secret on the counter.
pub authenticate_node-RolledBack :
    (env : Environment) (s : NodeStore) (r : Request)
    → is_accepted (authenticate_node env s r).0 ≡ false
    → RolledBack s (authenticate_node env s r).1
unfolding authenticate_node
authenticate_node-RolledBack env s r = elim (Option-cases (headers r)) [
  | inl e ↦ rw (e, authenticate_node) (λ refused. nothing_done s)
  | inr (h, e) ↦ rw (e, authenticate_node) (authenticate_headers-Safe env s r h)
]
