-- ===== src/Auth/Admin/Disabled.antt =====
-- Nodes that an administrator disabled (app/services/admin_nodes_service.py), at `authenticate_node`.
pub mod Turns
pub mod Refused
use gpufleet.Prelude.{
  ℕ, suc, ◌+◌, ◌*◌, String, Text, Bool, true, false, ◌&&◌, ◌||◌, not, ◌≡◌, refl, sym, ap, ◌∙◌,
  Option, none, some, List, [], ◌∷◌, ◌++◌, same, same_iff, any, ltb, if◌then◌else◌, Bool-cases,
  Option-cases, inl, inr, arith, update_where, text_eq,
}
use gpufleet.Auth.Keys.{
  KeyResult, decrypted, value_error, invalid_tag, plain, from_node_key_secret, from_jwt_secret,
  encrypt_node_signing_key,
}
use gpufleet.Auth.Nodes.{
  NodeRow, NodeStore, find_enabled, set_seen, record_heartbeat, prune_expired_nonces,
}
use gpufleet.Auth.Request.{
  Environment, Request, Headers, AuthReply, accepted, headers, parse_timestamp, skew, node_key,
  may_advance, set_last_request, set_key, record_request, check_signature, check_key,
  authenticate_headers, authenticate_node,
}
use gpufleet.Auth.Request.Rollback.{is_accepted}

abbrev pub live : String → NodeRow → Bool
live j r = same r.node_id j && r.is_enabled

-- The node `j` has no row that is enabled.
abbrev pub Dead : String → NodeStore → Type 0
Dead j s = any (live j) s.nodes ≡ false

pub update-Dead :
    (j : String) (p : NodeRow → Bool) (f : NodeRow → NodeRow)
    → ((r : NodeRow) → p r ≡ true → live j r ≡ false → live j (f r) ≡ false)
    → (rows : List NodeRow) → any (live j) rows ≡ false
    → any (live j) (update_where p f rows) ≡ false
update-Dead j p f keeps [] h = refl
update-Dead j p f keeps (x ∷ rows) h = ground (arith, keeps x, update-Dead j p f keeps rows)

pub find_enabled-Dead :
    (j : String) (rows : List NodeRow) → any (live j) rows ≡ false → find_enabled j rows ≡ none
unfolding find_enabled
find_enabled-Dead j [] h = refl
find_enabled-Dead j (x ∷ rows) h = ground (arith, find_enabled-Dead j rows)

-- Whatever a request does, the node `j` stays without an enabled row.
module _ (env : Environment) (j : String) where
  record_request-Dead :
      (s s' : NodeStore) (h : Headers) (node : NodeRow)
      → Dead j s
      → Dead j s'
      → Dead j (record_request env s s' h node).1
  unfolding record_request
  record_request-Dead s s' h node dead dead' = ground (
    arith,
    dead,
    update-Dead j (may_advance h) (set_last_request h env.now_iso)
        (λ r p d. unfold set_last_request in d) s'.nodes dead',
  )

  check_signature-Dead :
      (s s' : NodeStore) (r : Request) (h : Headers) (node : NodeRow) (key : Text)
      → Dead j s
      → Dead j s'
      → Dead j (check_signature env s s' r h node key).1
  unfolding check_signature
  check_signature-Dead s s' r h node [] dead dead' = dead
  check_signature-Dead s s' r h node (k ∷ key) dead dead' =
      ground (arith, dead, record_request-Dead s s' h node dead dead')

  check_key-Dead :
      (s : NodeStore) (r : Request) (h : Headers) (node : NodeRow) (opened : KeyResult)
      → Dead j s
      → Dead j (check_key env s r h node opened).1
  unfolding check_key
  check_key-Dead s r h node value_error dead = dead
  check_key-Dead s r h node invalid_tag dead = dead
  check_key-Dead s r h node (decrypted key plain) dead =
      check_signature-Dead s s r h node key dead dead
  check_key-Dead s r h node (decrypted key from_node_key_secret) dead =
      check_signature-Dead s s r h node key dead dead
  check_key-Dead s r h node (decrypted key from_jwt_secret) dead =
      elim (Option-cases (encrypt_node_signing_key env.crypto env.keys env.random_nonce key)) [
        | inl e ↦ rw (e, check_key) dead
        | inr (token, e) ↦
            rw (e, check_key)
              (check_signature-Dead _ _ r h node key dead (
                update-Dead j _ (set_key token env.now_iso) (λ r p d. unfold set_key in d) s.nodes
                  dead))
      ]

  authenticate_headers-Dead :
      (s : NodeStore) (r : Request) (h : Headers)
      → Dead j s
      → Dead j (authenticate_headers env s r h).1
  unfolding authenticate_headers
  authenticate_headers-Dead s r h dead = elim (Option-cases (parse_timestamp env h.timestamp)) [
    | inl e ↦ rw (e, authenticate_headers) dead
    | inr (t, e) ↦
        elim (Bool-cases (ltb (env.node_allowed_clock_skew_sec * 1000000) (skew env.now t))) [
          | inl far ↦ rw (e, far, authenticate_headers) dead
          | inr near ↦ elim (Option-cases (find_enabled h.node_id s.nodes)) [
            | inl f ↦ rw (e, near, f, authenticate_headers) dead
            | inr (node, f) ↦
                rw (e, near, f, authenticate_headers)
                  (check_key-Dead s r h node (node_key env node) dead)
          ]
        ]
  ]

  pub authenticate_node-Dead :
      (s : NodeStore) (r : Request) → Dead j s → Dead j (authenticate_node env s r).1
  unfolding authenticate_node
  authenticate_node-Dead s r dead = elim (Option-cases (headers r)) [
    | inl e ↦ rw (e, authenticate_node) dead
    | inr (h, e) ↦ rw (e, authenticate_node) (authenticate_headers-Dead s r h dead)
  ]
