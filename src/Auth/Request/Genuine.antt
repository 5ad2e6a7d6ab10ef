-- ===== src/Auth/Request/Genuine.antt =====
-- Accepted requests at `authenticate_node` of app/services/node_runtime_service.py.
use gpufleet.Prelude.{
  ℕ, suc, ◌≤◌, ◌*◌, Text, codes, true, false, ◌≡◌, refl, Option-cases, Bool-cases, inl, inr, some,
  [], ◌∷◌, ◌++◌, arith, ltb, ◌⊎◌, any, count_where, update_where, text_eq, text_eq→eq, ◌==◌, sym,
  subst,
}
use gpufleet.Auth.Keys.{
  KeySource, KeyResult, decrypted, value_error, invalid_tag, plain, from_node_key_secret,
  from_jwt_secret, encrypt_node_signing_key, sign_node_request,
}
use gpufleet.Auth.Nodes.{NodeRow, NodeStore, find_enabled}
use gpufleet.Auth.Request.{
  Environment, Request, Headers, accepted, headers, parse_timestamp, skew, node_key, record_request,
  check_signature, check_key, authenticate_headers, authenticate_node, set_key, same_row,
  uses_nonce, may_advance, new_nonce, set_last_request,
}

-- The INSERT and the UPDATE took place, the latter on one row.
pub record Recorded (env : Environment) (h : Headers) (s s' : NodeStore) : Type 0 where
  pub unused : any (uses_nonce h) s.nonces ≡ false
  pub one : count_where (may_advance h) s.nodes ≡ 1
  pub nodes : s'.nodes ≡ update_where (may_advance h) (set_last_request h env.now_iso) s.nodes
  pub nonces : s'.nonces ≡ s.nonces ++ new_nonce env h ∷ []

-- The rows as they were read, or with the node's key encrypted anew.
pub record SameButKey (env : Environment) (node : NodeRow) (s s1 : NodeStore) : Type 0 where
  pub nonces : s1.nonces ≡ s.nonces
  pub rows :
      (s1.nodes ≡ s.nodes)
      ⊎ ((token : Text) × (s1.nodes
            ≡ update_where (same_row node) (set_key token env.now_iso) s.nodes))

abbrev pub expected_signature : Environment → Request → Headers → Text → Text
expected_signature env r h key =
    sign_node_request env.crypto key (codes h.node_id) h.timestamp h.nonce
      (env.crypto.hex (env.crypto.sha256 r.body))

-- A request of an enabled node, sent about now, signed with its key, with a new nonce and a
-- timestamp behind all earlier ones.
pub record Genuine (env : Environment) (s : NodeStore) (r : Request) (node : NodeRow)
    (s' : NodeStore) : Type 0 where
  pub head : Headers
  pub complete : headers r ≡ some head
  pub enabled : find_enabled head.node_id s.nodes ≡ some node
  pub time : ℕ
  pub parsed : parse_timestamp env head.timestamp ≡ some time
  pub near : skew env.now time ≤ env.node_allowed_clock_skew_sec * 1000000
  pub key : Text
  pub source : KeySource
  pub opened : node_key env node ≡ decrypted key source
  pub signed : head.signature ≡ expected_signature env r head key
  pub before : NodeStore
  pub kept : SameButKey env node s before
  pub recorded : Recorded env head before s'

-- The part that a request shows behind its key.
record Signed (env : Environment) (s : NodeStore) (r : Request) (h : Headers) (node : NodeRow)
    (key : Text) (found : NodeRow) (s' : NodeStore) : Type 0 where
  same_node : found ≡ node
  signed : h.signature ≡ expected_signature env r h key
  before : NodeStore
  kept : SameButKey env node s before
  recorded : Recorded env h before s'

record_request-Recorded :
    (env : Environment) (s s1 : NodeStore) (h : Headers) (node found : NodeRow) (s' : NodeStore)
    → record_request env s s1 h node ≡ (accepted found, s')
    → (found ≡ node) × Recorded env h s1 s'
unfolding record_request
record_request-Recorded env s s1 h node found s' e =
    elim (Bool-cases (any (uses_nonce h) s1.nonces)) [
      | inl used ↦ absurd (ground arith)
      | inr unused ↦ elim (Bool-cases (count_where (may_advance h) s1.nodes == 1)) [
        | inl one ↦ (
          ground arith,
          record {
            unused = unused;
            one = ground arith;
            nodes = ground arith;
            nonces = ground arith;
          },
        )
        | inr stale ↦ absurd (ground arith)
      ]
    ]

check_signature-Signed :
    (env : Environment) (s s0 s1 : NodeStore) (r : Request) (h : Headers) (node : NodeRow)
    (key : Text) (found : NodeRow) (s' : NodeStore)
    → SameButKey env node s s1
    → check_signature env s0 s1 r h node key ≡ (accepted found, s')
    → Signed env s r h node key found s'
unfolding check_signature
check_signature-Signed env s s0 s1 r h node [] found s' kept e = absurd (ground arith)
check_signature-Signed env s s0 s1 r h node (k ∷ key) found s' kept e =
    let passed : text_eq (expected_signature env r h (k ∷ key)) h.signature ≡ true = ground arith in
    let (same_node, recorded) = record_request-Recorded env s0 s1 h node found s' (ground arith) in
    record {
      same_node = same_node;
      signed = sym (text_eq→eq (expected_signature env r h (k ∷ key)) h.signature passed);
      before = s1;
      kept = kept;
      recorded = recorded;
    }

unchanged : (env : Environment) (node : NodeRow) (s : NodeStore) → SameButKey env node s s
unchanged env node s = record { nonces = refl; rows = inl refl }

check_key-Signed :
    (env : Environment) (s : NodeStore) (r : Request) (h : Headers) (node : NodeRow)
    (opened : KeyResult) (found : NodeRow) (s' : NodeStore)
    → check_key env s r h node opened ≡ (accepted found, s')
    → (key : Text) × (source : KeySource) × (opened ≡ decrypted key source)
      × Signed env s r h node key found s'
unfolding check_key
check_key-Signed env s r h node value_error found s' e = absurd (ground arith)
check_key-Signed env s r h node invalid_tag found s' e = absurd (ground arith)
check_key-Signed env s r h node (decrypted key plain) found s' e = (
  key,
  plain,
  refl,
  check_signature-Signed env s s s r h node key found s' (unchanged env node s) e,
)
check_key-Signed env s r h node (decrypted key from_node_key_secret) found s' e = (
  key,
  from_node_key_secret,
  refl,
  check_signature-Signed env s s s r h node key found s' (unchanged env node s) e,
)
check_key-Signed env s r h node (decrypted key from_jwt_secret) found s' e =
    elim (Option-cases (encrypt_node_signing_key env.crypto env.keys env.random_nonce key)) [
      | inl none_set ↦ absurd (ground arith)
      | inr (token, q) ↦ (
        key,
        from_jwt_secret,
        refl,
        check_signature-Signed env s (record s { legacy_fallbacks = suc s.legacy_fallbacks })
            (record s {
              nodes = update_where (same_row node) (set_key token env.now_iso) s.nodes;
              legacy_fallbacks = suc s.legacy_fallbacks;
            })
            r h node key found s' (record { nonces = refl; rows = inr (token, refl) })
            (ground arith),
      )
    ]

authenticate_headers-Genuine :
    (env : Environment) (s : NodeStore) (r : Request) (h : Headers) (found : NodeRow)
    (s' : NodeStore)
    → headers r ≡ some h
    → authenticate_headers env s r h ≡ (accepted found, s')
    → Genuine env s r found s'
unfolding authenticate_headers
authenticate_headers-Genuine env s r h found s' complete e =
    elim (Option-cases (parse_timestamp env h.timestamp)) [
      | inl bad ↦ absurd (ground arith)
      | inr (t, parsed) ↦
          elim (Bool-cases (ltb (env.node_allowed_clock_skew_sec * 1000000) (skew env.now t))) [
            | inl far ↦ absurd (ground arith)
            | inr near ↦ elim (Option-cases (find_enabled h.node_id s.nodes)) [
              | inl missing ↦ absurd (ground arith)
              | inr (node, enabled) ↦
                  let (key, source, opened, signed) =
                    check_key-Signed env s r h node (node_key env node) found s' (ground arith) in
                  let same_node = signed.same_node in
                  record {
                    head = h;
                    complete = complete;
                    enabled = rw same_node enabled;
                    time = t;
                    parsed = parsed;
                    near = ground arith;
                    key = key;
                    source = source;
                    opened =
                        subst (λ n. node_key env n ≡ decrypted key source) (sym same_node) opened;
                    signed = signed.signed;
                    before = signed.before;
                    kept =
                        subst (λ n. SameButKey env n s signed.before) (sym same_node) signed.kept;
                    recorded = signed.recorded;
                  }
            ]
          ]
    ]

-- Whoever is accepted is an enabled node whose request carries the signature of its body under the
-- node's key, a timestamp within the allowed skew, a nonce that the node has not in the table, and a
-- timestamp that advanced exactly one row of the node; nonce and timestamp are then on record.
pub authenticate_node-Genuine :
    (env : Environment) (s : NodeStore) (r : Request) (node : NodeRow) (s' : NodeStore)
    → authenticate_node env s r ≡ (accepted node, s')
    → Genuine env s r node s'
unfolding authenticate_node
authenticate_node-Genuine env s r node s' e = elim (Option-cases (headers r)) [
  | inl missing ↦ absurd (ground arith)
  | inr (h, complete) ↦ authenticate_headers-Genuine env s r h node s' complete (ground arith)
]
