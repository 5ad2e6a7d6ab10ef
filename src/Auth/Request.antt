-- ===== src/Auth/Request.antt =====
-- app/services/node_runtime_service.py: `parse_timestamp` and `authenticate_node`.
-- The clock, the calendar of datetime and the random nonce of a key are parameters; instants are
-- microseconds.
pub mod Rollback
pub mod Genuine
pub mod Replay
use gpufleet.Prelude.{
  ℕ, suc, ◌+◌, ◌-◌, ◌*◌, ◌/◌, String, Text, codes, Bool, true, false, ◌&&◌, not, Option, none, some,
  List, [], ◌∷◌, ◌++◌, map, same, ltb, ◌==◌, if◌then◌else◌, any, count_where, update_where, text_eq,
  text_lt,
}
use gpufleet.Auth.Keys.{
  Bytes, Crypto, KeySettings, KeySource, plain, from_node_key_secret, from_jwt_secret, KeyResult,
  decrypted, value_error, invalid_tag, encrypt_node_signing_key,
  decrypt_node_signing_key_with_metadata, sign_node_request,
}
use gpufleet.Auth.Nodes.{NodeRow, NonceRow, NodeStore, find_enabled}

pub record Request : Type 0 where
  pub x_node_id : Option String
  pub x_timestamp : Option Text
  pub x_nonce : Option Text
  pub x_signature : Option Text
  pub body : Bytes

-- The headers, once none is missing.
pub record Headers : Type 0 where
  pub node_id : String
  pub timestamp : Text
  pub nonce : Text
  pub signature : Text

pub data AuthError : Type 0 where
  missing_headers invalid_timestamp timestamp_skew : AuthError
  node_not_found_or_disabled signing_key_unavailable invalid_signature : AuthError
  nonce_duplicate timestamp_replay : AuthError

-- `server_error` is an exception that is no ApiError.
pub data AuthReply : Type 0 where
  accepted : NodeRow → AuthReply
  denied : AuthError → AuthReply
  server_error : AuthReply

-- What `datetime.fromisoformat` reads: with a time zone, the instant; without one, the instant if
-- it is taken as UTC.
pub data Parsed : Type 0 where
  aware naive : ℕ → Parsed

pub record Environment : Type 0 where
  pub crypto : Crypto
  pub fromisoformat : Text → Option Parsed
  pub isoformat : ℕ → Text
  pub now : ℕ
  pub now_iso : Text
  pub random_nonce : Bytes
  pub keys : KeySettings
  pub node_allowed_clock_skew_sec : ℕ
  pub nonce_ttl_sec : ℕ

-- raw_timestamp.replace("Z", "+00:00")
abbrev pub replace_z : Text → Text
replace_z [] = []
replace_z (c ∷ t) = (if c == 90 then codes "+00:00" else c ∷ []) ++ replace_z t

abbrev pub instant : Parsed → ℕ
instant (aware t) = t
instant (naive t) = t

unfoldable pub parse_timestamp : Environment → Text → Option ℕ
parse_timestamp env raw = elim (env.fromisoformat (replace_z raw)) [
  | none ↦ none
  | some p ↦ some (instant p)
]

abbrev pub skew : ℕ → ℕ → ℕ
skew now t = (now - t) + (t - now)

-- not all([node_id, timestamp, nonce, signature]): an empty header is missing too.
abbrev pub all_headers : Option String → Option Text → Option Text → Option Text → Option Headers
all_headers (some j) (some (t ∷ ts)) (some (n ∷ ns)) (some (g ∷ gs)) =
    if same j ""
    then none
    else some (record { node_id = j; timestamp = t ∷ ts; nonce = n ∷ ns; signature = g ∷ gs })
all_headers _ _ _ _ = none

abbrev pub headers : Request → Option Headers
headers r = all_headers r.x_node_id r.x_timestamp r.x_nonce r.x_signature

abbrev pub or_empty : Option Text → Text
or_empty none = []
or_empty (some t) = t

-- The key as it is stored, in the clear only where no encrypted one is.
abbrev pub key_of : Environment → Text → Text → KeyResult
key_of env [] stored = decrypted stored plain
key_of env (c ∷ token) stored =
    decrypt_node_signing_key_with_metadata env.crypto env.keys (c ∷ token)

unfoldable pub node_key : Environment → NodeRow → KeyResult
node_key env node =
    key_of env (or_empty node.encrypted_signing_key) (or_empty node.node_signing_key)

abbrev is_ascii : Text → Bool
is_ascii t = not (any (λ c. ltb 127 c) t)

abbrev pub uses_nonce : Headers → NonceRow → Bool
uses_nonce h n = same n.node_id h.node_id && text_eq n.nonce h.nonce

-- last_request_ts IS NULL OR last_request_ts < ?
abbrev pub earlier : Option Text → Text → Bool
earlier none t = true
earlier (some last) t = text_lt last t

abbrev pub may_advance : Headers → NodeRow → Bool
may_advance h r =
    same r.node_id h.node_id && (r.is_enabled && earlier r.last_request_ts h.timestamp)

unfoldable pub set_last_request : Headers → Text → NodeRow → NodeRow
set_last_request h now_iso r = record r { last_request_ts = some h.timestamp; updated_at = now_iso }

abbrev pub new_nonce : Environment → Headers → NonceRow
new_nonce env h = record {
  node_id = h.node_id;
  nonce = h.nonce;
  timestamp_utc = h.timestamp;
  expires_at = env.isoformat (env.now / 1000000 + env.nonce_ttl_sec);
}

-- The INSERT and the UPDATE; `s` is what a rollback restores.
unfoldable pub record_request :
    Environment → NodeStore → NodeStore → Headers → NodeRow → AuthReply × NodeStore
record_request env s s' h node =
    if any (uses_nonce h) s'.nonces
    then (denied nonce_duplicate, s)
    else if count_where (may_advance h) s'.nodes == 1
    then (
      accepted node,
      record s' {
        nodes = update_where (may_advance h) (set_last_request h env.now_iso) s'.nodes;
        nonces = s'.nonces ++ new_nonce env h ∷ [];
      },
    )
    else (denied timestamp_replay, s)

-- hmac.compare_digest raises TypeError on a text that is not ASCII.
unfoldable pub check_signature :
    Environment → NodeStore → NodeStore → Request → Headers → NodeRow → Text → AuthReply × NodeStore
check_signature env s s' r h node [] = (denied signing_key_unavailable, s)
check_signature env s s' r h node (k ∷ key) =
    let body_hash = env.crypto.hex (env.crypto.sha256 r.body) in
    let expected =
      sign_node_request env.crypto (k ∷ key) (codes h.node_id) h.timestamp h.nonce body_hash in
    if not (is_ascii h.signature)
    then (server_error, s)
    else if text_eq expected h.signature
    then record_request env s s' h node
    else (denied invalid_signature, s)

abbrev pub same_row : NodeRow → NodeRow → Bool
same_row node r = r.id == node.id

unfoldable pub set_key : Text → Text → NodeRow → NodeRow
set_key token now_iso r = record r { encrypted_signing_key = some token; updated_at = now_iso }

-- A key that only the older secret opens is counted and encrypted anew.
unfoldable pub check_key :
    Environment → NodeStore → Request → Headers → NodeRow → KeyResult → AuthReply × NodeStore
check_key env s r h node value_error = (denied signing_key_unavailable, s)
check_key env s r h node invalid_tag = (server_error, s)
check_key env s r h node (decrypted key plain) = check_signature env s s r h node key
check_key env s r h node (decrypted key from_node_key_secret) = check_signature env s s r h node key
check_key env s r h node (decrypted key from_jwt_secret) =
    let counted = record s { legacy_fallbacks = suc s.legacy_fallbacks } in
    elim (encrypt_node_signing_key env.crypto env.keys env.random_nonce key) [
      | none ↦ (denied signing_key_unavailable, counted)
      | some token ↦
          let renewed = record counted {
            nodes = update_where (same_row node) (set_key token env.now_iso) s.nodes;
          } in
          check_signature env counted renewed r h node key
    ]

unfoldable pub authenticate_headers :
    Environment → NodeStore → Request → Headers → AuthReply × NodeStore
authenticate_headers env s r h = elim (parse_timestamp env h.timestamp) [
  | none ↦ (denied invalid_timestamp, s)
  | some request_time ↦
      if ltb (env.node_allowed_clock_skew_sec * 1000000) (skew env.now request_time)
      then (denied timestamp_skew, s)
      else elim (find_enabled h.node_id s.nodes) [
        | none ↦ (denied node_not_found_or_disabled, s)
        | some node ↦ check_key env s r h node (node_key env node)
      ]
]

unfoldable pub authenticate_node : Environment → NodeStore → Request → AuthReply × NodeStore
authenticate_node env s r = elim (headers r) [
  | none ↦ (denied missing_headers, s)
  | some h ↦ authenticate_headers env s r h
]
