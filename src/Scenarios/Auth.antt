-- ===== src/Scenarios/Auth.antt =====
-- A node that sends one request twice. The libraries are stood in for by simple functions: a digest
-- is the key with the message behind it, and a sealed text has a tag of 16 zeros.
use gpufleet.Prelude.{
  ◌-◌, Text, codes, true, false, ◌≡◌, refl, none, some, [], ◌∷◌, ◌++◌, length, take, arith, ap,
  length-append, same, text_eq, text_lt,
}
use gpufleet.Auth.Keys.{
  Bytes, Crypto, KeySettings, decrypted, from_node_key_secret, xor_with_keystream, message,
  sign_node_request, encrypt_node_signing_key, decrypt_node_signing_key_with_metadata,
}
use gpufleet.Auth.Keys.Keystream.{HasDigest, xor_with_keystream_inverse}
use gpufleet.Auth.Keys.Sealed.{RoundTrips, encrypt-decrypt, take-append}
use gpufleet.Scenarios.Rows.{node}
use gpufleet.Auth.Nodes.{NodeStore, find_enabled, prune_expired_nonces}
use gpufleet.Auth.Request.{
  Request, Headers, Environment, aware, accepted, parse_timestamp, node_key, check_key,
  check_signature, record_request, authenticate_headers, authenticate_node,
}
use gpufleet.Auth.Request.Rollback.{is_accepted, RolledBack, authenticate_node-RolledBack}
use gpufleet.Auth.Request.Genuine.{Genuine, authenticate_node-Genuine}
use gpufleet.Auth.Request.Replay.{same_state, after, prune}
use gpufleet.Auth.Request.Replay.Once.{replay_refused}

abbrev zeros : Bytes
zeros = 0 ∷ 0 ∷ 0 ∷ 0 ∷ 0 ∷ 0 ∷ 0 ∷ 0 ∷ 0 ∷ 0 ∷ 0 ∷ 0 ∷ 0 ∷ 0 ∷ 0 ∷ 0 ∷ []

abbrev crypto : Crypto
crypto = record {
  sha256 = λ bytes. bytes;
  hmac_sha256 = λ key text. 1 ∷ key ++ text;
  hex = λ bytes. bytes;
  aesgcm_encrypt = λ key nonce plaintext associated. plaintext ++ zeros;
  aesgcm_decrypt =
      λ key nonce ciphertext associated. some (take (length ciphertext - 16) ciphertext);
  urlsafe_b64encode = λ bytes. bytes;
  urlsafe_b64decode = λ text. some text;
  encode = λ text. text;
  decode = λ bytes. some bytes;
}

abbrev keys : KeySettings
keys = record {
  node_key_encryption_secret = codes "secret";
  jwt_secret = codes "jwt";
  node_key_v1_fallback_enabled = true;
}

crypto-HasDigest : HasDigest crypto
crypto-HasDigest key text = omega arith

crypto-RoundTrips : RoundTrips crypto
crypto-RoundTrips = record {
  opens = λ key nonce plaintext associated. ap some (
      take-append (length (plaintext ++ zeros) - 16) plaintext zeros
        (ground (arith, length-append {0} plaintext zeros)));
  tagged = λ key nonce plaintext associated. ground (arith, length-append {0} plaintext zeros);
  base64 = λ bytes. refl;
  text = λ t. refl;
}

xor_with_keystream_inverse_example :
    xor_with_keystream crypto
      (xor_with_keystream crypto (1 ∷ 255 ∷ 77 ∷ []) (codes "k") (codes "n"))
      (codes "k")
      (codes "n")
    ≡ 1 ∷ 255 ∷ 77 ∷ []
xor_with_keystream_inverse_example =
    xor_with_keystream_inverse crypto (1 ∷ 255 ∷ 77 ∷ []) (codes "k") (codes "n") crypto-HasDigest
      (ground arith)

encrypt-decrypt_example :
    (token : Text) × (encrypt_node_signing_key crypto keys (codes "twelve bytes") (codes "key")
      ≡ some token)
    × (decrypt_node_signing_key_with_metadata crypto keys token
        ≡ decrypted (codes "key") from_node_key_secret)
encrypt-decrypt_example =
    encrypt-decrypt crypto keys (codes "twelve bytes") (codes "key") crypto-RoundTrips
      (unfold text_eq in refl) refl

abbrev pub environment : Environment
environment = record {
  crypto = crypto;
  fromisoformat = λ t. some (aware 5000000);
  isoformat = λ t. codes "2026-01-01T00:10:00+00:00";
  now = 6000000;
  now_iso = codes "2026-01-01T00:00:06+00:00";
  random_nonce = codes "twelve bytes";
  keys = keys;
  node_allowed_clock_skew_sec = 30;
  nonce_ttl_sec = 600;
}

abbrev pub store : NodeStore
store = record { nodes = node ∷ []; nonces = []; legacy_fallbacks = 0 }

abbrev head : Headers
head = record {
  node_id = "a";
  timestamp = codes "2026-01-01T00:00:05+00:00";
  nonce = codes "n1";
  signature =
      1 ∷ codes "ka"
      ++ 10 ∷ codes "2026-01-01T00:00:05+00:00"
      ++ 10 ∷ codes "n1"
      ++ 10 ∷ codes "{}";
}

abbrev pub request : Request
request = record {
  x_node_id = some "a";
  x_timestamp = some head.timestamp;
  x_nonce = some head.nonce;
  x_signature = some head.signature;
  body = codes "{}";
}

abbrev passed_store : NodeStore
passed_store = (authenticate_node environment store request).1

request_accepted : authenticate_node environment store request ≡ (accepted node, passed_store)
unfolding authenticate_node authenticate_headers parse_timestamp node_key check_key check_signature
    record_request find_enabled sign_node_request message same text_eq text_lt
request_accepted = refl

authenticate_node-Genuine_example : Genuine environment store request node passed_store
authenticate_node-Genuine_example =
    authenticate_node-Genuine environment store request node passed_store request_accepted

-- The nonce is pruned before the request comes again.
replay_refused_example :
    is_accepted
      (authenticate_node environment
        (prune_expired_nonces passed_store (codes "2027-01-01T00:00:00+00:00"))
        request).0
    ≡ false
replay_refused_example =
    replay_refused environment store request head node passed_store
      (prune_expired_nonces passed_store (codes "2027-01-01T00:00:00+00:00")) environment request
      head (unfold same in refl) (unfold same in refl) request_accepted
      (after same_state (prune (codes "2027-01-01T00:00:00+00:00"))) (unfold same in refl) refl
      (unfold text_lt in refl)

-- Without a nonce.
abbrev incomplete : Request
incomplete = record request { x_nonce = none }

incomplete_refused : is_accepted (authenticate_node environment store incomplete).0 ≡ false
unfolding authenticate_node
incomplete_refused = refl

authenticate_node-RolledBack_example :
    RolledBack store (authenticate_node environment store incomplete).1
authenticate_node-RolledBack_example =
    authenticate_node-RolledBack environment store incomplete incomplete_refused
