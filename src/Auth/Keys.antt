-- ===== src/Auth/Keys.antt =====
-- app/security.py: signing keys at rest (`encrypt_node_signing_key`,
-- `decrypt_node_signing_key_with_metadata`) and signed requests (`sign_node_request`).
-- hashlib, hmac, base64, the text codecs and AESGCM are a parameter, `Crypto`.
pub mod Keystream
pub mod Sealed
use gpufleet.Prelude.{
  ℕ, zero, suc, ◌+◌, ◌-◌, ◌*◌, ◌/◌, ◌%◌, Text, codes, Bool, true, false, ◌&&◌, not, Option, none,
  some, List, [], ◌∷◌, ◌++◌, length, take, drop, take_last, ltb, if◌then◌else◌, text_eq,
}

abbrev pub Bytes : Type 0
Bytes = List ℕ

pub record Crypto : Type 0 where
  pub sha256 : Bytes → Bytes
  pub hmac_sha256 : Bytes → Bytes → Bytes
  pub hex : Bytes → Text
  pub aesgcm_encrypt : (key nonce plaintext associated : Bytes) → Bytes
  -- None stands for InvalidTag, which is no ValueError.
  pub aesgcm_decrypt : (key nonce ciphertext associated : Bytes) → Option Bytes
  pub urlsafe_b64encode : Bytes → Text
  -- None stands for a ValueError, here and in `decode`.
  pub urlsafe_b64decode : Text → Option Bytes
  pub encode : Text → Bytes
  pub decode : Bytes → Option Text

pub record KeySettings : Type 0 where
  pub node_key_encryption_secret : Text
  pub jwt_secret : Text
  pub node_key_v1_fallback_enabled : Bool

-- Which secret opened the key; `plain` where the key was stored in the clear.
pub data KeySource : Type 0 where
  plain from_node_key_secret from_jwt_secret : KeySource

pub data KeyResult : Type 0 where
  decrypted : Text → KeySource → KeyResult
  value_error invalid_tag : KeyResult

abbrev pub is_set : Text → Bool
is_set [] = false
is_set (c ∷ secret) = not (text_eq (c ∷ secret) (codes "__NOT_SET__"))

abbrev pub starts_with : Text → Text → Bool
starts_with prefix t = text_eq (take (length prefix) t) prefix

unfoldable pub node_encryption_key : Crypto → KeySettings → Option Bytes
node_encryption_key c k =
    if is_set k.node_key_encryption_secret
    then some (c.sha256 (c.encode k.node_key_encryption_secret))
    else none

-- `a ^ b` on the low `w` bits.
unfoldable pub xor : ℕ → ℕ → ℕ → ℕ
xor zero a b = 0
xor (suc w) a b = (a % 2 + b % 2) % 2 + 2 * xor w (a / 2) (b / 2)

-- counter.to_bytes(4, "big")
abbrev pub big_endian : ℕ → Bytes
big_endian n = n / 16777216 % 256 ∷ n / 65536 % 256 ∷ n / 256 % 256 ∷ n % 256 ∷ []

-- while len(output) < len(payload): a block has a byte at least, so the payload's length is fuel
-- enough.
unfoldable pub keystream : ℕ → Crypto → Bytes → Bytes → ℕ → ℕ → Bytes → Bytes
keystream zero c key nonce size counter output = output
keystream (suc fuel) c key nonce size counter output =
    let block = c.hmac_sha256 key (nonce ++ big_endian counter) in
    let rest = keystream fuel c key nonce size (suc counter) (output ++ block) in
    if ltb (length output) size then rest else output

-- zip
unfoldable pub xor_bytes : Bytes → Bytes → Bytes
xor_bytes [] output = []
xor_bytes (a ∷ payload) [] = []
xor_bytes (a ∷ payload) (b ∷ output) = xor 8 a b ∷ xor_bytes payload output

unfoldable pub xor_with_keystream : Crypto → Bytes → Bytes → Bytes → Bytes
xor_with_keystream c payload key nonce =
    let output = keystream (length payload) c key nonce (length payload) 0 [] in
    xor_bytes payload (take (length payload) output)

-- The random nonce is an argument. None is the ValueError of a secret that is not set.
unfoldable pub encrypt_node_signing_key : Crypto → KeySettings → Bytes → Text → Option Text
encrypt_node_signing_key c k nonce signing_key = elim (node_encryption_key c k) [
  | none ↦ none
  | some key ↦
      let ciphertext =
        c.aesgcm_encrypt key nonce (c.encode signing_key)
          (c.encode (codes "gpufleet-node-key-v2")) in
      some (codes "v2:" ++ c.urlsafe_b64encode (nonce ++ ciphertext))
]

abbrev pub decoded : Crypto → Bytes → KeySource → KeyResult
decoded c plaintext source = elim (c.decode plaintext) [
  | none ↦ value_error
  | some key ↦ decrypted key source
]

unfoldable pub open_v2 : Crypto → KeySettings → Bytes → KeyResult
open_v2 c k raw = if ltb (length raw) 28 then value_error else elim (node_encryption_key c k) [
  | none ↦ value_error
  | some key ↦
      elim (c.aesgcm_decrypt key (take 12 raw) (drop 12 raw)
        (c.encode (codes "gpufleet-node-key-v2"))) [
          | none ↦ invalid_tag
          | some plaintext ↦ decoded c plaintext from_node_key_secret
        ]
]

-- for source, secret in secrets_to_try
unfoldable pub try_secrets : Crypto → Bytes → Bytes → Bytes → List (KeySource × Text) → KeyResult
try_secrets c nonce ciphertext tag [] = value_error
try_secrets c nonce ciphertext tag ((source, secret) ∷ secrets) =
    let rest = try_secrets c nonce ciphertext tag secrets in
    let key = c.sha256 (c.encode secret) in
    let expected_tag =
      c.hmac_sha256 key (c.encode (codes "gpufleet-node-key-v1") ++ nonce ++ ciphertext) in
    if is_set secret && text_eq expected_tag tag
    then decoded c (xor_with_keystream c ciphertext key nonce) source
    else rest

abbrev pub secrets_to_try : KeySettings → List (KeySource × Text)
secrets_to_try k =
    (from_node_key_secret, k.node_key_encryption_secret)
    ∷ (if k.node_key_v1_fallback_enabled && not (text_eq k.jwt_secret k.node_key_encryption_secret)
        then (from_jwt_secret, k.jwt_secret) ∷ []
        else [])

unfoldable pub open_v1 : Crypto → KeySettings → Bytes → KeyResult
open_v1 c k raw =
    if ltb (length raw) 48
    then value_error
    else try_secrets c (take 16 raw) (take (length raw - 48) (drop 16 raw)) (take_last 32 raw)
        (secrets_to_try k)

unfoldable pub decrypt_node_signing_key_with_metadata : Crypto → KeySettings → Text → KeyResult
decrypt_node_signing_key_with_metadata c k token =
    let raw = c.urlsafe_b64decode (drop 3 token) in
    if starts_with (codes "v2:") token
    then elim raw [ none ↦ value_error | some bytes ↦ open_v2 c k bytes ]
    else if starts_with (codes "v1:") token
    then elim raw [ none ↦ value_error | some bytes ↦ open_v1 c k bytes ]
    else value_error

-- "\n".join([node_id, timestamp, nonce, body_hash])
unfoldable pub message : Text → Text → Text → Text → Text
message node_id timestamp nonce body_hash =
    node_id ++ 10 ∷ (timestamp ++ 10 ∷ (nonce ++ 10 ∷ body_hash))

unfoldable pub sign_node_request : Crypto → Text → Text → Text → Text → Text → Text
sign_node_request c key node_id timestamp nonce body_hash =
    c.hex (c.hmac_sha256 (c.encode key) (c.encode (message node_id timestamp nonce body_hash)))
