-- ===== src/Auth/Keys/Sealed.antt =====
-- `encrypt_node_signing_key` of app/security.py followed by its decryption, and the message that a
-- signature covers.
use gpufleet.Prelude.{
  ℕ, ◌≤◌, Text, codes, Bool, true, false, ◌≡◌, refl, some, [], ◌∷◌, ◌++◌, length, take, drop, arith,
  ltb, length-append, any, ◌==◌, ap, text_eq,
}
use gpufleet.Auth.Keys.{
  Bytes, Crypto, KeySettings, decoded, decrypted, from_node_key_secret, is_set, node_encryption_key,
  encrypt_node_signing_key, open_v2, decrypt_node_signing_key_with_metadata, message,
}

-- What the libraries document: AES-GCM opens what it sealed and adds a tag of 16 bytes, and the
-- codecs read what they wrote.
pub record RoundTrips (c : Crypto) : Type 0 where
  pub opens :
      (key nonce plaintext associated : Bytes)
      → c.aesgcm_decrypt key nonce (c.aesgcm_encrypt key nonce plaintext associated) associated
        ≡ some plaintext
  pub tagged :
      (key nonce plaintext associated : Bytes)
      → 16 ≤ length (c.aesgcm_encrypt key nonce plaintext associated)
  pub base64 : (bytes : Bytes) → c.urlsafe_b64decode (c.urlsafe_b64encode bytes) ≡ some bytes
  pub text : (t : Text) → c.decode (c.encode t) ≡ some t

pub take-append : (n : ℕ) (xs ys : Bytes) → length xs ≡ n → take n (xs ++ ys) ≡ xs
take-append n [] ys h = rw (← h) refl
take-append n (x ∷ xs) ys h = rw (← h) (ap (λ t. x ∷ t) (take-append (length xs) xs ys refl))

pub drop-append : (n : ℕ) (xs ys : Bytes) → length xs ≡ n → drop n (xs ++ ys) ≡ ys
drop-append n [] ys h = rw (← h) refl
drop-append n (x ∷ xs) ys h = rw (← h) (drop-append (length xs) xs ys refl)

open_sealed :
    (c : Crypto) (k : KeySettings) (nonce : Bytes) (signing_key : Text)
    → RoundTrips c
    → is_set k.node_key_encryption_secret ≡ true
    → length nonce ≡ 12
    → open_v2 c k (
        nonce
        ++ c.aesgcm_encrypt
            (c.sha256 (c.encode k.node_key_encryption_secret))
            nonce
            (c.encode signing_key)
            (c.encode (codes "gpufleet-node-key-v2")))
      ≡ decrypted signing_key from_node_key_secret
unfolding open_v2 node_encryption_key
open_sealed c k nonce signing_key trips secret twelve =
    let key = c.sha256 (c.encode k.node_key_encryption_secret) in
    let version = c.encode (codes "gpufleet-node-key-v2") in
    let sealed = c.aesgcm_encrypt key nonce (c.encode signing_key) version in
    let long : ltb (length (nonce ++ sealed)) 28 ≡ false = ground (
      arith,
      length-append {0} nonce sealed,
      trips.tagged key nonce (c.encode signing_key) version,
    ) in
    rw
      (
        long,
        secret,
        take-append 12 nonce sealed twelve,
        drop-append 12 nonce sealed twelve,
        trips.opens key nonce (c.encode signing_key) version,
        trips.text signing_key,
        decoded,
      )
      refl

-- Under a secret that is set, every signing key is encrypted, and decrypted to itself with that
-- secret as its source; the random nonce has 12 bytes.
pub encrypt-decrypt :
    (c : Crypto) (k : KeySettings) (nonce : Bytes) (signing_key : Text)
    → RoundTrips c
    → is_set k.node_key_encryption_secret ≡ true
    → length nonce ≡ 12
    → (token : Text) × (encrypt_node_signing_key c k nonce signing_key ≡ some token)
      × (decrypt_node_signing_key_with_metadata c k token
          ≡ decrypted signing_key from_node_key_secret)
unfolding encrypt_node_signing_key node_encryption_key decrypt_node_signing_key_with_metadata
    text_eq
encrypt-decrypt c k nonce signing_key trips secret twelve =
    let key = c.sha256 (c.encode k.node_key_encryption_secret) in
    let sealed =
      c.aesgcm_encrypt key nonce (c.encode signing_key) (c.encode (codes "gpufleet-node-key-v2")) in
    (
      codes "v2:" ++ c.urlsafe_b64encode (nonce ++ sealed),
      rw (secret, encrypt_node_signing_key) refl,
      rw (trips.base64 (nonce ++ sealed)) (open_sealed c k nonce signing_key trips secret twelve),
    )

abbrev pub one_line : Text → Bool
one_line t = any (λ c. c == 10) t

first_line :
    (t t' rest rest' : Text)
    → one_line t ≡ false
    → one_line t' ≡ false
    → t ++ 10 ∷ rest ≡ t' ++ 10 ∷ rest'
    → (t ≡ t') × (rest ≡ rest')
first_line [] [] rest rest' h h' e = (refl, ground arith)
first_line [] (b ∷ t') rest rest' h h' e = absurd (ground arith)
first_line (a ∷ t) [] rest rest' h h' e = absurd (ground arith)
first_line (a ∷ t) (b ∷ t') rest rest' h h' e =
    let (tail, left) = first_line t t' rest rest' (ground arith) (ground arith) (ground arith) in
    (ground (arith, tail), left)

-- Headers hold no line break, so the signed message fixes all its parts: no signature of one request
-- serves another node, timestamp, nonce or body hash.
message_injective :
    (j j' t t' n n' b b' : Text)
    → one_line j ≡ false
    → one_line j' ≡ false
    → one_line t ≡ false
    → one_line t' ≡ false
    → one_line n ≡ false
    → one_line n' ≡ false
    → message j t n b ≡ message j' t' n' b'
    → (j ≡ j') × (t ≡ t') × (n ≡ n') × (b ≡ b')
unfolding message
message_injective j j' t t' n n' b b' hj hj' ht ht' hn hn' e =
    let (same_node, rest) =
      first_line j j' (t ++ 10 ∷ (n ++ 10 ∷ b)) (t' ++ 10 ∷ (n' ++ 10 ∷ b')) hj hj' e in
    let (same_time, rest') = first_line t t' (n ++ 10 ∷ b) (n' ++ 10 ∷ b') ht ht' rest in
    let (same_nonce, same_body) = first_line n n' b b' hn hn' rest' in
    (same_node, same_time, same_nonce, same_body)
