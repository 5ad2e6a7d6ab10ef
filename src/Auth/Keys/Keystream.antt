-- ===== src/Auth/Keys/Keystream.antt =====
-- `_xor_with_keystream` of app/security.py, applied twice.
use gpufleet.Prelude.{
  ℕ, zero, suc, ◌+◌, ◌*◌, ◌/◌, ◌%◌, ◌^◌, ◌≤◌, ◌<◌, ◌≡◌, refl, ap, ap₂, ◌∙◌, [], ◌∷◌, ◌++◌, length,
  take, length-take, length-append, arith, ltb, Bool-cases, inl, inr,
}
use gpufleet.Auth.Keys.{Bytes, Crypto, xor, keystream, big_endian, xor_bytes, xor_with_keystream}

xor_inverse : (w a b : ℕ) → a < 2 ^ w → xor w (xor w a b) b ≡ a
unfolding xor
xor_inverse zero a b h = omega arith
xor_inverse (suc w) a b h =
    let low : (xor (suc w) a b) % 2 ≡ (a % 2 + b % 2) % 2 = omega arith in
    let high : (xor (suc w) a b) / 2 ≡ xor w (a / 2) (b / 2) = omega arith in
    let half : a / 2 < 2 ^ w = omega (arith, h) in
    ap (λ x. ((xor (suc w) a b) % 2 + b % 2) % 2 + 2 * xor w x (b / 2)) high
    ∙ omega (arith, low, xor_inverse w (a / 2) (b / 2) half)

-- Every member of the list is a byte.
abbrev pub IsBytes : Bytes → Type 0
IsBytes [] = Unit {0}
IsBytes (a ∷ bytes) = (a < 256) × IsBytes bytes

length-xor_bytes :
    (payload output : Bytes)
    → length payload ≤ length output
    → length (xor_bytes payload output) ≡ length payload
unfolding xor_bytes
length-xor_bytes [] output h = refl
length-xor_bytes (a ∷ payload) [] h = absurd (omega (arith, h))
length-xor_bytes (a ∷ payload) (b ∷ output) h =
    omega (arith, length-xor_bytes payload output (omega (arith, h)))

xor_bytes_inverse :
    (payload output : Bytes)
    → length payload ≤ length output
    → IsBytes payload
    → xor_bytes (xor_bytes payload output) output ≡ payload
unfolding xor_bytes
xor_bytes_inverse [] output h bytes = refl
xor_bytes_inverse (a ∷ payload) [] h bytes = absurd (omega (arith, h))
xor_bytes_inverse (a ∷ payload) (b ∷ output) h bytes =
    ap₂ (λ x xs. x ∷ xs) (xor_inverse 8 a b bytes.0)
      (xor_bytes_inverse payload output (omega (arith, h)) bytes.1)

-- hmac never returns an empty digest.
abbrev pub HasDigest : Crypto → Type 0
HasDigest c = (key message : Bytes) → 1 ≤ length (c.hmac_sha256 key message)

-- A round for each byte is enough.
keystream-length :
    (fuel : ℕ) (c : Crypto) (key nonce : Bytes) (size counter : ℕ) (output : Bytes)
    → HasDigest c
    → size ≤ fuel + length output
    → size ≤ length (keystream fuel c key nonce size counter output)
unfolding keystream
keystream-length zero c key nonce size counter output digest enough = omega (arith, enough)
keystream-length (suc fuel) c key nonce size counter output digest enough =
    let block = c.hmac_sha256 key (nonce ++ big_endian counter) in
    let longer : suc (length output) ≤ length (output ++ block) =
      omega (arith, length-append {0} output block, digest key (nonce ++ big_endian counter)) in
    let rest =
      keystream-length fuel c key nonce size (suc counter) (output ++ block) digest
        (omega (arith, longer, enough)) in
    elim (Bool-cases (ltb (length output) size)) [
      | inl short ↦ rw (short, keystream) rest
      | inr full ↦ rw (full, keystream) (ground (arith, full))
    ]

-- Encrypting twice with the same key and nonce gives the bytes back.
pub xor_with_keystream_inverse :
    (c : Crypto) (payload key nonce : Bytes)
    → HasDigest c
    → IsBytes payload
    → xor_with_keystream c (xor_with_keystream c payload key nonce) key nonce ≡ payload
unfolding xor_with_keystream
xor_with_keystream_inverse c payload key nonce digest bytes =
    let size = length payload in
    let output = keystream size c key nonce size 0 [] in
    let long : size ≤ length output =
      keystream-length size c key nonce size 0 [] digest (omega arith) in
    let cut : length payload ≤ length (take size output) =
      ground (arith, length-take size output, long) in
    let same_size : length (xor_bytes payload (take size output)) ≡ size =
      length-xor_bytes payload (take size output) cut in
    ap
      (λ n.
        xor_bytes (xor_bytes payload (take size output)) (take n (keystream n c key nonce n 0 [])))
      same_size
    ∙ xor_bytes_inverse payload (take size output) cut bytes
