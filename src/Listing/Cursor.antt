-- ===== src/Listing/Cursor.antt =====
-- Round trip of the cursors of app/services/cursor_pagination.py.
use gpufleet.Prelude.{
  ℕ, zero, suc, ◌+◌, ◌-◌, ◌%◌, ◌≤◌, ◌<◌, Text, false, ◌≡◌, refl, ap, sym, ◌∙◌, some, [], ◌∷◌, ◌++◌,
  length, any, ◌==◌, arith,
}
use gpufleet.Auth.Keys.{Bytes}
use gpufleet.Listing.{
  Key, CursorLibrary, rstrip_padding, padding, encode_cursor, at_key, padded, decode_text,
  decode_cursor,
}

-- What base64 gives: a text without "=", then up to three of them that fill it to a multiple of four.
-- It is empty for no bytes only, and JSON is never empty.
pub record Base64Text (x : Bytes) (t : Text) : Type 0 where
  pub body : Text
  pub pad : ℕ
  pub whole : t ≡ body ++ padding pad
  pub some_text : 1 ≤ length x → 1 ≤ length body
  pub plain : any (λ c. c == 61) body ≡ false
  pub few : pad < 4
  pub filled : (length body + pad) % 4 ≡ 0

pub record RoundTrips (lib : CursorLibrary) : Type 0 where
  pub loads-dumps : (k : Key) → lib.loads (lib.dumps k) ≡ some k
  pub decode-encode : (x : Bytes) → lib.urlsafe_b64decode (lib.urlsafe_b64encode x) ≡ some x
  pub base64_text : (x : Bytes) → Base64Text x (lib.urlsafe_b64encode x)
  pub some_json : (k : Key) → 1 ≤ length (lib.dumps k)

rstrip-padding_lem : (n : ℕ) → rstrip_padding (padding n) ≡ []
unfolding rstrip_padding padding
rstrip-padding_lem zero = refl
rstrip-padding_lem (suc n) = rw (rstrip-padding_lem n, rstrip_padding) refl

rstrip-append :
    (body : Text) (n : ℕ)
    → any (λ c. c == 61) body ≡ false
    → rstrip_padding (body ++ padding n) ≡ body
unfolding rstrip_padding
rstrip-append [] n h = rstrip-padding_lem n
rstrip-append (c ∷ []) n h = rw (rstrip-padding_lem n, rstrip_padding) (ground arith)
rstrip-append (c ∷ d ∷ body) n h =
    rw (rstrip-append (d ∷ body) n (ground arith), rstrip_padding) refl

fill_up : (len pad : ℕ) → (len + pad) % 4 ≡ 0 → pad < 4 → (4 - len % 4) % 4 ≡ pad
fill_up len pad h k = omega arith

decode-some :
    (lib : CursorLibrary) (t : Text) → 1 ≤ length t → decode_cursor lib (some t) ≡ decode_text lib t
unfolding decode_cursor
decode-some lib [] h = absurd (omega arith)
decode-some lib (c ∷ t) h = refl

encode-body :
    (lib : CursorLibrary) (k : Key)
    (b : Base64Text (lib.dumps k) (lib.urlsafe_b64encode (lib.dumps k)))
    → encode_cursor lib k ≡ b.body
unfolding encode_cursor
encode-body lib k b = ap rstrip_padding b.whole ∙ rstrip-append b.body b.pad b.plain

padded-body : (x : Bytes) (t : Text) (b : Base64Text x t) → padded b.body ≡ t
unfolding padded
padded-body x t b =
    ap (λ n. b.body ++ padding n) (fill_up (length b.body) b.pad b.filled b.few) ∙ sym b.whole

pub decode-encode_cursor :
    (lib : CursorLibrary) (k : Key)
    → RoundTrips lib
    → decode_cursor lib (some (encode_cursor lib k)) ≡ at_key k
unfolding decode_text
decode-encode_cursor lib k laws =
    let payload = lib.dumps k in
    let b = laws.base64_text payload in
    let readable : decode_text lib b.body ≡ at_key k =
      rw
        (
          padded-body payload (lib.urlsafe_b64encode payload) b,
          laws.decode-encode payload,
          laws.loads-dumps k,
          decode_text,
        )
        refl in
    ap (λ t. decode_cursor lib (some t)) (encode-body lib k b)
    ∙ decode-some lib b.body (b.some_text (laws.some_json k))
    ∙ readable
