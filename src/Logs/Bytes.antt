-- ===== src/Logs/Bytes.antt =====
-- app/services/node_runtime_service.py: `take_text_prefix_by_bytes`, a binary search by the length
-- in UTF-8.
pub mod Longest
use gpufleet.Prelude.{
  ℕ, zero, suc, ◌+◌, ◌-◌, ◌/◌, Text, Bool, List, [], ◌∷◌, length, take, drop, ltb, leb,
  if◌then◌else◌,
}

-- The bytes of one code point in UTF-8.
abbrev pub char_bytes : ℕ → ℕ
char_bytes c = if ltb c 0x80 then 1 else if ltb c 0x800 then 2 else if ltb c 0x10000 then 3 else 4

-- len(text.encode("utf-8"))
unfoldable pub encoded_length : Text → ℕ
encoded_length [] = 0
encoded_length (c ∷ t) = char_bytes c + encoded_length t

abbrev pub fits : Text → ℕ → ℕ → Bool
fits text byte_limit n = leb (encoded_length (take n text)) byte_limit

-- The loop `while left < right`; each round narrows the interval, so its width is fuel enough.
unfoldable pub bisect : ℕ → Text → ℕ → ℕ → ℕ → ℕ
bisect zero text byte_limit left right = left
bisect (suc fuel) text byte_limit left right =
    let mid = (left + right + 1) / 2 in
    let rest =
      bisect fuel text byte_limit (if fits text byte_limit mid then mid else left)
        (if fits text byte_limit mid then right else mid - 1) in
    if ltb left right then rest else left

unfoldable pub take_text_prefix_by_bytes : Text → ℕ → Text × Text
take_text_prefix_by_bytes text zero = ([], text)
take_text_prefix_by_bytes text (suc byte_limit) =
    if leb (encoded_length text) (suc byte_limit)
    then (text, [])
    else let left = bisect (length text) text (suc byte_limit) 0 (length text) in
      (take left text, drop left text)
