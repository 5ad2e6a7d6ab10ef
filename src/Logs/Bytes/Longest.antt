-- ===== src/Logs/Bytes/Longest.antt =====
-- The prefix that `take_text_prefix_by_bytes` of app/services/node_runtime_service.py takes.
use gpufleet.Prelude.{
  ℕ, zero, suc, ◌+◌, ◌-◌, ◌/◌, ◌≤◌, ◌<◌, Text, Bool, true, false, ◌≡◌, refl, [], ◌∷◌, ◌++◌, length,
  take, drop, ltb, leb, if◌then◌else◌, take-append-drop, arith, Bool-cases, inl, inr, append-nil,
}
use gpufleet.Logs.Bytes.{char_bytes, encoded_length, fits, bisect, take_text_prefix_by_bytes}

-- A prefix of `n` code points fits, and one more would not.
pub record IsLongest (text : Text) (byte_limit n : ℕ) : Type 0 where
  pub fitting : encoded_length (take n text) ≤ byte_limit
  pub longest : n < length text → byte_limit < encoded_length (take (n + 1) text)

-- What the loop keeps of its interval.
record Interval (text : Text) (byte_limit left right : ℕ) : Type 0 where
  ordered : left ≤ right
  inside : right ≤ length text
  low : encoded_length (take left text) ≤ byte_limit
  high : right < length text → byte_limit < encoded_length (take (right + 1) text)

narrow :
    (text : Text) (byte_limit left right mid : ℕ)
    → left < right
    → mid ≡ (left + right + 1) / 2
    → Interval text byte_limit left right
    → Interval text byte_limit
        (if fits text byte_limit mid then mid else left)
        (if fits text byte_limit mid then right else mid - 1)
narrow text byte_limit left right mid lt m v = elim (Bool-cases (fits text byte_limit mid)) [
  | inl e ↦ rw e (record {
    ordered = omega (arith, m, lt);
    inside = v.inside;
    low = ground (arith, e);
    high = v.high;
  })
  | inr e ↦ rw e (record {
    ordered = omega (arith, m, lt);
    inside = omega (arith, m, v.inside, v.ordered);
    low = v.low;
    high = λ _. let k : mid - 1 + 1 ≡ mid = omega arith in rw k (ground (arith, e));
  })
]

closer :
    (b : Bool) (fuel left right mid : ℕ)
    → left < right
    → mid ≡ (left + right + 1) / 2
    → right ≤ left + suc fuel
    → (if b then right else mid - 1) ≤ (if b then mid else left) + fuel
closer true fuel left right mid lt m enough = omega arith
closer false fuel left right mid lt m enough = omega arith

bisect-IsLongest :
    (fuel : ℕ) (text : Text) (byte_limit left right : ℕ)
    → right ≤ left + fuel
    → Interval text byte_limit left right
    → IsLongest text byte_limit (bisect fuel text byte_limit left right)
unfolding bisect
bisect-IsLongest zero text byte_limit left right enough v =
    let e : left ≡ right = omega (arith, v.ordered) in
    record { fitting = v.low; longest = rw e v.high }
bisect-IsLongest (suc fuel) text byte_limit left right enough v =
    elim (Bool-cases (ltb left right)) [
      | inl lt ↦ rw lt (
          bisect-IsLongest fuel text byte_limit _ _
            (closer (fits text byte_limit ((left + right + 1) / 2)) fuel left right _
              (ground (arith, lt)) refl enough)
            (narrow text byte_limit left right _ (ground (arith, lt)) refl v))
      | inr ge ↦ rw ge (
          let e : left ≡ right = ground (arith, v.ordered) in
          record { fitting = v.low; longest = rw e v.high })
    ]

encoded-take_next :
    (n : ℕ) (text : Text) (c : ℕ) (rest : Text)
    → drop n text ≡ c ∷ rest
    → (n < length text)
      × (encoded_length (take (n + 1) text) ≡ encoded_length (take n text) + char_bytes c)
unfolding encoded_length
encoded-take_next zero [] c rest h = absurd (ground arith)
encoded-take_next zero (d ∷ text) c rest h = (omega arith, ground arith)
encoded-take_next (suc n) [] c rest h = absurd (ground arith)
encoded-take_next (suc n) (d ∷ text) c rest h =
    let (lt, e) = encoded-take_next n text c rest h in (omega arith, ground (arith, e))

-- The two parts of a text: the first fits, and with the next code point it would not.
pub record LongestPrefix (text : Text) (byte_limit : ℕ) (prefix rest : Text) : Type 0 where
  pub whole : prefix ++ rest ≡ text
  pub fitting : encoded_length prefix ≤ byte_limit
  pub maximal :
      (c : ℕ) (more : Text) → rest ≡ c ∷ more → byte_limit < encoded_length prefix + char_bytes c

-- Cutting by the byte limit loses nothing and gives the longest prefix that fits.
pub prefix_longest :
    (text : Text) (byte_limit : ℕ)
    → let (prefix, rest) = take_text_prefix_by_bytes text byte_limit in
      LongestPrefix text byte_limit prefix rest
unfolding take_text_prefix_by_bytes
prefix_longest text zero = record {
  whole = refl;
  fitting = unfold encoded_length in omega arith;
  maximal = λ c more e. unfold encoded_length in ground arith;
}
prefix_longest text (suc n) = elim (Bool-cases (leb (encoded_length text) (suc n))) [
  | inl e ↦ rw e (record {
    whole = append-nil text;
    fitting = ground (arith, e);
    maximal = λ c more q. absurd (ground arith);
  })
  | inr e ↦
      let left = bisect (length text) text (suc n) 0 (length text) in
      let best = bisect-IsLongest (length text) text (suc n) 0 (length text) (omega arith) (record {
        ordered = omega arith;
        inside = omega arith;
        low = unfold encoded_length in omega arith;
        high = λ lt. absurd (omega arith);
      }) in
      rw e (record {
        whole = take-append-drop left text;
        fitting = best.fitting;
        maximal = λ c more q.
            let (lt, step) = encoded-take_next left text c more q in
            omega (arith, best.longest lt, step);
      })
]
