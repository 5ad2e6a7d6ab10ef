-- ===== src/Agent/Client/Load.antt =====
-- How many requests `post_signed_json` (node_agent/src/gpufleet_node_agent/api_client.py) sends.
use gpufleet.Prelude.{
  ℕ, suc, ◌+◌, ◌≤◌, ◌^◌, true, false, ◌≡◌, refl, List, [], ◌∷◌, length, Bool-cases, inl, inr, ◌<◌,
  ◌⊎◌, ltb, ◌==◌, if◌then◌else◌, arith,
}
use gpufleet.Agent.Client.{
  BreakerState, closed, opened, half_open, CircuitBreaker, ClientSettings, max_retries,
  allow_request, on_success, Exchange, answered, no_json, unreachable, http_error, other_error,
  circuit_open, Posted, on_exception, on_exchange, attempt_loop, post_signed_json,
}

abbrev pub total : List ℕ → ℕ
total [] = 0
total (n ∷ ns) = n + total ns

-- The pauses that may follow an attempt.
abbrev pauses : ℕ → ℕ → List ℕ → ℕ
pauses left wait slept = if left == 0 then 0 else wait + total slept

-- What an attempt adds to the requests and the pauses of the attempts after it.
record Added (left wait : ℕ) (rest p : Posted) : Type 0 where
  at_least : 1 ≤ length p.sent
  at_most : length p.sent ≤ suc (length rest.sent)
  paused : total p.slept ≤ pauses left wait rest.slept

exception-Added :
    (c : ClientSettings) (b : CircuitBreaker) (failed_at attempt left : ℕ) (e : Exchange)
    (rest : Posted)
    → Added left (2 ^ attempt) rest (on_exception c b failed_at attempt left e rest)
unfolding on_exception
exception-Added c b failed_at attempt left e rest = record {
  at_least = ground arith;
  at_most = ground arith;
  paused = ground arith;
}

exchange-Added :
    (c : ClientSettings) (b : CircuitBreaker) (failed_at attempt left : ℕ) (e : Exchange)
    (rest : Posted)
    → Added left (2 ^ attempt) rest (on_exchange c b failed_at attempt left e rest)
unfolding on_exchange
exchange-Added c b failed_at attempt left answered rest = record {
  at_least = omega arith;
  at_most = omega arith;
  paused = ground arith;
}
exchange-Added c b failed_at attempt left no_json rest =
    exception-Added c (on_success b) failed_at attempt left no_json rest
exchange-Added c b failed_at attempt left unreachable rest =
    exception-Added c b failed_at attempt left unreachable rest
exchange-Added c b failed_at attempt left (http_error code) rest =
    exception-Added c b failed_at attempt left (http_error code) rest
exchange-Added c b failed_at attempt left other_error rest =
    exception-Added c b failed_at attempt left other_error rest

loop-Added :
    (c : ClientSettings) (b : CircuitBreaker) (failed_at : ℕ) (network : ℕ → Exchange)
    (attempt left : ℕ)
    → Added left
        (2 ^ attempt)
        (attempt_loop c b failed_at network (suc attempt) left)
        (attempt_loop c b failed_at network attempt (suc left))
unfolding attempt_loop
loop-Added c b failed_at network attempt left =
    exchange-Added c b failed_at attempt left (network attempt)
      (attempt_loop c b failed_at network (suc attempt) left)

-- The breaker is open, and until a later time.
pub record Blocked (b : CircuitBreaker) (now : ℕ) : Type 0 where
  pub is_open : b.state ≡ opened
  pub not_yet : now < b.open_until

-- A call in numbers. A call that is blocked changes nothing.
pub record Measured (b : CircuitBreaker) (now : ℕ) (p : Posted) : Type 0 where
  pub some_sent : ¬ Blocked b now → 1 ≤ length p.sent
  pub at_most_three : length p.sent ≤ max_retries
  pub none_sent : Blocked b now → (p.sent ≡ []) × (p.result ≡ circuit_open) × (p.breaker ≡ b)
  pub slept_at_most : total p.slept ≤ 3

record Three (p : Posted) : Type 0 where
  some_sent : 1 ≤ length p.sent
  at_most_three : length p.sent ≤ max_retries
  slept_at_most : total p.slept ≤ 3

three_lem :
    (c : ClientSettings) (b : CircuitBreaker) (failed_at : ℕ) (network : ℕ → Exchange)
    → Three (attempt_loop c b failed_at network 0 max_retries)
unfolding attempt_loop
three_lem c b failed_at network =
    let one = loop-Added c b failed_at network 0 2 in
    let two = loop-Added c b failed_at network 1 1 in
    let three = loop-Added c b failed_at network 2 0 in
    record {
      some_sent = one.at_least;
      at_most_three = omega (arith, one.at_most, two.at_most, three.at_most);
      slept_at_most = omega (arith, one.paused, two.paused, three.paused);
    }

-- What lets a request through: all but a breaker that is open until a later time.
allow_cases :
    (b : CircuitBreaker) (now : ℕ)
    → (Blocked b now × (allow_request b now ≡ (false, b)))
      ⊎ ((¬ Blocked b now) × ((allow_request b now).0 ≡ true))
unfolding allow_request
allow_cases b now = by_state b.state refl
  where
    by_state :
        (state : BreakerState)
        → b.state ≡ state
        → (Blocked b now × (allow_request b now ≡ (false, b)))
          ⊎ ((¬ Blocked b now) × ((allow_request b now).0 ≡ true))
    by_state closed e = inr (λ h. absurd (ground (arith, e, h.is_open)), rw (e, allow_request) refl)
    by_state half_open e =
        inr (λ h. absurd (ground (arith, e, h.is_open)), rw (e, allow_request) refl)
    by_state opened e = elim (Bool-cases (ltb now b.open_until)) [
      | inl early ↦ inl (
        record { is_open = e; not_yet = ground (arith, early) },
        simp (e, early, allow_request) refl,
      )
      | inr due ↦
          inr (λ h. absurd (ground (arith, due, h.not_yet)), rw (e, due, allow_request) refl)
    ]

-- A call sends at most three requests and sleeps at most three seconds between them. While the breaker
-- is open and its time has not come, a call sends none, raises CircuitOpenError and leaves the breaker as
-- it is; otherwise it sends at least one.
pub post_signed_json-Measured :
    (c : ClientSettings) (b : CircuitBreaker) (now failed_at : ℕ) (network : ℕ → Exchange)
    → Measured b now (post_signed_json c b now failed_at network)
unfolding post_signed_json
post_signed_json-Measured c b now failed_at network = elim (allow_cases b now) [
  | inr (free, pass) ↦
      let three = three_lem c (allow_request b now).1 failed_at network in
      rw (pass, post_signed_json)
        (record {
          some_sent = λ h. three.some_sent;
          at_most_three = three.at_most_three;
          none_sent = λ h. absurd (free h);
          slept_at_most = three.slept_at_most;
        })
  | inl (blocked, stop) ↦
      rw (stop, post_signed_json)
        (record {
          some_sent = λ h. absurd (h blocked);
          at_most_three = omega arith;
          none_sent = λ h. (refl, refl, refl);
          slept_at_most = omega arith;
        })
]
