-- ===== src/Agent/Client.antt =====
-- node_agent/src/gpufleet_node_agent/api_client.py: the circuit breaker and `post_signed_json`.
-- `time.monotonic` and what comes back from the network are arguments.
pub mod Load
pub mod Outage
use gpufleet.Prelude.{
  ℕ, zero, suc, ◌+◌, ◌^◌, Bool, true, false, not, List, [], ◌∷◌, ◌++◌, ltb, leb, ◌==◌,
  if◌then◌else◌,
}

pub data BreakerState : Type 0 where
  closed opened half_open : BreakerState

pub record CircuitBreaker : Type 0 where
  pub state : BreakerState
  pub consecutive_failures : ℕ
  pub open_until : ℕ

pub record ClientSettings : Type 0 where
  pub failure_threshold : ℕ
  pub open_sec : ℕ

abbrev pub max_retries : ℕ
max_retries = 3

-- `allow_request`: `false` stands for CircuitOpenError.
unfoldable pub allow_request : CircuitBreaker → ℕ → Bool × CircuitBreaker
allow_request b now = elim b.state [
  | closed ↦ (true, b)
  | half_open ↦ (true, b)
  | opened ↦ if ltb now b.open_until then (false, b) else (true, record b { state = half_open })
]

unfoldable pub reset : CircuitBreaker
reset = record { state = closed; consecutive_failures = 0; open_until = 0 }

unfoldable pub on_success : CircuitBreaker → CircuitBreaker
on_success b = reset

unfoldable pub on_transient_failure : ClientSettings → CircuitBreaker → ℕ → CircuitBreaker
on_transient_failure c b now =
    let failures = suc b.consecutive_failures in
    let counted : CircuitBreaker =
      if leb c.failure_threshold failures
      then record { state = opened; consecutive_failures = failures; open_until = now + c.open_sec }
      else record b { consecutive_failures = failures } in
    elim b.state [
      | half_open ↦ record {
        state = opened;
        consecutive_failures = c.failure_threshold;
        open_until = now + c.open_sec;
      }
      | closed ↦ counted
      | opened ↦ counted
    ]

unfoldable pub on_non_transient_failure : CircuitBreaker → CircuitBreaker
on_non_transient_failure b = elim b.state [
  | half_open ↦ record { state = closed; consecutive_failures = 0; open_until = 0 }
  | closed ↦ record b { consecutive_failures = 0 }
  | opened ↦ record b { consecutive_failures = 0 }
]

-- One HTTP request: an answer, an answer that is no JSON, a connection error or a timeout, or an HTTP
-- error with its code.
pub data Exchange : Type 0 where
  answered : Exchange
  no_json : Exchange
  unreachable : Exchange
  http_error : ℕ → Exchange
  other_error : Exchange

unfoldable pub is_transient_error : Exchange → Bool
is_transient_error answered = false
is_transient_error no_json = false
is_transient_error unreachable = true
is_transient_error (http_error code) =
    if code == 500
    then true
    else if code == 502
    then true
    else if code == 503
    then true
    else if code == 504
    then true
    else code == 429
is_transient_error other_error = false

pub data PostResult : Type 0 where
  response : PostResult
  raised : Exchange → PostResult
  circuit_open : PostResult

-- What a call leaves: the breaker, its result, the requests that it sent, the seconds that it slept.
pub record Posted : Type 0 where
  pub breaker : CircuitBreaker
  pub result : PostResult
  pub sent : List Exchange
  pub slept : List ℕ

-- The `except` of one attempt, of which `left` more may follow; `rest` is what they leave.
unfoldable pub on_exception :
    ClientSettings → CircuitBreaker → ℕ → ℕ → ℕ → Exchange → Posted → Posted
on_exception c b failed_at attempt left e rest =
    if not (is_transient_error e)
    then record {
      breaker = on_non_transient_failure b;
      result = raised e;
      sent = e ∷ [];
      slept = [];
    }
    else if left == 0
    then record {
      breaker = on_transient_failure c b failed_at;
      result = raised e;
      sent = e ∷ [];
      slept = [];
    }
    else record rest { sent = e ∷ rest.sent; slept = 2 ^ attempt ∷ rest.slept }

unfoldable pub on_exchange :
    ClientSettings → CircuitBreaker → ℕ → ℕ → ℕ → Exchange → Posted → Posted
on_exchange c b failed_at attempt left answered rest = record {
  breaker = on_success b;
  result = response;
  sent = answered ∷ [];
  slept = [];
}
on_exchange c b failed_at attempt left no_json rest =
    on_exception c (on_success b) failed_at attempt left no_json rest
on_exchange c b failed_at attempt left e rest = on_exception c b failed_at attempt left e rest

-- `for attempt in range(MAX_RETRIES)`, with the number of attempts that are left.
unfoldable pub attempt_loop : ClientSettings → CircuitBreaker → ℕ → (ℕ → Exchange) → ℕ → ℕ → Posted
attempt_loop c b failed_at network attempt zero = record {
  breaker = b;
  result = raised (network attempt);
  sent = [];
  slept = [];
}
attempt_loop c b failed_at network attempt (suc left) =
    let rest = attempt_loop c b failed_at network (suc attempt) left in
    on_exchange c b failed_at attempt left (network attempt) rest

-- `failed_at` is the time at which a last failed attempt is counted.
unfoldable pub post_signed_json : ClientSettings → CircuitBreaker → ℕ → ℕ → (ℕ → Exchange) → Posted
post_signed_json c b now failed_at network =
    let (allowed, b') = allow_request b now in
    if allowed
    then attempt_loop c b' failed_at network 0 max_retries
    else record { breaker = b'; result = circuit_open; sent = []; slept = [] }
