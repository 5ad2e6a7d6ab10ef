-- ===== src/Agent/Client/Outage.antt =====
-- The circuit breaker of node_agent/src/gpufleet_node_agent/api_client.py in an outage.
use gpufleet.Prelude.{
  ℕ, suc, zero, ◌+◌, ◌-◌, ◌*◌, ◌≤◌, ◌<◌, true, false, ◌≡◌, List, [], ◌∷◌, ◌++◌, length,
  length-append, arith,
}
use gpufleet.Agent.Client.{
  closed, opened, CircuitBreaker, ClientSettings, max_retries, allow_request, on_transient_failure,
  Exchange, answered, no_json, unreachable, http_error, other_error, is_transient_error, Posted,
  on_exception, on_exchange, attempt_loop, post_signed_json,
}
use gpufleet.Agent.Client.Load.{post_signed_json-Measured}

-- One call, while the control plane cannot be reached.
pub record Call : Type 0 where
  pub now : ℕ
  pub failed_at : ℕ
  pub network : ℕ → Exchange

-- Calls one after another, with all the requests that they send.
unfoldable pub post_all :
    ClientSettings → CircuitBreaker → List Call → CircuitBreaker × List Exchange
post_all c b [] = (b, [])
post_all c b (x ∷ calls) =
    let posted = post_signed_json c b x.now x.failed_at x.network in
    let (b', later) = post_all c posted.breaker calls in (b', posted.sent ++ later)

-- No call succeeds, every call comes before `limit`, and an opening then would last until `limit`.
abbrev pub Outage : ClientSettings → ℕ → List Call → Type 0
Outage c limit [] = Unit {0}
Outage c limit (x ∷ calls) =
    (x.now < limit)
    × (limit ≤ x.failed_at + c.open_sec)
    × ((i : ℕ) → is_transient_error (x.network i) ≡ true)
    × Outage c limit calls

exception-transient :
    (c : ClientSettings) (b : CircuitBreaker) (failed_at attempt left : ℕ) (e : Exchange)
    (rest : Posted)
    → is_transient_error e ≡ true
    → (1 ≤ left → rest.breaker ≡ on_transient_failure c b failed_at)
    → (on_exchange c b failed_at attempt left e rest).breaker ≡ on_transient_failure c b failed_at
unfolding on_exchange on_exception is_transient_error
exception-transient c b failed_at attempt left answered rest h k = absurd (ground arith)
exception-transient c b failed_at attempt left no_json rest h k = absurd (ground arith)
exception-transient c b failed_at attempt left unreachable rest h k = ground (arith, k)
exception-transient c b failed_at attempt left (http_error code) rest h k = rw h (ground (arith, k))
exception-transient c b failed_at attempt left other_error rest h k = absurd (ground arith)

-- Attempts that all fail for a while are counted once, after the last.
loop-transient :
    (c : ClientSettings) (b : CircuitBreaker) (failed_at : ℕ) (network : ℕ → Exchange)
    (attempt left : ℕ)
    → ((i : ℕ) → is_transient_error (network i) ≡ true)
    → (attempt_loop c b failed_at network attempt (suc left)).breaker
      ≡ on_transient_failure c b failed_at
unfolding attempt_loop
loop-transient c b failed_at network attempt zero h =
    exception-transient c b failed_at attempt zero (network attempt) _ (h attempt)
      (λ k. absurd (omega arith))
loop-transient c b failed_at network attempt (suc left) h =
    exception-transient c b failed_at attempt (suc left) (network attempt) _ (h attempt)
      (λ k. loop-transient c b failed_at network (suc attempt) left h)

-- `m` more calls may send requests.
data Room (c : ClientSettings) (limit : ℕ) (b : CircuitBreaker) : ℕ → Type 0 where
  counting :
      (m : ℕ)
      → b.state ≡ closed
      → b.consecutive_failures + suc m ≡ c.failure_threshold
      → Room c limit b (suc m)
  shut : b.state ≡ opened → limit ≤ b.open_until → Room c limit b 0

failed-Room :
    (c : ClientSettings) (limit : ℕ) (b : CircuitBreaker) (failed_at m : ℕ)
    → b.state ≡ closed
    → b.consecutive_failures + suc m ≡ c.failure_threshold
    → limit ≤ failed_at + c.open_sec
    → Room c limit (on_transient_failure c b failed_at) m
unfolding on_transient_failure
failed-Room c limit b failed_at zero up count late =
    rw up (shut (ground (arith, count)) (ground (arith, count, late)))
failed-Room c limit b failed_at (suc m) up count late =
    rw up (counting m (ground (arith, count)) (ground (arith, count)))

shut_call :
    (c : ClientSettings) (limit : ℕ) (b : CircuitBreaker) (x : Call)
    → b.state ≡ opened
    → limit ≤ b.open_until
    → x.now < limit
    → (allow_request b x.now ≡ (false, b))
unfolding allow_request
shut_call c limit b x down late early = ground (arith, down)

closed_call : (b : CircuitBreaker) (now : ℕ) → b.state ≡ closed → allow_request b now ≡ (true, b)
unfolding allow_request
closed_call b now up = ground (arith, up)

sent-Room :
    (c : ClientSettings) (limit m : ℕ) (b : CircuitBreaker) (x : Call)
    → Room c limit b (suc m)
    → limit ≤ x.failed_at + c.open_sec
    → ((i : ℕ) → is_transient_error (x.network i) ≡ true)
    → Room c limit (post_signed_json c b x.now x.failed_at x.network).breaker m
unfolding post_signed_json
sent-Room c limit m b x (counting _ up count) late fails =
    rw (closed_call b x.now up, loop-transient c b x.failed_at x.network 0 2 fails)
      (failed-Room c limit b x.failed_at m up count late)

Room-bound :
    (c : ClientSettings) (limit : ℕ) (calls : List Call) (b : CircuitBreaker) (m : ℕ)
    → Room c limit b m
    → Outage c limit calls
    → length (post_all c b calls).1 ≤ max_retries * m
unfolding post_all post_signed_json
Room-bound c limit [] b m room out = omega arith
Room-bound c limit (x ∷ calls) b zero (shut down late) (early, later, fails, out) =
    rw (shut_call c limit b x down late early, post_signed_json)
      (Room-bound c limit calls b zero (shut down late) out)
Room-bound c limit (x ∷ calls) b (suc m) room (early, late, fails, out) =
    let posted = post_signed_json c b x.now x.failed_at x.network in
    let three = (post_signed_json-Measured c b x.now x.failed_at x.network).at_most_three in
    let rest =
      Room-bound c limit calls posted.breaker m (sent-Room c limit m b x room late fails) out in
    omega (arith, three, rest, length-append posted.sent (post_all c posted.breaker calls).1)

-- In an outage, however many calls there are before `limit`, at most three requests are sent for each
-- failure that the threshold still allows; the breaker is closed and has not reached its threshold.
pub Outage-load :
    (c : ClientSettings) (limit : ℕ) (calls : List Call) (b : CircuitBreaker)
    → b.state ≡ closed
    → b.consecutive_failures < c.failure_threshold
    → Outage c limit calls
    → length (post_all c b calls).1 ≤ max_retries * (c.failure_threshold - b.consecutive_failures)
Outage-load c limit calls b up below out =
    let m = c.failure_threshold - suc b.consecutive_failures in
    let left : c.failure_threshold - b.consecutive_failures ≡ suc m = omega arith in
    rw left (Room-bound c limit calls b (suc m) (counting m up (omega arith)) out)
