-- ===== src/Scenarios/Client.antt =====
-- A client whose control plane cannot be reached.
use gpufleet.Prelude.{ℕ, ◌≤◌, ◌*◌, ◌-◌, refl, List, [], ◌∷◌, length, arith}
use gpufleet.Agent.Client.{
  CircuitBreaker, closed, ClientSettings, unreachable, is_transient_error, max_retries,
  post_signed_json,
}
use gpufleet.Agent.Client.Load.{Measured, post_signed_json-Measured}
use gpufleet.Agent.Client.Outage.{Call, post_all, Outage-load}

abbrev settings : ClientSettings
settings = record { failure_threshold = 3; open_sec = 60 }

abbrev breaker : CircuitBreaker
breaker = record { state = closed; consecutive_failures = 1; open_until = 0 }

abbrev call : ℕ → Call
call now = record { now = now; failed_at = now; network = λ i. unreachable }

abbrev calls : List Call
calls = call 10 ∷ call 20 ∷ call 30 ∷ call 40 ∷ []

post_signed_json-Measured_example :
    Measured breaker 10 (post_signed_json settings breaker 10 13 (λ i. unreachable))
post_signed_json-Measured_example =
    post_signed_json-Measured settings breaker 10 13 (λ i. unreachable)

Outage-load_example : length (post_all settings breaker calls).1 ≤ max_retries * (3 - 1)
unfolding is_transient_error
Outage-load_example = Outage-load settings 60 calls breaker refl (omega arith) (
  omega arith,
  omega arith,
  λ i. refl,
  (
    omega arith,
    omega arith,
    λ i. refl,
    (omega arith, omega arith, λ i. refl, (omega arith, omega arith, λ i. refl, tt)),
  ),
)
