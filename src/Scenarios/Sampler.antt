-- ===== src/Scenarios/Sampler.antt =====
-- Three ticks and a heartbeat, then one more tick, into a buffer for two samples.
use gpufleet.Prelude.{ℕ, ◌/◌, ◌≡◌, refl, none, some, List, [], ◌∷◌}
use gpufleet.Agent.Sampler.{SampleRingBuffer, Tick, heartbeats}
use gpufleet.Agent.Sampler.Rounds.{newest_by_round, heartbeats-newest}

abbrev buffer : SampleRingBuffer ℕ ℕ
buffer = record { capacity = 2; buf = []; last_net = none }

abbrev tick : ℕ → ℕ → Tick ℕ
tick t n = record {
  sample = t;
  now = t;
  counters = some (record { bytes_sent = n; bytes_recv = n });
}

abbrev rounds : List (List (Tick ℕ))
rounds = (tick 1 100 ∷ tick 2 300 ∷ tick 3 400 ∷ []) ∷ (tick 4 50 ∷ []) ∷ []

heartbeats-newest_example :
    heartbeats (λ d t. d / t) buffer rounds
    ≡ newest_by_round (λ d t. d / t) buffer.capacity buffer.last_net [] rounds
heartbeats-newest_example = heartbeats-newest (λ d t. d / t) buffer rounds refl
