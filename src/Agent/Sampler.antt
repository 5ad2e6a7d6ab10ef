-- ===== src/Agent/Sampler.antt =====
-- node_agent/src/gpufleet_node_agent/sampler.py: `SampleRingBuffer`.
-- A sample of the machine, the clock, the counters of the network interface and the rounding of a rate
-- are arguments. `none` of the counters is an exception of psutil.
pub mod Rounds
use gpufleet.Prelude.{
  ℕ, suc, ◌-◌, Bool, true, false, ◌&&◌, Option, none, some, List, [], ◌∷◌, ◌++◌, length, take_last,
  drop, ltb, leb, if◌then◌else◌,
}

pub record NetIo : Type 0 where
  pub bytes_sent : ℕ
  pub bytes_recv : ℕ

pub record Enriched {ℓ κ} (Sample : Type ℓ) (Rate : Type κ) : Type (ℓ ⊔ κ) where
  pub sample : Sample
  pub upload_bps : Option Rate
  pub download_bps : Option Rate

-- `deque(maxlen=capacity)`, and what the rates are computed from.
pub record SampleRingBuffer {ℓ κ} (Sample : Type ℓ) (Rate : Type κ) : Type (ℓ ⊔ κ) where
  pub capacity : ℕ
  pub buf : List (Enriched Sample Rate)
  pub last_net : Option (ℕ × NetIo)

-- One tick of the sampling thread: the sample, and the counters read at its time.
pub record Tick {ℓ} (Sample : Type ℓ) : Type ℓ where
  pub sample : Sample
  pub now : ℕ
  pub counters : Option NetIo

-- `round(delta / dt, 2)`, where neither counter went back and time went on.
abbrev pub rates {κ} :
    {Rate : Type κ} → (ℕ → ℕ → Rate) → Option (ℕ × NetIo) → ℕ → NetIo → Option (Rate × Rate)
rates rate none now io = none
rates rate (some (last_time, last_io)) now io =
    if ltb last_time now
      && (leb last_io.bytes_sent io.bytes_sent && leb last_io.bytes_recv io.bytes_recv)
    then some (
      rate (io.bytes_sent - last_io.bytes_sent) (now - last_time),
      rate (io.bytes_recv - last_io.bytes_recv) (now - last_time),
    )
    else none

module _ {ℓ κ} {Sample : Type ℓ} {Rate : Type κ} where
  abbrev pub with_rates : Sample → Option (Rate × Rate) → Enriched Sample Rate
  with_rates x none = record { sample = x; upload_bps = none; download_bps = none }
  with_rates x (some (up, down)) = record {
    sample = x;
    upload_bps = some up;
    download_bps = some down;
  }

  unfoldable pub enrich_with_net_bps :
      (ℕ → ℕ → Rate) → Option (ℕ × NetIo) → Tick Sample → Enriched Sample Rate × Option (ℕ × NetIo)
  enrich_with_net_bps rate last_net t = elim t.counters [
    | none ↦ (with_rates t.sample none, last_net)
    | some io ↦ (with_rates t.sample (rates rate last_net t.now io), some (t.now, io))
  ]

  -- `deque.append`: the oldest falls out of a full one.
  unfoldable pub deque_append :
      ℕ → List (Enriched Sample Rate) → Enriched Sample Rate → List (Enriched Sample Rate)
  deque_append capacity buf x = take_last capacity (buf ++ x ∷ [])

  unfoldable pub push :
      (ℕ → ℕ → Rate) → SampleRingBuffer Sample Rate → Tick Sample → SampleRingBuffer Sample Rate
  push rate s t =
      let (x, last) = enrich_with_net_bps rate s.last_net t in
      record s { buf = deque_append s.capacity s.buf x; last_net = last }

  unfoldable pub push_all :
      (ℕ → ℕ → Rate)
      → SampleRingBuffer Sample Rate
      → List (Tick Sample)
      → SampleRingBuffer Sample Rate
  push_all rate s [] = s
  push_all rate s (t ∷ ticks) = push_all rate (push rate s t) ticks

  unfoldable pub drain :
      SampleRingBuffer Sample Rate → List (Enriched Sample Rate) × SampleRingBuffer Sample Rate
  drain s = (s.buf, record s { buf = [] })

  -- Heartbeats, each after the ticks since the one before: what they upload.
  unfoldable pub heartbeats :
      (ℕ → ℕ → Rate)
      → SampleRingBuffer Sample Rate
      → List (List (Tick Sample))
      → List (List (Enriched Sample Rate))
  heartbeats rate s [] = []
  heartbeats rate s (ticks ∷ rounds) =
      let (items, s') = drain (push_all rate s ticks) in items ∷ heartbeats rate s' rounds
