-- ===== src/Agent/Sampler/Rounds.antt =====
-- What heartbeats upload of the samples of node_agent/src/gpufleet_node_agent/sampler.py.
use gpufleet.Prelude.{
  ℕ, ◌-◌, ◌≡◌, refl, sym, ap, ◌∙◌, ap₂, Option, none, some, ◌&&◌, ltb, leb, if◌then◌else◌,
  Bool-cases, inl, inr, List, [], ◌∷◌, ◌++◌, append_assoc, append-nil, take_last, take_last-append,
  drop_none, arith,
}
use gpufleet.Agent.Sampler.{
  NetIo, Enriched, SampleRingBuffer, Tick, enrich_with_net_bps, deque_append, push, push_all, drain,
  heartbeats,
}

abbrev pub reading : ℕ → Option NetIo → Option (ℕ × NetIo)
reading now none = none
reading now (some io) = some (now, io)

abbrev pub or_older : Option (ℕ × NetIo) → Option (ℕ × NetIo) → Option (ℕ × NetIo)
or_older none older = older
or_older (some newer) older = some newer

-- The counters read last in `ticks`, with their time; `before` is what was read before them.
unfoldable pub last_read {ℓ} :
    {Sample : Type ℓ} → Option (ℕ × NetIo) → List (Tick Sample) → Option (ℕ × NetIo)
last_read before [] = before
last_read before (t ∷ ticks) =
    or_older (last_read none ticks) (or_older (reading t.now t.counters) before)

or_older_assoc :
    (a b c : Option (ℕ × NetIo)) → or_older (or_older a b) c ≡ or_older a (or_older b c)
or_older_assoc none b c = refl
or_older_assoc (some r) b c = refl

module _ {ℓ κ} {Sample : Type ℓ} {Rate : Type κ} (rate : ℕ → ℕ → Rate) where
  -- A sample with its rates: the growth of each counter since the reading `before`, where both times
  -- and counters are known, time went on and no counter went back; otherwise none.
  unfoldable pub expected : Option (ℕ × NetIo) → Tick Sample → Enriched Sample Rate
  expected none t = record { sample = t.sample; upload_bps = none; download_bps = none }
  expected (some (last_time, last_io)) t = elim t.counters [
    | none ↦ record { sample = t.sample; upload_bps = none; download_bps = none }
    | some io ↦
        let usable =
          ltb last_time t.now
          && (leb last_io.bytes_sent io.bytes_sent && leb last_io.bytes_recv io.bytes_recv) in
        record {
          sample = t.sample;
          upload_bps =
              if usable
              then some (rate (io.bytes_sent - last_io.bytes_sent) (t.now - last_time))
              else none;
          download_bps =
              if usable
              then some (rate (io.bytes_recv - last_io.bytes_recv) (t.now - last_time))
              else none;
        }
  ]

  -- The samples of ticks that follow the ticks `past`, each with the rates since the reading before it.
  unfoldable pub expected_all :
      Option (ℕ × NetIo) → List (Tick Sample) → List (Tick Sample) → List (Enriched Sample Rate)
  expected_all first past [] = []
  expected_all first past (t ∷ ticks) =
      expected (last_read first past) t ∷ expected_all first (past ++ t ∷ []) ticks

  -- Of each round the newest samples, as many as the buffer holds.
  unfoldable pub newest_by_round :
      ℕ
      → Option (ℕ × NetIo)
      → List (Tick Sample)
      → List (List (Tick Sample))
      → List (List (Enriched Sample Rate))
  newest_by_round capacity first past [] = []
  newest_by_round capacity first past (ticks ∷ rounds) =
      take_last capacity (expected_all first past ticks)
      ∷ newest_by_round capacity first (past ++ ticks) rounds

  last-append :
      (first : Option (ℕ × NetIo)) (past : List (Tick Sample)) (t : Tick Sample)
      → last_read first (past ++ t ∷ [])
        ≡ or_older (reading t.now t.counters) (last_read first past)
  unfolding last_read
  last-append first [] t = refl
  last-append first (x ∷ past) t =
      ap (λ z. or_older z (or_older (reading x.now x.counters) first)) (last-append none past t)
      ∙ or_older_assoc (reading t.now t.counters) (last_read none past) _

  enrich_cases :
      (last : Option (ℕ × NetIo)) (sample : Sample) (now : ℕ) (c : Option NetIo)
      → let t : Tick Sample = record { sample = sample; now = now; counters = c } in
        enrich_with_net_bps rate last t ≡ (expected last t, or_older (reading now c) last)
  unfolding enrich_with_net_bps expected
  enrich_cases none sample now none = refl
  enrich_cases none sample now (some io) = refl
  enrich_cases (some last) sample now none = refl
  enrich_cases (some (last_time, last_io)) sample now (some io) =
      elim (Bool-cases (
        ltb last_time now
        && (leb last_io.bytes_sent io.bytes_sent && leb last_io.bytes_recv io.bytes_recv))) [
          | inl usable ↦ rw usable refl
          | inr not_usable ↦ rw not_usable refl
        ]

  enrich_lem :
      (first : Option (ℕ × NetIo)) (past : List (Tick Sample)) (t : Tick Sample)
      → enrich_with_net_bps rate (last_read first past) t
        ≡ (expected (last_read first past) t, last_read first (past ++ t ∷ []))
  enrich_lem first past t =
      enrich_cases (last_read first past) t.sample t.now t.counters
      ∙ ap (λ z. (expected (last_read first past) t, z)) (sym (last-append first past t))

  push_all-newest :
      (first : Option (ℕ × NetIo)) (earlier ticks : List (Tick Sample))
      (s : SampleRingBuffer Sample Rate) (past : List (Enriched Sample Rate))
      → s.last_net ≡ last_read first earlier
      → s.buf ≡ take_last s.capacity past
      → push_all rate s ticks ≡ record s {
        buf = take_last s.capacity (past ++ expected_all first earlier ticks);
        last_net = last_read first (earlier ++ ticks);
      }
  unfolding push_all push deque_append expected_all
  push_all-newest first earlier [] s past at h =
      ap₂ (λ buf last. record s { buf = buf; last_net = last })
        (h ∙ ap (λ xs. take_last s.capacity xs) (sym (append-nil past)))
        (at ∙ ap (last_read first) (sym (append-nil earlier)))
  push_all-newest first earlier (t ∷ ticks) s past at h =
      let x = expected (last_read first earlier) t in
      let one : enrich_with_net_bps rate s.last_net t ≡ (x, last_read first (earlier ++ t ∷ [])) =
        ap (λ last. enrich_with_net_bps rate last t) at ∙ enrich_lem first earlier t in
      let kept : (push rate s t).buf ≡ take_last s.capacity (past ++ x ∷ []) =
        ap (λ y. take_last s.capacity (s.buf ++ y.0 ∷ [])) one
        ∙ ap (λ buf. take_last s.capacity (buf ++ x ∷ [])) h
        ∙ take_last-append s.capacity past (x ∷ []) in
      push_all-newest first (earlier ++ t ∷ []) ticks (push rate s t) (past ++ x ∷ [])
        (ap (λ y. y.1) one) kept
      ∙ ap₂ (λ xs all. record s { buf = take_last s.capacity xs; last_net = last_read first all })
          (append_assoc past (x ∷ []) (expected_all first (earlier ++ t ∷ []) ticks))
          (append_assoc earlier (t ∷ []) ticks)

  heartbeats-rounds :
      (first : Option (ℕ × NetIo)) (earlier : List (Tick Sample))
      (rounds : List (List (Tick Sample))) (s : SampleRingBuffer Sample Rate)
      → s.last_net ≡ last_read first earlier
      → s.buf ≡ []
      → heartbeats rate s rounds ≡ newest_by_round s.capacity first earlier rounds
  unfolding heartbeats newest_by_round drain
  heartbeats-rounds first earlier [] s at h = refl
  heartbeats-rounds first earlier (ticks ∷ rounds) s at h =
      let full =
        push_all-newest first earlier ticks s [] at
          (h ∙ sym (drop_none (0 - s.capacity) [] (omega arith))) in
      rw full (
        ap (λ xs. take_last s.capacity (expected_all first earlier ticks) ∷ xs)
          (heartbeats-rounds first (earlier ++ ticks) rounds _ refl refl))

-- Starting with an empty buffer, each heartbeat uploads the newest samples taken since the heartbeat
-- before it, up to the capacity, in their order and each once. The rates of a sample
-- come from the counters read last before it, in a sample that was dropped or not.
pub heartbeats-newest {ℓ κ} :
    {Sample : Type ℓ} {Rate : Type κ} (rate : ℕ → ℕ → Rate) (s : SampleRingBuffer Sample Rate)
    (rounds : List (List (Tick Sample)))
    → s.buf ≡ []
    → heartbeats rate s rounds ≡ newest_by_round rate s.capacity s.last_net [] rounds
unfolding last_read
heartbeats-newest rate s rounds h = heartbeats-rounds rate s.last_net [] rounds s refl h
