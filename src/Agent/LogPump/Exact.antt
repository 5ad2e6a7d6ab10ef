-- ===== src/Agent/LogPump/Exact.antt =====
-- What a round of the agent's log pump (runner/log_pump.py) leaves on the control plane.
use gpufleet.Prelude.{
  ℕ, zero, suc, ◌+◌, ◌-◌, ◌≤◌, ◌<◌, Text, Bool, true, false, ◌||◌, not, ◌≡◌, refl, sym, ap, ◌∙◌,
  ◌⊎◌, inl, inr, some, List, [], ◌∷◌, length, take, drop, ltb, if◌then◌else◌, arith, Bool-cases,
  length-take, length-drop, drop-drop, drop_all,
}
use gpufleet.Logs.Archive.{is_empty}
use gpufleet.Logs.Chunk.{LogChunk, LogSettings}
use gpufleet.Logs.Chunk.Prefix.{Synced, IsSlice, offset}
use gpufleet.Agent.LogPump.{
  Attempt, post_chunk, Pump, Sending, sent, raised, pump_of, acked_log_offset, log_chunk_size,
  chunk_at, store_acked, send_loop, send_last, send_log_chunks_with_ack, read_text_slice,
  upload_incremental_logs,
}
use gpufleet.Logs.Archive.{last_slice}
use gpufleet.Logs.Chunk.Slices.{slices}
use gpufleet.Agent.LogPump.Slices.{send_loop-slices}
use gpufleet.Agent.LogPump.Delivery.{Exhausted, post_chunk-Progress}

take-length : (n : ℕ) (t : Text) → take (length (take n t)) t ≡ take n t
take-length zero t = refl
take-length (suc n) [] = refl
take-length (suc n) (c ∷ t) = ap (λ u. c ∷ u) (take-length n t)

module _ (settings : LogSettings) (source : Text)
    (wide : 4 ≤ settings.task_log_stream_max_bytes) where
  -- The control plane holds a prefix of the file, and at least what the agent has noted.
  pub record Upright (p : Pump) : Type 0 where
    pub synced : Synced source p.server.row p.server.files
    pub noted : acked_log_offset p.acked_offset ≤ offset p.server.row

  -- A round's result: after `sent n`, everything before `n` is stored, and `n` is the end of the file.
  abbrev pub Good : Sending → Type 0
  Good (sent n p) = Upright p × (n ≡ length source) × (length source ≤ offset p.server.row)
  Good (raised p) = Upright p

  chunk-IsSlice :
      (text : Text) (final : Bool) (prev rel at : ℕ)
      → text ≡ drop prev source
      → at ≡ prev + rel
      → at ≤ length source
      → IsSlice source (chunk_at text final rel at)
  chunk-IsSlice text final prev rel at cut place inside =
      let rest : drop rel text ≡ drop at source =
        ap (drop rel) cut
        ∙ drop-drop rel prev source
        ∙ ap (λ i. drop i source) (omega (arith, place)) in
      (
        omega (
          arith,
          length-take log_chunk_size (drop rel text),
          ap length rest,
          length-drop at source,
          inside,
        ),
        sym (take-length log_chunk_size (drop rel text))
            ∙ ap (take (length (take log_chunk_size (drop rel text)))) rest,
      )

  module _ (attempts : ℕ → List Attempt) (text : Text) (final : Bool) (prev : ℕ)
      (cut : text ≡ drop prev source) (inside : prev ≤ length source) where
    at_end :
        (rel at : ℕ) (p : Pump)
        → at ≡ prev + rel
        → length text ≤ rel
        → at ≤ length source
        → Upright p
        → at ≤ offset p.server.row
        → Good (sent at p)
    at_end rel at p place over bound up held =
        let size = ap length cut ∙ length-drop prev source in
        let whole : at ≡ length source = omega (arith, size, place, over, bound, inside) in
        (up, whole, omega (arith, whole, held))

    send_loop-Good :
        (fuel rel at : ℕ) (p : Pump)
        → at ≡ prev + rel
        → length text ≤ fuel + rel
        → at ≤ length source
        → Upright p
        → at ≤ offset p.server.row
        → let x = send_loop fuel settings attempts text final rel at p in
          Good x ⊎ Exhausted (pump_of x).server
    unfolding send_loop
    send_loop-Good zero rel at p place enough bound up held =
        inl (at_end rel at p place (omega (arith, enough)) bound up held)
    send_loop-Good (suc fuel) rel at p place enough bound up held =
        elim (Bool-cases (ltb rel (length text))) [
          | inr over ↦
              rw (over, send_loop)
                (inl (at_end rel at p place (ground (arith, over)) bound up held))
          | inl more ↦
              let c = chunk_at text final rel at in
              let slice = chunk-IsSlice text final prev rel at cut place bound in
              let size : length text ≡ length source - prev =
                ap length cut ∙ length-drop prev source in
              let long : 1 ≤ length c.text =
                ground
                  (arith, more, length-take log_chunk_size (drop rel text), length-drop rel text) in
              let (accepted, s) = post_chunk settings (attempts at) c p.server in
              elim (post_chunk-Progress settings source wide (attempts at) c p.server up.synced
                slice) [
                  | inr gone ↦ elim (Bool-cases accepted) [
                    | inr refused ↦ rw (more, refused, send_loop) (inr gone)
                    | inl yes_accepted ↦
                        rw (more, yes_accepted, send_loop)
                          (inr (
                            omega (
                              arith,
                              gone,
                              send_loop-slices settings attempts text final fuel
                                  (rel + length c.text) (at + length c.text)
                                  (store_acked (at + length c.text) s),
                            )))
                  ]
                  | inl progress ↦ elim (Bool-cases accepted) [
                    | inl yes_accepted ↦
                        let stored_to = progress.holds yes_accepted in
                        rw (more, yes_accepted, send_loop)
                          (send_loop-Good fuel (rel + length c.text) (at + length c.text)
                            (store_acked (at + length c.text) s) (omega (arith, place))
                            (omega (arith, enough, long)) slice.0
                            (record { synced = progress.synced; noted = stored_to }) stored_to)
                    | inr refused ↦
                        rw (more, refused, send_loop)
                          (inl (record {
                            synced = progress.synced;
                            noted = omega (arith, up.noted, progress.grows);
                          }))
                  ]
                ]
        ]

  send_last-Good :
      (attempts : ℕ → List Attempt) (final : Bool) (prev : ℕ) (p : Pump)
      → prev ≡ length source
      → Upright p
      → prev ≤ offset p.server.row
      → let x = send_last settings attempts final prev p in Good x ⊎ Exhausted (pump_of x).server
  unfolding send_last
  send_last-Good attempts false prev p whole up held = inl (up, whole, omega (arith, whole, held))
  send_last-Good attempts true prev p whole up held =
      let c : LogChunk = record { offset_start = prev; text = []; is_final = true } in
      let (accepted, s) = post_chunk settings (attempts prev) c p.server in
      elim (post_chunk-Progress settings source wide (attempts prev) c p.server up.synced
        (omega (arith, whole), refl)) [
          | inr gone ↦ elim (Bool-cases accepted) [
            | inl e ↦ rw (e, send_last) (inr gone)
            | inr e ↦ rw (e, send_last) (inr gone)
          ]
          | inl progress ↦ elim (Bool-cases accepted) [
            | inl e ↦
                let stored_to : prev ≤ offset s.row = omega (arith, progress.holds e) in
                rw (e, send_last)
                  (inl (
                    record { synced = progress.synced; noted = stored_to },
                    whole,
                    omega (arith, whole, stored_to),
                  ))
            | inr e ↦
                rw (e, send_last)
                  (inl (record {
                    synced = progress.synced;
                    noted = omega (arith, up.noted, progress.grows);
                  }))
          ]
        ]

  round-Good :
      (attempts : ℕ → List Attempt) (text : Text) (final : Bool) (prev : ℕ) (p : Pump)
      → text ≡ drop prev source
      → prev ≤ length source
      → Upright p
      → prev ≤ offset p.server.row
      → let x : Sending =
          if not (is_empty text) || final
          then send_log_chunks_with_ack settings attempts text prev final p
          else sent prev p in
        Good x ⊎ Exhausted (pump_of x).server
  unfolding send_log_chunks_with_ack
  round-Good attempts [] final prev p cut inside up held =
      let whole : prev ≡ length source =
        omega (arith, ap length cut, length-drop prev source, inside) in
      elim (Bool-cases final) [
        | inl e ↦
            rw (e, send_log_chunks_with_ack) (send_last-Good attempts true prev p whole up held)
        | inr e ↦ rw e (inl (up, whole, omega (arith, whole, held)))
      ]
  round-Good attempts (c ∷ text) final prev p cut inside up held =
      send_loop-Good attempts (c ∷ text) final prev cut inside (length (c ∷ text)) 0 prev p
        (omega arith) (omega arith) inside up held

  slice_lem : (prev : ℕ) → prev ≤ length source → read_text_slice source prev ≡ drop prev source
  slice_lem prev inside = ground (arith, drop_all prev source)

  upload_cases :
      (attempts : ℕ → List Attempt) (final : Bool) (p : Pump)
      → Upright p
      → let x = upload_incremental_logs settings attempts source final p in
        Good x ⊎ Exhausted (pump_of x).server
  unfolding upload_incremental_logs
  upload_cases attempts final p up =
      let prev = acked_log_offset p.acked_offset in
      let inside : prev ≤ length source = omega (arith, up.noted, up.synced.offset_inside) in
      round-Good attempts (read_text_slice source prev) final prev
        (record p { acked_offset = some prev }) (slice_lem prev inside) inside
        (record { synced = up.synced; noted = up.noted }) up.noted

  -- One round of the agent over its log file, from a state in which the control plane holds a prefix
  -- of the file, to one in which the stream has not used up its 99999 archive numbers: whatever is
  -- lost, the control plane holds a prefix afterwards that reaches at least as far as the agent has
  -- noted; and if the round ends without an exception, the prefix is the whole file. The files' limit
  -- is at least four bytes.
  pub upload-Good :
      (attempts : ℕ → List Attempt) (final : Bool) (p : Pump)
      → Upright p
      → slices (pump_of (upload_incremental_logs settings attempts source final p)).server
        < last_slice
      → Good (upload_incremental_logs settings attempts source final p)
  upload-Good attempts final p up left = elim (upload_cases attempts final p up) [
    | inl good ↦ good
    | inr gone ↦ absurd (omega (arith, gone, left))
  ]
