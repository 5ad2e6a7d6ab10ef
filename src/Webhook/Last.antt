-- ===== src/Webhook/Last.antt =====
-- What the queue of `WebhookEmitter` (app/webhook.py) holds after several events.
use gpufleet.Prelude.{
  ℕ, ◌-◌, ◌≤◌, true, false, ◌≡◌, refl, sym, ap, ap₂, subst, ◌∙◌, List, [], ◌∷◌, ◌++◌, length, drop,
  take_last, take_last-append, select, ltb, arith, Bool-cases, inl, inr, length-append, length-drop,
  append_assoc, append-nil, drop_none,
}
use gpufleet.Webhook.{Envelope, Emitter, queue_capacity, is_allowed, without_oldest, put, emit}

abbrev pub emit_all : Emitter → List Envelope → Emitter
emit_all s [] = s
emit_all s (e ∷ events) = emit_all (emit s e) events

-- Putting one event keeps the newest thousand.
put_queue :
    (s : Emitter) (e : Envelope)
    → length s.queue ≤ queue_capacity
    → ((put s e).queue ≡ take_last queue_capacity (s.queue ++ e ∷ []))
      × ((put s e).enabled ≡ s.enabled)
      × ((put s e).allowed_events ≡ s.allowed_events)
unfolding put
put_queue s e bound = elim (Bool-cases (ltb (length s.queue) queue_capacity)) [
  | inl room ↦
      rw (room, put)
        (
          sym (
              drop_none (length (s.queue ++ e ∷ []) - 1000) (s.queue ++ e ∷ [])
                (ground (arith, room, length-append {0} s.queue (e ∷ [])))),
          refl,
          refl,
        )
  | inr full ↦
      let long : length s.queue ≡ 1000 = ground (arith, full, bound) in
      let one : 1 ≡ length (s.queue ++ e ∷ []) - 1000 =
        omega (arith, long, length-append {0} s.queue (e ∷ [])) in
      rw (full, put)
        (
          drop_oldest s.queue (omega (arith, long)) ∙ ap (λ n. drop n (s.queue ++ e ∷ [])) one,
          refl,
          refl,
        )
]
  where
    drop_oldest :
        (queue : List Envelope)
        → 1 ≤ length queue
        → without_oldest queue ++ e ∷ [] ≡ drop 1 (queue ++ e ∷ [])
    drop_oldest [] h = absurd (omega (arith, h))
    drop_oldest (oldest ∷ queue) h = refl

length-take_last : (n : ℕ) (t : List Envelope) → length (take_last n t) ≤ n
length-take_last n t = omega (arith, length-drop (length t - n) t)

emit_allowed :
    (s : Emitter) (e : Envelope)
    → is_allowed s.enabled s.allowed_events e ≡ true
    → emit s e ≡ put s e
unfolding emit
emit_allowed s e h = rw h refl

emit_other :
    (s : Emitter) (e : Envelope) → is_allowed s.enabled s.allowed_events e ≡ false → emit s e ≡ s
unfolding emit
emit_other s e h = rw h refl

-- Events that are emitted while no delivery ends: the queue then holds the newest thousand of what it
-- held and of the events on the white list, in their order, all others are dropped from the oldest
-- on, and it never holds more.
pub emit_all-newest :
    (s : Emitter) (events : List Envelope)
    → length s.queue ≤ queue_capacity
    → ((emit_all s events).queue
        ≡ take_last queue_capacity
            (s.queue ++ select (is_allowed s.enabled s.allowed_events) events))
      × (length (emit_all s events).queue ≤ queue_capacity)
emit_all-newest s [] bound = (
  sym (
      drop_none (length (s.queue ++ []) - 1000) (s.queue ++ [])
        (omega (arith, bound, ap length (append-nil s.queue)))
      ∙ append-nil s.queue),
  bound,
)
emit_all-newest s (e ∷ events) bound = elim (Bool-cases (is_allowed s.enabled s.allowed_events e)) [
  | inl yes_allowed ↦
      let (queue, same_enabled, same_allowed) = put_queue s e bound in
      let put_bound : length (put s e).queue ≤ queue_capacity =
        subst (λ q. length q ≤ queue_capacity) (sym queue)
          (length-take_last 1000 (s.queue ++ e ∷ [])) in
      let (rest, rest_bound) = emit_all-newest (put s e) events put_bound in
      let chosen = select (is_allowed s.enabled s.allowed_events) events in
      subst
        (λ x.
          ((emit_all x events).queue
            ≡ take_last queue_capacity
                (s.queue ++ select (is_allowed s.enabled s.allowed_events) (e ∷ events)))
          × (length (emit_all x events).queue ≤ queue_capacity))
        (sym (emit_allowed s e yes_allowed))
        (rw yes_allowed (
          rest
              ∙ ap₂ (λ q p. take_last queue_capacity (q ++ select p events)) queue
                  (ap₂ is_allowed same_enabled same_allowed)
              ∙ take_last-append 1000 (s.queue ++ e ∷ []) chosen
              ∙ ap (take_last 1000) (append_assoc s.queue (e ∷ []) chosen),
          rest_bound,
        ))
  | inr not_allowed ↦
      subst
        (λ x.
          ((emit_all x events).queue
            ≡ take_last queue_capacity
                (s.queue ++ select (is_allowed s.enabled s.allowed_events) (e ∷ events)))
          × (length (emit_all x events).queue ≤ queue_capacity))
        (sym (emit_other s e not_allowed)) (rw not_allowed (emit_all-newest s events bound))
]
