-- ===== src/Agent/LogPump/Delivery.antt =====
-- What one chunk of the agent, however often it is posted, does to the control plane.
use gpufleet.Prelude.{
  ℕ, ◌+◌, ◌≤◌, Text, Bool, true, ◌≡◌, ◌⊎◌, inl, inr, List, [], ◌∷◌, length, arith,
}
use gpufleet.Logs.Chunk.{
  LogChunk, LogSettings, LogState, LogReply, stored, offset_must_start_zero, offset_gap,
  stream_truncated, quota_exceeded, no_slice_left, endless_loop, task_log_chunk,
}
use gpufleet.Logs.Chunk.Prefix.{
  Synced, IsSlice, After, grown, kept, full, offset, is_stored, task_log_chunk-After,
}
use gpufleet.Logs.Archive.{last_slice}
use gpufleet.Logs.Chunk.Slices.{slices}
use gpufleet.Agent.LogPump.Slices.{after_answer-slices, post_chunk-slices}
use gpufleet.Agent.LogPump.{Attempt, lost, unanswered, answered, verdict, after_answer, post_chunk}

-- The stream has used up its archive numbers.
abbrev pub Exhausted : LogState → Type 0
Exhausted s = last_slice ≤ slices s

-- What a chunk leads to: the stored log stays a prefix and never shrinks, and holds an accepted
-- chunk to its end.
pub record Progress (source : Text) (s : LogState) (c : LogChunk) (accepted : Bool) (s' : LogState)
    : Type 0 where
  pub synced : Synced source s'.row s'.files
  pub grows : offset s.row ≤ offset s'.row
  pub holds : accepted ≡ true → c.offset_start + length c.text ≤ offset s'.row

of_After :
    (source : Text) (s : LogState) (c : LogChunk) (reply : LogReply) (s' : LogState)
    → After source s c reply s'
    → Progress source s c (is_stored reply) s' ⊎ Exhausted s'
of_After source s c reply s' (grown v e) =
    inl (record { synced = v; grows = omega (arith, e); holds = λ _. omega (arith, e) })
of_After source s c reply s' (kept refused files same_offset v) = inl (record {
  synced = v;
  grows = omega (arith, same_offset);
  holds = λ yes_stored. absurd (ground arith);
})
of_After source s c reply s' (full gone) = inr gone

module _ (settings : LogSettings) (source : Text)
    (wide : 4 ≤ settings.task_log_stream_max_bytes) where
  chunk-Progress :
      (usage : ℕ) (now : Text) (s : LogState) (c : LogChunk)
      → Synced source s.row s.files
      → IsSlice source c
      → let (reply, s') = task_log_chunk settings usage now s c in
        Progress source s c (is_stored reply) s' ⊎ Exhausted s'
  chunk-Progress usage now s c v slice =
      of_After source s c _ _ (task_log_chunk-After settings usage now source s c wide v slice)

  weaken :
      (s t : LogState) (c : LogChunk) (b b' : Bool) (s' : LogState)
      → Progress source s c b t
      → Progress source t c b' s'
      → Progress source s c b' s'
  weaken s t c b b' s' first then_next = record {
    synced = then_next.synced;
    grows = omega (arith, first.grows, then_next.grows);
    holds = then_next.holds;
  }

  or_weaken :
      (s t : LogState) (c : LogChunk) (b : Bool) (again : Bool × LogState)
      → Progress source s c b t
      → Progress source t c again.0 again.1 ⊎ Exhausted again.1
      → Progress source s c again.0 again.1 ⊎ Exhausted again.1
  or_weaken s t c b again first (inl rest) = inl (weaken s t c b again.0 again.1 first rest)
  or_weaken s t c b again first (inr gone) = inr gone

  answer-Progress :
      (s : LogState) (c : LogChunk) (reply : LogReply) (t : LogState) (again : Bool × LogState)
      → Progress source s c (is_stored reply) t
      → Progress source t c again.0 again.1 ⊎ Exhausted again.1
      → let (accepted, s') = after_answer (verdict reply) t again in
        Progress source s c accepted s' ⊎ Exhausted s'
  answer-Progress s c (stored n final) t again first rest = inl first
  answer-Progress s c no_slice_left t again first rest = or_weaken s t c _ again first rest
  answer-Progress s c endless_loop t again first rest = or_weaken s t c _ again first rest
  answer-Progress s c offset_must_start_zero t again first rest = inl first
  answer-Progress s c (offset_gap n) t again first rest = inl first
  answer-Progress s c stream_truncated t again first rest = inl first
  answer-Progress s c quota_exceeded t again first rest = inl first

  pub post_chunk-Progress :
      (attempts : List Attempt) (c : LogChunk) (s : LogState)
      → Synced source s.row s.files
      → IsSlice source c
      → let (accepted, s') = post_chunk settings attempts c s in
        Progress source s c accepted s' ⊎ Exhausted s'
  unfolding post_chunk
  post_chunk-Progress [] c s v slice =
      inl (record { synced = v; grows = omega arith; holds = λ never. absurd (ground arith) })
  post_chunk-Progress (lost ∷ more) c s v slice = post_chunk-Progress more c s v slice
  post_chunk-Progress (unanswered usage now ∷ more) c s v slice =
      elim (chunk-Progress usage now s c v slice) [
        | inr gone ↦ inr (
            omega (
              arith,
              gone,
              post_chunk-slices settings more c (task_log_chunk settings usage now s c).1,
            ))
        | inl first ↦
            let t = (task_log_chunk settings usage now s c).1 in
            or_weaken s t c _ (post_chunk settings more c t) first
              (post_chunk-Progress more c t first.synced slice)
      ]
  post_chunk-Progress (answered usage now ∷ more) c s v slice =
      elim (chunk-Progress usage now s c v slice) [
        | inr gone ↦
            let t = (task_log_chunk settings usage now s c).1 in
            inr (
              after_answer-slices last_slice (verdict (task_log_chunk settings usage now s c).0) t
                (post_chunk settings more c t) gone
                (omega (arith, gone, post_chunk-slices settings more c t)))
        | inl first ↦
            answer-Progress s c (task_log_chunk settings usage now s c).0
              (task_log_chunk settings usage now s c).1
              (post_chunk settings more c (task_log_chunk settings usage now s c).1) first
              (post_chunk-Progress more c (task_log_chunk settings usage now s c).1 first.synced
                slice)
      ]
