-- ===== src/Agent/LogPump/Slices.antt =====
-- How many archives the stream has on the control plane under the agent's log pump
-- (node_agent/src/gpufleet_node_agent/runner/log_pump.py): a round takes none away.
use gpufleet.Prelude.{
  ℕ, zero, suc, ◌+◌, ◌≤◌, Text, Bool, true, false, ◌||◌, not, List, [], ◌∷◌, length, ltb,
  Bool-cases, inl, inr, arith,
}
use gpufleet.Logs.Archive.{is_empty}
use gpufleet.Logs.Chunk.{LogChunk, LogSettings, LogState, task_log_chunk}
use gpufleet.Logs.Chunk.Slices.{slices, task_log_chunk-slices}
use gpufleet.Agent.LogPump.{
  Attempt, lost, unanswered, answered, Verdict, accept, retry, give_up, verdict, after_answer,
  post_chunk, Pump, pump_of, chunk_at, store_acked, send_loop, send_last, send_log_chunks_with_ack,
  acked_log_offset, read_text_slice, upload_incremental_logs,
}

pub after_answer-slices :
    (n : ℕ) (v : Verdict) (t : LogState) (again : Bool × LogState)
    → n ≤ slices t
    → n ≤ slices again.1
    → n ≤ slices (after_answer v t again).1
after_answer-slices n accept t again h k = h
after_answer-slices n retry t again h k = k
after_answer-slices n give_up t again h k = h

pub post_chunk-slices :
    (settings : LogSettings) (attempts : List Attempt) (c : LogChunk) (s : LogState)
    → slices s ≤ slices (post_chunk settings attempts c s).1
unfolding post_chunk
post_chunk-slices settings [] c s = omega arith
post_chunk-slices settings (lost ∷ more) c s = post_chunk-slices settings more c s
post_chunk-slices settings (unanswered usage now ∷ more) c s = omega (
  arith,
  task_log_chunk-slices settings usage now s c,
  post_chunk-slices settings more c (task_log_chunk settings usage now s c).1,
)
post_chunk-slices settings (answered usage now ∷ more) c s =
    let t = (task_log_chunk settings usage now s c).1 in
    let one = task_log_chunk-slices settings usage now s c in
    after_answer-slices (slices s) (verdict (task_log_chunk settings usage now s c).0) t
      (post_chunk settings more c t) one (omega (arith, one, post_chunk-slices settings more c t))

pub send_loop-slices :
    (settings : LogSettings) (attempts : ℕ → List Attempt) (text : Text) (final : Bool)
    (fuel rel at : ℕ) (p : Pump)
    → slices p.server
      ≤ slices (pump_of (send_loop fuel settings attempts text final rel at p)).server
unfolding send_loop
send_loop-slices settings attempts text final zero rel at p = omega arith
send_loop-slices settings attempts text final (suc fuel) rel at p =
    let c = chunk_at text final rel at in
    let (accepted, s) = post_chunk settings (attempts at) c p.server in
    let posted = post_chunk-slices settings (attempts at) c p.server in
    elim (Bool-cases (ltb rel (length text))) [
      | inr over ↦ rw (over, send_loop) (omega arith)
      | inl more ↦ elim (Bool-cases accepted) [
        | inr refused ↦ rw (more, refused, send_loop) posted
        | inl fine ↦
            let rest =
              send_loop-slices settings attempts text final fuel (rel + length c.text)
                (at + length c.text) (store_acked (at + length c.text) s) in
            rw (more, fine, send_loop) (omega (arith, posted, rest))
      ]
    ]

pub send_last-slices :
    (settings : LogSettings) (attempts : ℕ → List Attempt) (final : Bool) (at : ℕ) (p : Pump)
    → slices p.server ≤ slices (pump_of (send_last settings attempts final at p)).server
unfolding send_last
send_last-slices settings attempts false at p = omega arith
send_last-slices settings attempts true at p =
    let c : LogChunk = record { offset_start = at; text = []; is_final = true } in
    let posted = post_chunk-slices settings (attempts at) c p.server in
    elim (Bool-cases (post_chunk settings (attempts at) c p.server).0) [
      | inl e ↦ rw (e, send_last) posted
      | inr e ↦ rw (e, send_last) posted
    ]

send-slices :
    (settings : LogSettings) (attempts : ℕ → List Attempt) (text : Text) (at : ℕ) (final : Bool)
    (p : Pump)
    → slices p.server
      ≤ slices (pump_of (send_log_chunks_with_ack settings attempts text at final p)).server
unfolding send_log_chunks_with_ack
send-slices settings attempts [] at final p = send_last-slices settings attempts final at p
send-slices settings attempts (c ∷ text) at final p =
    send_loop-slices settings attempts (c ∷ text) final (length (c ∷ text)) 0 at p

pub upload-slices :
    (settings : LogSettings) (attempts : ℕ → List Attempt) (text : Text) (final : Bool) (p : Pump)
    → slices p.server
      ≤ slices (pump_of (upload_incremental_logs settings attempts text final p)).server
unfolding upload_incremental_logs
upload-slices settings attempts text final p =
    let prev = acked_log_offset p.acked_offset in
    let new = read_text_slice text prev in
    elim (Bool-cases (not (is_empty new) || final)) [
      | inl e ↦ rw e (send-slices settings attempts new prev final _)
      | inr e ↦ rw e (omega arith)
    ]
