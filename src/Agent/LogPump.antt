-- ===== src/Agent/LogPump.antt =====
-- node_agent/src/gpufleet_node_agent/runner/log_pump.py: one stream of one task, with the control
-- plane's `task_log_chunk` at the other end.
-- A chunk is posted in several attempts (`post_signed_json` of api_client.py); a circuit that is open
-- makes none. Each attempt may be lost on the way there or back. The file is taken to grow by whole
-- code points: one that is written in parts would read as a replacement character in between.
pub mod Slices
pub mod Delivery
pub mod Exact
pub mod Rounds
use gpufleet.Prelude.{
  ℕ, zero, suc, ◌+◌, Text, Bool, true, false, ◌&&◌, ◌||◌, not, Option, none, some, List, [], ◌∷◌,
  length, take, drop, ltb, leb, if◌then◌else◌,
}
use gpufleet.Logs.Archive.{is_empty}
use gpufleet.Logs.Chunk.{
  LogChunk, LogSettings, LogState, LogReply, stored, offset_must_start_zero, offset_gap,
  stream_truncated, quota_exceeded, no_slice_left, endless_loop, task_log_chunk,
}

-- What befalls one attempt: whether it reaches the control plane, with the storage in use and the
-- time there, and whether its answer comes back.
pub data Attempt : Type 0 where
  lost : Attempt
  unanswered : ℕ → Text → Attempt
  answered : ℕ → Text → Attempt

-- What `post_signed_json` makes of an answer: 2xx, a status to retry, another one to raise.
pub data Verdict : Type 0 where
  accept retry give_up : Verdict

abbrev pub verdict : LogReply → Verdict
verdict (stored n final) = accept
verdict no_slice_left = retry
verdict endless_loop = retry
verdict _ = give_up

abbrev pub after_answer : Verdict → LogState → Bool × LogState → Bool × LogState
after_answer accept s' again = (true, s')
after_answer retry s' again = again
after_answer give_up s' again = (false, s')

unfoldable pub post_chunk : LogSettings → List Attempt → LogChunk → LogState → Bool × LogState
post_chunk settings [] c s = (false, s)
post_chunk settings (lost ∷ more) c s = post_chunk settings more c s
post_chunk settings (unanswered usage now ∷ more) c s =
    post_chunk settings more c (task_log_chunk settings usage now s c).1
post_chunk settings (answered usage now ∷ more) c s =
    let (reply, s') = task_log_chunk settings usage now s c in
    let again = post_chunk settings more c s' in after_answer (verdict reply) s' again

-- log_offsets.json of the agent, for the stream, and the control plane.
pub record Pump : Type 0 where
  pub acked_offset : Option ℕ
  pub server : LogState

-- `raised`: the exception of a chunk that was not accepted.
pub data Sending : Type 0 where
  sent : ℕ → Pump → Sending
  raised : Pump → Sending

abbrev pub pump_of : Sending → Pump
pump_of (sent offset p) = p
pump_of (raised p) = p

abbrev pub log_chunk_size : ℕ
log_chunk_size = 3500

abbrev pub acked_log_offset : Option ℕ → ℕ
acked_log_offset none = 0
acked_log_offset (some n) = n

abbrev pub chunk_at : Text → Bool → ℕ → ℕ → LogChunk
chunk_at text final relative_offset offset = record {
  offset_start = offset;
  text = take log_chunk_size (drop relative_offset text);
  is_final =
      final
      && leb (length text)
          (relative_offset + length (take log_chunk_size (drop relative_offset text)));
}

-- store_acked_log_offset
abbrev pub store_acked : ℕ → LogState → Pump
store_acked offset s = record { acked_offset = some offset; server = s }

-- while relative_offset < len(text): each round sends a code point at least. `attempts` tells what
-- befalls the chunk that starts at an offset.
unfoldable pub send_loop :
    ℕ → LogSettings → (ℕ → List Attempt) → Text → Bool → ℕ → ℕ → Pump → Sending
send_loop zero settings attempts text final relative_offset offset p = sent offset p
send_loop (suc fuel) settings attempts text final relative_offset offset p =
    let c = chunk_at text final relative_offset offset in
    let (accepted, s) = post_chunk settings (attempts offset) c p.server in
    let rest =
      send_loop fuel settings attempts text final (relative_offset + length c.text)
        (offset + length c.text) (store_acked (offset + length c.text) s) in
    if ltb relative_offset (length text)
    then (if accepted then rest else raised (record p { server = s }))
    else sent offset p

-- The empty chunk that marks the end.
unfoldable pub send_last : LogSettings → (ℕ → List Attempt) → Bool → ℕ → Pump → Sending
send_last settings attempts false start_offset p = sent start_offset p
send_last settings attempts true start_offset p =
    let c : LogChunk = record { offset_start = start_offset; text = []; is_final = true } in
    let (accepted, s) = post_chunk settings (attempts start_offset) c p.server in
    if accepted
    then sent start_offset (store_acked start_offset s)
    else raised (record p { server = s })

unfoldable pub send_log_chunks_with_ack :
    LogSettings → (ℕ → List Attempt) → Text → ℕ → Bool → Pump → Sending
send_log_chunks_with_ack settings attempts [] start_offset final p =
    send_last settings attempts final start_offset p
send_log_chunks_with_ack settings attempts (c ∷ text) start_offset final p =
    send_loop (length (c ∷ text)) settings attempts (c ∷ text) final 0 start_offset p

-- `text[offset:]`, or nothing.
abbrev pub read_text_slice : Text → ℕ → Text
read_text_slice text offset = if leb (length text) offset then [] else drop offset text

-- init_log_offsets, and a round for the stream, whose file holds `text` by now.
unfoldable pub upload_incremental_logs :
    LogSettings → (ℕ → List Attempt) → Text → Bool → Pump → Sending
upload_incremental_logs settings attempts text final p =
    let previous_offset = acked_log_offset p.acked_offset in
    let p' = record p { acked_offset = some previous_offset } in
    let new = read_text_slice text previous_offset in
    if not (is_empty new) || final
    then send_log_chunks_with_ack settings attempts new previous_offset final p'
    else sent previous_offset p'
