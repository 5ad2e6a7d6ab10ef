-- ===== src/Logs/Chunk/Slices.antt =====
-- How many archives a stream has under `task_log_chunk` (app/services/node_runtime_service.py).
use gpufleet.Prelude.{ℕ, ◌≤◌, Text, ◌≡◌, refl, length, arith, Bool-cases, inl, inr}
use gpufleet.Logs.Archive.{Appended, done, too_many_slices, out_of_fuel, append_log_chunk}
use gpufleet.Logs.Archive.Slices.{Grown, append_log_chunk-Grown}
use gpufleet.Logs.Chunk.{
  LogChunk, LogSettings, LogState, append, refuse, NewText, new_text, truncated, over_quota,
  store_text, append_text_of, task_log_chunk,
}

abbrev pub slices : LogState → ℕ
slices s = length s.files.archives

store_text-slices :
    (settings : LogSettings) (now : Text) (s : LogState) (c : LogChunk) (t : Text)
    → slices s ≤ slices (store_text settings now s c t).1
unfolding store_text
store_text-slices settings now s c t =
    by_end (append_log_chunk s.files t settings.task_log_stream_max_bytes) refl
      (append_log_chunk-Grown s.files t settings.task_log_stream_max_bytes)
  where
    by_end :
        (a : Appended)
        → append_log_chunk s.files t settings.task_log_stream_max_bytes ≡ a
        → Grown (slices s) a
        → slices s ≤ slices (store_text settings now s c t).1
    by_end (done f) e grown = rw (e, store_text) grown
    by_end (too_many_slices f) e grown = rw (e, store_text) grown.0
    by_end (out_of_fuel f) e grown = rw (e, store_text) grown

append_text_of-slices :
    (settings : LogSettings) (usage : ℕ) (now : Text) (s : LogState) (c : LogChunk) (t : Text)
    → slices s ≤ slices (append_text_of settings usage now s c t).1
unfolding append_text_of
append_text_of-slices settings usage now s c t = elim (Bool-cases (truncated s.row)) [
  | inl gone ↦ rw gone (omega arith)
  | inr live ↦ elim (Bool-cases (over_quota settings usage t)) [
    | inl over ↦ rw (live, over) (omega arith)
    | inr within ↦ rw (live, within) (store_text-slices settings now s c t)
  ]
]

-- No chunk takes an archive away.
pub task_log_chunk-slices :
    (settings : LogSettings) (usage : ℕ) (now : Text) (s : LogState) (c : LogChunk)
    → slices s ≤ slices (task_log_chunk settings usage now s c).1
unfolding task_log_chunk
task_log_chunk-slices settings usage now s c = by_text (new_text s.row c) refl
  where
    by_text :
        (n : NewText)
        → new_text s.row c ≡ n
        → slices s ≤ slices (task_log_chunk settings usage now s c).1
    by_text (refuse reply) e = rw (e, task_log_chunk) (omega arith)
    by_text (append t) e = rw (e, task_log_chunk) (append_text_of-slices settings usage now s c t)
