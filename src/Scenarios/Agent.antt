-- ===== src/Scenarios/Agent.antt =====
-- An agent whose first answer is lost: it sends the chunk twice.
use gpufleet.Prelude.{ℕ, ◌≤◌, ◌<◌, Text, codes, false, ◌≡◌, refl, none, List, [], ◌∷◌, arith}
use gpufleet.Logs.Bytes.{encoded_length, bisect, take_text_prefix_by_bytes}
use gpufleet.Logs.Archive.{append_log_chunk, append_loop, write_chunk, rotate_log_stream}
use gpufleet.Logs.Chunk.{
  LogSettings, task_log_chunk, new_text, append_text_of, store_text, stored_row,
}
use gpufleet.Agent.LogPump.{
  Attempt, lost, unanswered, answered, Pump, pump_of, post_chunk, send_loop,
  send_log_chunks_with_ack, upload_incremental_logs,
}
use gpufleet.Logs.Archive.{last_slice}
use gpufleet.Logs.Chunk.Slices.{slices}
use gpufleet.Agent.LogPump.Exact.{Upright, Good, upload-Good}
use gpufleet.Agent.LogPump.Rounds.{nothing_stored}

abbrev settings : LogSettings
settings = record {
  storage_quota_bytes = 1000;
  task_log_stream_max_bytes = 4;
  log_path = "task-1/stdout.log";
}

abbrev now : Text
now = codes "2026-01-01T00:00:00+00:00"

abbrev attempts : ℕ → List Attempt
attempts offset = lost ∷ unanswered 0 now ∷ answered 6 now ∷ []

abbrev fresh : Pump
fresh = record { acked_offset = none; server = nothing_stored }

abbrev log_file : Text
log_file = codes "epoch 1"

abbrev uploaded : Pump
uploaded = pump_of (upload_incremental_logs settings attempts log_file false fresh)

wide : 4 ≤ settings.task_log_stream_max_bytes
wide = omega arith

-- One full archive beside the open file.
few_slices : slices uploaded.server ≡ 1
unfolding upload_incremental_logs send_log_chunks_with_ack send_loop post_chunk task_log_chunk
    new_text append_text_of store_text stored_row append_log_chunk append_loop write_chunk
    rotate_log_stream take_text_prefix_by_bytes bisect encoded_length
few_slices = refl

few : slices uploaded.server < last_slice
few = omega (arith, few_slices)

fresh-Upright : Upright settings log_file wide fresh
fresh-Upright = record {
  synced = record { offset_inside = omega arith; stored_prefix = refl; preview_end = refl };
  noted = omega arith;
}

upload-Good_example :
    Good settings log_file wide (upload_incremental_logs settings attempts log_file false fresh)
upload-Good_example = upload-Good settings log_file wide attempts false fresh fresh-Upright few
