-- ===== src/Scenarios/Logs.antt =====
-- A log that arrives in chunks, with files of four bytes.
use gpufleet.Prelude.{Text, codes, true, false, ◌≡◌, refl, some, [], ◌∷◌, ◌++◌, arith}
use gpufleet.Logs.Bytes.{encoded_length, bisect, take_text_prefix_by_bytes}
use gpufleet.Logs.Bytes.Longest.{LongestPrefix, prefix_longest}
use gpufleet.Logs.Archive.{
  LogFiles, done, out_of_fuel, rotate_log_stream, write_chunk, append_loop, append_log_chunk,
}
use gpufleet.Logs.Archive.Stored.{contents, append_log_chunk-contents}
use gpufleet.Logs.Archive.Ends.{Ends, append_log_chunk-Ends, narrow_limit_loops}
use gpufleet.Logs.Chunk.{LogRow, LogChunk, LogSettings, LogState, task_log_chunk}
use gpufleet.Logs.Chunk.Prefix.{Synced, IsSlice, After, task_log_chunk-After}

abbrev source : Text
source = codes "epoch 1: ok"

abbrev no_files : LogFiles
no_files = record { archives = []; current = [] }

abbrev first_files : LogFiles
first_files = record { archives = codes "epoc" ∷ []; current = codes "h " }

-- A euro sign takes three bytes.
prefix_longest_example :
    let (prefix, rest) = take_text_prefix_by_bytes (codes "a€b") 3 in
    LongestPrefix (codes "a€b") 3 prefix rest
prefix_longest_example = prefix_longest (codes "a€b") 3

first_files_written : append_log_chunk no_files (codes "epoch ") 4 ≡ done first_files
unfolding append_log_chunk append_loop write_chunk rotate_log_stream take_text_prefix_by_bytes
    bisect encoded_length
first_files_written = refl

append_log_chunk-contents_example : contents first_files ≡ contents no_files ++ codes "epoch "
append_log_chunk-contents_example =
    append_log_chunk-contents no_files (codes "epoch ") 4 first_files first_files_written

append_log_chunk-Ends_example : Ends (append_log_chunk first_files (codes "1: ok") 4)
append_log_chunk-Ends_example = append_log_chunk-Ends first_files (codes "1: ok") 4 (omega arith)

narrow_limit_loops_example : append_loop 1000 2 no_files (codes "€") ≡ out_of_fuel no_files
narrow_limit_loops_example = narrow_limit_loops 1000 2 [] 0x20AC [] (ground arith)

abbrev first_row : LogRow
first_row = record {
  last_offset = 6;
  preview_text = codes "epoch ";
  center_log_path = some "task-1/stdout.log";
  is_truncated = false;
  truncated_notice = "";
  updated_at = codes "2026-01-01T00:00:00+00:00";
}

abbrev first_state : LogState
first_state = record { row = some first_row; files = first_files; quota_events = 0 }

abbrev settings : LogSettings
settings = record {
  storage_quota_bytes = 1000;
  task_log_stream_max_bytes = 4;
  log_path = "task-1/stdout.log";
}

-- It overlaps the text that is stored.
abbrev second : LogChunk
second = record { offset_start = 4; text = codes "h 1: ok"; is_final = true }

first_Synced : Synced source (some first_row) first_files
first_Synced = record { offset_inside = omega arith; stored_prefix = refl; preview_end = refl }

second-IsSlice : IsSlice source second
second-IsSlice = (omega arith, refl)

abbrev now : Text
now = codes "2026-01-01T00:00:01+00:00"

task_log_chunk-After_example :
    let (reply, s') = task_log_chunk settings 6 now first_state second in
    After source first_state second reply s'
task_log_chunk-After_example =
    task_log_chunk-After settings 6 now source first_state second (omega arith) first_Synced
      second-IsSlice
