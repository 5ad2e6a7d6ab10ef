-- ===== src/Logs/Archive.antt =====
-- app/services/node_runtime_service.py: the log file of a stream and its rotation
-- (`next_log_archive_path`, `rotate_log_stream`, `append_log_chunk`).
-- Compression keeps the text, so an archive is the text that it was made of; an absent file and an
-- empty one have the same size.
pub mod Stored
pub mod Ends
pub mod Slices
use gpufleet.Prelude.{
  ℕ, zero, suc, ◌+◌, ◌-◌, ◌*◌, Text, Bool, true, false, List, [], ◌∷◌, ◌++◌, length, ltb, leb, ◌==◌,
  if◌then◌else◌,
}
use gpufleet.Logs.Bytes.{encoded_length, take_text_prefix_by_bytes}

-- The archives in the order of their numbers, from 1, and the open file.
pub record LogFiles : Type 0 where
  pub archives : List Text
  pub current : Text

-- `done`, the RuntimeError of a stream with all numbers taken (what was written stays written), or
-- a loop cut off by the model's fuel.
pub data Appended : Type 0 where
  done too_many_slices out_of_fuel : LogFiles → Appended

-- range(1, 100_000)
abbrev pub last_slice : ℕ
last_slice = 99999

abbrev pub is_empty : Text → Bool
is_empty [] = true
is_empty (c ∷ t) = false

infixl 5 ◌then_files◌
abbrev pub ◌then_files◌ : Appended → (LogFiles → Appended) → Appended
(done files) then_files k = k files
(too_many_slices files) then_files k = too_many_slices files
(out_of_fuel files) then_files k = out_of_fuel files

unfoldable pub rotate_log_stream : LogFiles → Appended
rotate_log_stream files =
    if is_empty files.current
    then done files
    else if ltb (length files.archives) last_slice
    then done (record { archives = files.archives ++ files.current ∷ []; current = [] })
    else too_many_slices files

abbrev pub rotate_if : Bool → LogFiles → Appended
rotate_if true files = rotate_log_stream files
rotate_if false files = done files

-- `remaining_bytes`, after the rotation of a full file.
abbrev pub room : ℕ → LogFiles → ℕ
room max_stream_bytes files =
    if leb max_stream_bytes (encoded_length files.current)
    then max_stream_bytes
    else max_stream_bytes - encoded_length files.current

abbrev pub written : LogFiles → Text → LogFiles
written files chunk = record files { current = files.current ++ chunk }

-- The body of the loop behind the cut: where nothing fits, the file is rotated and the text waits.
unfoldable pub write_chunk : ℕ → LogFiles → Text → Appended
write_chunk max_stream_bytes files [] = rotate_log_stream files
write_chunk max_stream_bytes files (c ∷ chunk) =
    let files' = written files (c ∷ chunk) in
    rotate_if (leb max_stream_bytes (encoded_length files'.current)) files'

-- while remaining_text
unfoldable pub append_loop : ℕ → ℕ → LogFiles → Text → Appended
append_loop fuel max_stream_bytes files [] = done files
append_loop zero max_stream_bytes files (c ∷ text) = out_of_fuel files
append_loop (suc fuel) max_stream_bytes files (c ∷ text) =
    let (chunk, rest) = take_text_prefix_by_bytes (c ∷ text) (room max_stream_bytes files) in
    rotate_if (leb max_stream_bytes (encoded_length files.current)) files
    then_files (λ opened. write_chunk max_stream_bytes opened chunk)
    then_files λ files'. append_loop fuel max_stream_bytes files' rest

-- Each code point takes two rounds at most.
unfoldable pub append_log_chunk : LogFiles → Text → ℕ → Appended
append_log_chunk files text max_stream_bytes =
    append_loop (2 * length text) max_stream_bytes files text
