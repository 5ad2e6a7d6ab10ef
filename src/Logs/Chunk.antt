-- ===== src/Logs/Chunk.antt =====
-- app/services/node_runtime_service.py: `task_log_chunk` behind its authentication and validation,
-- for one task and one stream, whose row in `task_logs` is unique. Offsets count code points.
-- What else is stored, `storage_usage_bytes`, is an argument: a walk over the storage directory.
pub mod Prefix
pub mod Slices
use gpufleet.Prelude.{
  ℕ, suc, ◌+◌, ◌-◌, max, String, Text, Bool, true, false, ◌&&◌, not, Option, none, some, List, [],
  ◌∷◌, ◌++◌, length, drop, take_last, ltb, leb, ◌==◌, if◌then◌else◌,
}
use gpufleet.Logs.Bytes.{encoded_length}
use gpufleet.Logs.Archive.{LogFiles, Appended, done, too_many_slices, out_of_fuel, append_log_chunk}

pub record LogRow : Type 0 where
  pub last_offset : ℕ
  pub preview_text : Text
  pub center_log_path : Option String
  pub is_truncated : Bool
  pub truncated_notice : String
  pub updated_at : Text

pub record LogChunk : Type 0 where
  pub offset_start : ℕ
  pub text : Text
  pub is_final : Bool

pub record LogSettings : Type 0 where
  pub storage_quota_bytes : ℕ
  pub task_log_stream_max_bytes : ℕ
  pub log_path : String

-- The row, the files, and how often the webhook `storage.quota_exceeded` was emitted.
pub record LogState : Type 0 where
  pub row : Option LogRow
  pub files : LogFiles
  pub quota_events : ℕ

pub data LogReply : Type 0 where
  stored : ℕ → Bool → LogReply
  offset_must_start_zero : LogReply
  offset_gap : ℕ → LogReply
  stream_truncated quota_exceeded : LogReply
  no_slice_left endless_loop : LogReply

-- What is new in the chunk, or the refusal of its offset.
pub data NewText : Type 0 where
  append : Text → NewText
  refuse : LogReply → NewText

unfoldable pub new_text : Option LogRow → LogChunk → NewText
new_text none c = if not (c.offset_start == 0) then refuse offset_must_start_zero else append c.text
new_text (some row) c =
    if ltb c.offset_start row.last_offset
    then append (
        if leb (length c.text) (row.last_offset - c.offset_start)
        then []
        else drop (row.last_offset - c.offset_start) c.text)
    else if ltb row.last_offset c.offset_start
    then refuse (offset_gap row.last_offset)
    else append c.text

abbrev pub truncated : Option LogRow → Bool
truncated none = false
truncated (some row) = row.is_truncated

unfoldable pub mark_log_truncated : Option LogRow → String → Text → LogRow
mark_log_truncated none reason now = record {
  last_offset = 0;
  preview_text = [];
  center_log_path = none;
  is_truncated = true;
  truncated_notice = reason;
  updated_at = now;
}
mark_log_truncated (some row) reason now = record row {
  is_truncated = true;
  truncated_notice = reason;
  updated_at = now;
}

unfoldable pub stored_row : LogSettings → Option LogRow → LogChunk → Text → Text → LogRow
stored_row settings none c append_text now = record {
  last_offset = c.offset_start + length c.text;
  preview_text = take_last 4000 append_text;
  center_log_path = some settings.log_path;
  is_truncated = false;
  truncated_notice = "";
  updated_at = now;
}
stored_row settings (some row) c append_text now = record {
  last_offset = max row.last_offset (c.offset_start + length c.text);
  preview_text = take_last 4000 (row.preview_text ++ append_text);
  center_log_path = some settings.log_path;
  is_truncated = false;
  truncated_notice = "";
  updated_at = now;
}

-- append_bytes and storage_usage_bytes(…) + append_bytes > storage_quota_bytes
abbrev pub over_quota : LogSettings → ℕ → Text → Bool
over_quota settings usage append_text =
    not (encoded_length append_text == 0)
    && ltb settings.storage_quota_bytes (usage + encoded_length append_text)

-- The files keep what was written before a failure; the row is rolled back.
unfoldable pub store_text : LogSettings → Text → LogState → LogChunk → Text → LogReply × LogState
store_text settings now s c append_text =
    elim (append_log_chunk s.files append_text settings.task_log_stream_max_bytes) [
      | done files ↦ (
        stored (length append_text) c.is_final,
        record s { row = some (stored_row settings s.row c append_text now); files = files },
      )
      | too_many_slices files ↦ (no_slice_left, record s { files = files })
      | out_of_fuel files ↦ (endless_loop, record s { files = files })
    ]

unfoldable pub append_text_of :
    LogSettings → ℕ → Text → LogState → LogChunk → Text → LogReply × LogState
append_text_of settings usage now s c append_text =
    if truncated s.row
    then (stream_truncated, s)
    else if over_quota settings usage append_text
    then (
      quota_exceeded,
      record s {
        row = some (mark_log_truncated s.row "storage_quota_exceeded" now);
        quota_events = suc s.quota_events;
      },
    )
    else store_text settings now s c append_text

unfoldable pub task_log_chunk : LogSettings → ℕ → Text → LogState → LogChunk → LogReply × LogState
task_log_chunk settings usage now s c = elim (new_text s.row c) [
  | refuse reply ↦ (reply, s)
  | append append_text ↦ append_text_of settings usage now s c append_text
]
