-- ===== src/Listing.antt =====
-- app/services/cursor_pagination.py, and `list_tasks` of app/services/admin_tasks_service.py.
-- JSON and base64 are arguments. A query is its WHERE on the rows in the order of its ORDER BY.
pub mod Cursor
pub mod Order
pub mod Pages
use gpufleet.Prelude.{
  ℕ, zero, suc, ◌+◌, ◌-◌, ◌%◌, String, Text, Bool, true, false, ◌&&◌, ◌||◌, not, ◌≡◌, Option, none,
  some, List, [], ◌∷◌, ◌++◌, length, take, last?, same, select, count_where, text_eq, text_lt, ltb,
  ◌==◌, if◌then◌else◌,
}
use gpufleet.Auth.Keys.{Bytes}
use gpufleet.Tasks.Status.{
  Status, pending, reviewing, claimed, running, cancel_requested, succeeded, failed, timeout,
  cancelled, lost, rejected, review_expired,
}
use gpufleet.Tasks.Table.{TaskRow}

-- A place in the order: `created_at` and `id`.
abbrev pub Key : Type 0
Key = Text × ℕ

-- `loads` is `none` where the code catches an exception or the types are wrong.
pub record CursorLibrary : Type 0 where
  pub dumps : Key → Bytes
  pub loads : Bytes → Option Key
  pub urlsafe_b64encode : Bytes → Text
  pub urlsafe_b64decode : Text → Option Bytes

-- `.rstrip("=")`
unfoldable pub rstrip_padding : Text → Text
rstrip_padding [] = []
rstrip_padding (c ∷ t) = elim (rstrip_padding t) [
  | [] ↦ if c == 61 then [] else c ∷ []
  | d ∷ u ↦ c ∷ d ∷ u
]

unfoldable pub padding : ℕ → Text
padding zero = []
padding (suc n) = 61 ∷ padding n

unfoldable pub encode_cursor : CursorLibrary → Key → Text
encode_cursor lib k = rstrip_padding (lib.urlsafe_b64encode (lib.dumps k))

pub data Decoded : Type 0 where
  no_cursor : Decoded
  at_key : Key → Decoded
  invalid_cursor : Decoded

-- cursor + "=" * (-len(cursor) % 4)
unfoldable pub padded : Text → Text
padded cursor = cursor ++ padding ((4 - length cursor % 4) % 4)

unfoldable pub decode_text : CursorLibrary → Text → Decoded
decode_text lib cursor = elim (lib.urlsafe_b64decode (padded cursor)) [
  | none ↦ invalid_cursor
  | some payload ↦ elim (lib.loads payload) [ none ↦ invalid_cursor | some k ↦ at_key k ]
]

unfoldable pub decode_cursor : CursorLibrary → Option Text → Decoded
decode_cursor lib none = no_cursor
decode_cursor lib (some []) = no_cursor
decode_cursor lib (some (c ∷ t)) = decode_text lib (c ∷ t)

unfoldable pub row_key : TaskRow → Key
row_key r = (r.created_at, r.id)

-- `j` stands before `k` in ORDER BY created_at DESC, id DESC.
unfoldable pub comes_before : Key → Key → Bool
comes_before j k = text_lt k.0 j.0 || (text_eq k.0 j.0 && ltb k.1 j.1)

-- AND (created_at < ? OR (created_at = ? AND id < ?))
unfoldable pub past : Key → TaskRow → Bool
past k r = comes_before k (row_key r)

unfoldable pub insert_row : TaskRow → List TaskRow → List TaskRow
insert_row r [] = r ∷ []
insert_row r (x ∷ rows) =
    let rest = insert_row r rows in
    if comes_before (row_key r) (row_key x) then r ∷ x ∷ rows else x ∷ rest

unfoldable pub ordered : List TaskRow → List TaskRow
ordered [] = []
ordered (r ∷ rows) = insert_row r (ordered rows)

unfoldable pub status_name : Status → String
status_name pending = "pending"
status_name reviewing = "reviewing"
status_name claimed = "claimed"
status_name running = "running"
status_name cancel_requested = "cancel_requested"
status_name succeeded = "succeeded"
status_name failed = "failed"
status_name timeout = "timeout"
status_name cancelled = "cancelled"
status_name lost = "lost"
status_name rejected = "rejected"
status_name review_expired = "review_expired"

pub record TaskFilter : Type 0 where
  pub node_id : Option String
  pub status : Option String
  pub task_type : Option String
  pub since : Option Text
  pub until_time : Option Text

abbrev equals : Option String → String → Bool
equals none x = true
equals (some s) x = if same s "" then true else same s x

abbrev from_time : Option Text → Text → Bool
from_time none t = true
from_time (some []) t = true
from_time (some (c ∷ s)) t = not (text_lt t (c ∷ s))

abbrev to_time : Option Text → Text → Bool
to_time none t = true
to_time (some []) t = true
to_time (some (c ∷ s)) t = not (text_lt (c ∷ s) t)

unfoldable pub add_time_filters : TaskFilter → TaskRow → Bool
add_time_filters f r = from_time f.since r.created_at && to_time f.until_time r.created_at

unfoldable pub selected : TaskFilter → TaskRow → Bool
selected f r =
    equals f.node_id r.node_id
    && (equals f.status (status_name r.status)
        && (equals f.task_type r.task_type && add_time_filters f r))

unfoldable pub add_cursor_filter : Decoded → List TaskRow → List TaskRow
add_cursor_filter (at_key k) rows = select (past k) rows
add_cursor_filter _ rows = rows

pub record TaskPage : Type 0 where
  pub items : List TaskRow
  pub next_cursor : Option Text
  pub total_estimate : ℕ

abbrev cursor_after : CursorLibrary → Option TaskRow → Option Text
cursor_after lib none = none
cursor_after lib (some r) = some (encode_cursor lib (row_key r))

-- The page of the rows that the query found, one more than the limit at most.
unfoldable pub page_of : CursorLibrary → ℕ → ℕ → List TaskRow → TaskPage
page_of lib limit total rows =
    let page_rows = take limit rows in
    record {
      items = page_rows;
      next_cursor = if ltb limit (length rows) then cursor_after lib (last? page_rows) else none;
      total_estimate = total;
    }

unfoldable pub found_page :
    CursorLibrary → TaskFilter → ℕ → List TaskRow → Decoded → Option TaskPage
found_page lib f limit rows invalid_cursor = none
found_page lib f limit rows d = some (
    page_of lib limit (count_where (selected f) rows)
      (take (suc limit) (add_cursor_filter d (select (selected f) (ordered rows)))))

-- `none` is ERR_VALIDATION_INVALID_CURSOR.
unfoldable pub list_tasks :
    CursorLibrary → TaskFilter → ℕ → Option Text → List TaskRow → Option TaskPage
list_tasks lib f limit cursor rows = found_page lib f limit rows (decode_cursor lib cursor)

-- A client that follows the cursors, for as many pages as `fuel`; `none` if it did not get to the end.
unfoldable pub follow :
    CursorLibrary → TaskFilter → ℕ → List TaskRow → ℕ → Option Text → Option (List TaskRow)
follow lib f limit rows zero cursor = none
follow lib f limit rows (suc fuel) cursor = elim (list_tasks lib f limit cursor rows) [
  | none ↦ none
  | some page ↦ elim page.next_cursor [
    | none ↦ some page.items
    | some c ↦ elim (follow lib f limit rows fuel (some c)) [
      | none ↦ none
      | some later ↦ some (page.items ++ later)
    ]
  ]
]
