-- ===== src/Tasks/Table.antt =====
-- The table `tasks` of app/db.py, and its rows by their unique key.
-- JSON columns hold texts that the statements never look into.
pub mod OneRow
pub mod Walk
use gpufleet.Prelude.{
  ℕ, String, Text, Bool, false, ◌&&◌, ◌≡◌, refl, Option, none, some, List, [], ◌∷◌, ◌++◌, same,
  same_iff, first, update_where, if◌then◌else◌, arith,
}
use gpufleet.Tasks.Status.{Status}

pub record TaskRow : Type 0 where
  pub id : ℕ
  pub task_id : String
  pub revision : ℕ
  pub idempotency_key : String
  pub node_id : String
  pub task_type : String
  pub status : Status
  pub payload_json : String
  pub workdir : Option String
  pub env_json : String
  pub requested_gpu_ids_json : String
  pub timeout_sec : ℕ
  pub kill_grace_sec : ℕ
  pub danger_level : String
  pub created_by_admin_id : Option ℕ
  pub created_at : Text
  pub claimed_at : Option Text
  pub started_at : Option Text
  pub finished_at : Option Text
  pub result_locked_at : Option Text
  pub review_stage : Option ℕ
  pub review_decision : Option String
  pub review_detail : Option String
  pub review_admin_id : Option ℕ
  pub review_started_at : Option Text
  pub review_finished_at : Option Text

-- SELECT * FROM tasks WHERE task_id = ?
unfoldable pub find_task : String → List TaskRow → Option TaskRow
find_task j [] = none
find_task j (r ∷ rows) = if same r.task_id j then some r else find_task j rows

-- UPDATE tasks SET … WHERE task_id = ? AND …
unfoldable pub update_task :
    String → (TaskRow → Bool) → (TaskRow → TaskRow) → List TaskRow → List TaskRow
update_task j guard f = update_where (λ r. same r.task_id j && guard r) f

-- What an UPDATE does to one row.
abbrev pub updated : (TaskRow → Bool) → (TaskRow → TaskRow) → TaskRow → TaskRow
updated guard f r = if guard r then f r else r

-- A change of a row that leaves its key alone.
abbrev pub KeepsId : (TaskRow → TaskRow) → Type 0
KeepsId f = (r : TaskRow) → (f r).task_id ≡ r.task_id

abbrev pub KeepsNode : (TaskRow → TaskRow) → Type 0
KeepsNode f = (r : TaskRow) → (f r).node_id ≡ r.node_id

pub find-update_self :
    (j : String) (guard : TaskRow → Bool) (f : TaskRow → TaskRow)
    → KeepsId f
    → (rows : List TaskRow) (r : TaskRow) → find_task j rows ≡ some r
    → find_task j (update_task j guard f rows) ≡ some (updated guard f r)
unfolding find_task update_task
find-update_self j guard f keeps [] r h = ground arith
find-update_self j guard f keeps (x ∷ rows) r h =
    ground (arith, keeps x, same_iff x.task_id j, find-update_self j guard f keeps rows r)

pub find-update_other :
    (j k : String) (guard : TaskRow → Bool) (f : TaskRow → TaskRow)
    → KeepsId f
    → (rows : List TaskRow) → same j k ≡ false
    → find_task k (update_task j guard f rows) ≡ find_task k rows
unfolding find_task update_task
find-update_other j k guard f keeps [] h = refl
find-update_other j k guard f keeps (x ∷ rows) h = ground (
  arith,
  keeps x,
  same_iff x.task_id j,
  same_iff x.task_id k,
  same_iff j k,
  find-update_other j k guard f keeps rows,
)

pub find-task_id :
    (j : String) (rows : List TaskRow) (r : TaskRow) → find_task j rows ≡ some r → r.task_id ≡ j
unfolding find_task
find-task_id j [] r h = ground arith
find-task_id j (x ∷ rows) r h = ground (arith, same_iff x.task_id j, find-task_id j rows r)

-- UNIQUE on `task_id`.
abbrev pub UniqueIds : List TaskRow → Type 0
UniqueIds [] = Unit {0}
UniqueIds (r ∷ rows) = (find_task r.task_id rows ≡ none) × UniqueIds rows

pub update_task_missing :
    (j : String) (guard : TaskRow → Bool) (f : TaskRow → TaskRow) (rows : List TaskRow)
    → find_task j rows ≡ none
    → update_task j guard f rows ≡ rows
unfolding update_task find_task
update_task_missing j guard f [] h = refl
update_task_missing j guard f (x ∷ rows) h = ground (arith, update_task_missing j guard f rows)

-- An UPDATE that selects no row leaves the table as it is.
pub update_task_id :
    (j : String) (guard : TaskRow → Bool) (f : TaskRow → TaskRow) (rows : List TaskRow)
    → UniqueIds rows
    → (r : TaskRow) → find_task j rows ≡ some r
    → guard r ≡ false
    → update_task j guard f rows ≡ rows
unfolding update_task find_task
update_task_id j guard f [] u r h g = refl
update_task_id j guard f (x ∷ rows) u r h g = ground (
  arith,
  same_iff x.task_id j,
  update_task_missing j guard f rows,
  update_task_id j guard f rows u.1 r,
)

pub find-update_none :
    (j k : String) (guard : TaskRow → Bool) (f : TaskRow → TaskRow)
    → KeepsId f
    → (rows : List TaskRow) → find_task k rows ≡ none
    → find_task k (update_task j guard f rows) ≡ none
unfolding find_task update_task
find-update_none j k guard f keeps [] h = refl
find-update_none j k guard f keeps (x ∷ rows) h =
    ground (arith, keeps x, find-update_none j k guard f keeps rows)

-- An UPDATE that keeps the key keeps it unique.
pub update_task-UniqueIds :
    (j : String) (guard : TaskRow → Bool) (f : TaskRow → TaskRow)
    → KeepsId f
    → (rows : List TaskRow) → UniqueIds rows
    → UniqueIds (update_task j guard f rows)
unfolding update_task
update_task-UniqueIds j guard f keeps [] u = tt
update_task-UniqueIds j guard f keeps (x ∷ rows) u = (
  ground (arith, keeps x, find-update_none j x.task_id guard f keeps rows),
  update_task-UniqueIds j guard f keeps rows u.1,
)

-- A row that an UPDATE does not select stays.
pub find-update_unselected :
    (j k : String) (guard : TaskRow → Bool) (f : TaskRow → TaskRow)
    → KeepsId f
    → (rows : List TaskRow) (r : TaskRow) → find_task k rows ≡ some r
    → guard r ≡ false
    → find_task k (update_task j guard f rows) ≡ some r
unfolding find_task update_task
find-update_unselected j k guard f keeps [] r h g = ground arith
find-update_unselected j k guard f keeps (x ∷ rows) r h g =
    ground (arith, keeps x, find-update_unselected j k guard f keeps rows r)

pub find-append :
    (k : String) (rows new : List TaskRow) (r : TaskRow)
    → find_task k rows ≡ some r
    → find_task k (rows ++ new) ≡ some r
unfolding find_task
find-append k [] new r h = absurd (ground arith)
find-append k (x ∷ rows) new r h = ground (arith, find-append k rows new r)

pub find-append_missing :
    (k : String) (rows new : List TaskRow)
    → find_task k rows ≡ none
    → find_task k (rows ++ new) ≡ find_task k new
unfolding find_task
find-append_missing k [] new h = refl
find-append_missing k (x ∷ rows) new h = ground (arith, find-append_missing k rows new)
