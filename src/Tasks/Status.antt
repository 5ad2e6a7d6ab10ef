-- ===== src/Tasks/Status.antt =====
-- Task statuses and the sets of them in app/task_utils.py.
use gpufleet.Prelude.{ℕ, Bool, true, ◌≡◌, Option, none, some, List, [], ◌∷◌, any, ◌==◌, arith}

pub data Status : Type 0 where
  pending reviewing claimed running cancel_requested : Status
  succeeded failed timeout cancelled lost rejected review_expired : Status

abbrev pub status_code : Status → ℕ
status_code pending = 0
status_code reviewing = 1
status_code claimed = 2
status_code running = 3
status_code cancel_requested = 4
status_code succeeded = 5
status_code failed = 6
status_code timeout = 7
status_code cancelled = 8
status_code lost = 9
status_code rejected = 10
status_code review_expired = 11

abbrev pub is_status : Status → Status → Bool
is_status s t = status_code s == status_code t

abbrev pub contains : List Status → Status → Bool
contains set s = any (is_status s) set

abbrev pub active_task_statuses : List Status
active_task_statuses = claimed ∷ running ∷ cancel_requested ∷ []

abbrev pub result_accepting_task_statuses : List Status
result_accepting_task_statuses = claimed ∷ running ∷ cancel_requested ∷ []

abbrev pub terminal_task_statuses : List Status
terminal_task_statuses =
    succeeded ∷ failed ∷ timeout ∷ cancelled ∷ lost ∷ rejected ∷ review_expired ∷ []

abbrev pub is_active : Status → Bool
is_active = contains active_task_statuses

abbrev pub is_terminal : Status → Bool
is_terminal = contains terminal_task_statuses

-- The statuses that a node may report as an event, each with those from which it may.
abbrev pub task_event_transitions : Status → Option (List Status)
task_event_transitions claimed = some (claimed ∷ [])
task_event_transitions running = some (claimed ∷ running ∷ [])
task_event_transitions cancelled = some (cancel_requested ∷ running ∷ claimed ∷ [])
task_event_transitions failed = some (running ∷ cancel_requested ∷ claimed ∷ [])
task_event_transitions timeout = some (running ∷ cancel_requested ∷ claimed ∷ [])
task_event_transitions succeeded = some (running ∷ cancel_requested ∷ claimed ∷ [])
task_event_transitions lost = some (claimed ∷ running ∷ cancel_requested ∷ [])
task_event_transitions _ = none

pub is_status_sound : (s t : Status) → is_status s t ≡ true → s ≡ t
is_status_sound s t h = ground arith
