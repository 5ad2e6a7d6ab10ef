-- ===== src/Agent/Dispatcher.antt =====
-- node_agent/src/gpufleet_node_agent/runner/dispatcher.py: the task that an agent has in hand.
-- current_task.json survives a restart, the handles of ACTIVE_PROCESSES do not. Which calls of the
-- network and of the operating system succeed is an argument, and so is what a process answers.
pub mod Reported
use gpufleet.Prelude.{
  ℕ, ◌+◌, ◌*◌, String, Bool, true, false, ◌&&◌, ◌||◌, not, Option, none, some, List, [], ◌∷◌, ◌++◌,
  same, any, select, ltb, ◌==◌, if◌then◌else◌,
}
use gpufleet.Tasks.Status.{Status, succeeded, failed, timeout, cancelled, lost}
use gpufleet.Tasks.Reports.{ℤ, pos, negsuc}

-- What current_task.json holds of a task.
pub record RunState : Type 0 where
  pub task_id : String
  pub started_at : ℕ
  pub timeout_sec : ℕ
  pub cancel_requested : Bool
  pub timed_out : Bool

pub record SentResult : Type 0 where
  pub task_id : String
  pub final_status : Status
  pub exit_code : Option ℤ

-- `results` are the results that the control plane accepted; `started` the tasks whose process was
-- started.
pub record AgentState : Type 0 where
  pub current_task : Option RunState
  pub active_processes : List String
  pub started : List String
  pub results : List SentResult

-- The calls of one round that may fail, or at which the agent may be killed: preparing and starting the
-- process, the event "running", the write of current_task.json for a new task, the upload of the logs,
-- the result, the artifact. Other writes of current_task.json are taken to succeed.
pub record Calls : Type 0 where
  pub prepared : Bool
  pub event_sent : Bool
  pub spawned : Bool
  pub state_saved : Bool
  pub logs_uploaded : Bool
  pub result_sent : Bool
  pub artifact_sent : Bool

pub record TaskOrder : Type 0 where
  pub task_id : String
  pub timeout_sec : ℕ

-- An exception leaves what was done before it.
pub data Did : Type 0 where
  returned raised : AgentState → Did

abbrev pub state_after : Did → AgentState
state_after (returned s) = s
state_after (raised s) = s

unfoldable pub has_active_task : AgentState → Bool
has_active_task s = elim s.current_task [ none ↦ false | some t ↦ not (same t.task_id "") ]

unfoldable pub start_background_task : Calls → ℕ → TaskOrder → AgentState → Did
start_background_task c now t s =
    if not c.prepared || (not c.event_sent || not c.spawned)
    then raised s
    else let running : AgentState = record s {
      active_processes = t.task_id ∷ s.active_processes;
      started = t.task_id ∷ s.started;
    } in
      if not c.state_saved
      then raised running
      else returned (record running {
        current_task = some (record {
          task_id = t.task_id;
          started_at = now;
          timeout_sec = t.timeout_sec;
          cancel_requested = false;
          timed_out = false;
        });
      })

-- `tasks[:1]`
unfoldable pub start_tasks_background : Calls → ℕ → List TaskOrder → AgentState → Did
start_tasks_background c now [] s = returned s
start_tasks_background c now (t ∷ tasks) s =
    if has_active_task s then returned s else start_background_task c now t s

unfoldable pub set_current_task : RunState → AgentState → AgentState
set_current_task state s = record s { current_task = some state }

unfoldable pub clear_task : RunState → AgentState → AgentState
clear_task state s = record s {
  current_task = none;
  active_processes = select (λ j. not (same j state.task_id)) s.active_processes;
}

unfoldable pub finalize_background_task : Calls → RunState → Status → Option ℤ → AgentState → Did
finalize_background_task c state final_status exit_code s =
    if not c.logs_uploaded || not c.result_sent
    then raised s
    else let sent : AgentState = record s {
      results =
          record { task_id = state.task_id; final_status = final_status; exit_code = exit_code }
          ∷ s.results;
    } in
      if not c.artifact_sent then raised sent else returned (clear_task state sent)

-- One look at the process: whether the logs so far are uploaded, whether the process runs at the first
-- `poll`, and its code at the second.
pub record Polls : Type 0 where
  pub cancel_asked : Bool
  pub logs_so_far : Bool
  pub running_at_first : Bool
  pub return_code : Option ℤ
  pub now : ℕ

abbrev is_zero : ℤ → Bool
is_zero (pos n) = n == 0
is_zero (negsuc n) = false

-- `if should_cancel and not state.get("cancel_requested")`
unfoldable pub note_cancel : Polls → RunState → RunState
note_cancel p state =
    if p.cancel_asked && not state.cancel_requested
    then record state { cancel_requested = true }
    else state

unfoldable pub note_timeout : Polls → RunState → RunState
note_timeout p state =
    if p.running_at_first && ltb (state.started_at + state.timeout_sec * 1000000) p.now
    then record state { timed_out = true }
    else state

unfoldable pub finish : Calls → RunState → ℤ → AgentState → Did
finish c state code s =
    if state.cancel_requested
    then finalize_background_task c state cancelled (some code) s
    else if state.timed_out
    then finalize_background_task c state timeout (some code) s
    else finalize_background_task c state (if is_zero code then succeeded else failed) (some code) s

unfoldable pub sync_state : Calls → Polls → RunState → AgentState → Did
sync_state c p state s =
    let asked = note_cancel p state in
    let s1 = set_current_task asked s in
    if not p.logs_so_far
    then raised s1
    else let late = note_timeout p asked in
      let s2 = set_current_task late s1 in
      elim p.return_code [ none ↦ returned s2 | some code ↦ finish c late code s2 ]

unfoldable pub sync_active_task : Calls → Polls → AgentState → Did
sync_active_task c p s = elim s.current_task [
  | none ↦ returned s
  | some state ↦
      if same state.task_id "" || not (any (same state.task_id) s.active_processes)
      then returned s
      else sync_state c p state s
]

unfoldable pub recovered_status : Bool → RunState → Status
recovered_status process_alive state =
    if process_alive
    then lost
    else if state.cancel_requested
    then cancelled
    else if state.timed_out
    then timeout
    else failed

unfoldable pub recover_orphaned_task : Calls → Bool → AgentState → Did
recover_orphaned_task c process_alive s = elim s.current_task [
  | none ↦ returned s
  | some state ↦
      if same state.task_id "" || any (same state.task_id) s.active_processes
      then returned s
      else if not c.logs_uploaded
      then raised s
      else finalize_background_task c state (recovered_status process_alive state) none s
]

-- What an agent does, and that it is restarted. An agent that is killed during an act leaves what the act
-- did until then, as `raised` does, and is restarted.
pub data Act : Type 0 where
  starts : Calls → ℕ → List TaskOrder → Act
  syncs : Calls → Polls → Act
  recovers : Calls → Bool → Act
  restarts : Act

unfoldable pub act : Act → AgentState → AgentState
act (starts c now tasks) s = state_after (start_tasks_background c now tasks s)
act (syncs c p) s = state_after (sync_active_task c p s)
act (recovers c alive) s = state_after (recover_orphaned_task c alive s)
act restarts s = record s { active_processes = [] }

unfoldable pub acts : List Act → AgentState → AgentState
acts [] s = s
acts (a ∷ rest) s = acts rest (act a s)
