-- ===== src/Scenarios/Dispatcher.antt =====
-- An agent starts a task, is restarted, fails to report it, reports it and starts the next one.
use gpufleet.Prelude.{any, ◌≡◌, refl, Bool, true, false, none, List, [], ◌∷◌}
use gpufleet.Agent.Dispatcher.{
  AgentState, Calls, Polls, Act, starts, syncs, recovers, restarts, acts,
}
use gpufleet.Agent.Dispatcher.Reported.{in_hand, reported, NoneLost, breaks_off, acts-NoneLost}

abbrev idle : AgentState
idle = record { current_task = none; active_processes = []; started = []; results = [] }

abbrev calls : Bool → Calls
calls result_sent = record {
  prepared = true;
  event_sent = true;
  spawned = true;
  state_saved = true;
  logs_uploaded = true;
  result_sent = result_sent;
  artifact_sent = true;
}

abbrev poll : Polls
poll = record {
  cancel_asked = true;
  logs_so_far = true;
  running_at_first = true;
  return_code = none;
  now = 5;
}

abbrev taken : List Act
taken =
    starts (calls true) 1 (record { task_id = "a"; timeout_sec = 60 } ∷ [])
    ∷ syncs (calls true) poll
    ∷ restarts
    ∷ recovers (calls false) false
    ∷ recovers (calls true) false
    ∷ starts (calls true) 9 (record { task_id = "b"; timeout_sec = 60 } ∷ [])
    ∷ []

idle-NoneLost : NoneLost idle
unfolding in_hand reported
idle-NoneLost j real was = was

taken_whole : any breaks_off taken ≡ false
unfolding breaks_off
taken_whole = refl

acts-NoneLost_example : NoneLost (acts taken idle)
acts-NoneLost_example = acts-NoneLost taken idle taken_whole idle-NoneLost
