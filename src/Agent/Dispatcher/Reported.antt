-- ===== src/Agent/Dispatcher/Reported.antt =====
-- Results of the tasks that an agent started (node_agent/src/gpufleet_node_agent/runner/dispatcher.py).
use gpufleet.Prelude.{
  arith, ℕ, ◌+◌, ◌*◌, ltb, String, Bool, true, false, ◌&&◌, ◌||◌, not, ◌≡◌, refl, sym, ap, subst,
  ◌∙◌, Option, none, some, List, [], ◌∷◌, same, same_iff, same_refl, any, if◌then◌else◌, Bool-cases,
  Option-cases, inl, inr, arith,
}
use gpufleet.Tasks.Status.{Status, timeout, cancelled}
use gpufleet.Tasks.Reports.{ℤ}
use gpufleet.Agent.Dispatcher.{
  RunState, SentResult, AgentState, Calls, TaskOrder, Did, returned, raised, state_after,
  has_active_task, start_background_task, start_tasks_background, set_current_task, clear_task,
  finalize_background_task, Polls, note_cancel, note_timeout, finish, sync_state, sync_active_task,
  recovered_status, recover_orphaned_task, Act, starts, syncs, recovers, restarts, act, acts,
}

-- The task in hand.
unfoldable pub in_hand : String → Option RunState → Bool
in_hand j none = false
in_hand j (some t) = same t.task_id j

unfoldable pub reported : String → List SentResult → Bool
reported j [] = false
reported j (r ∷ results) = same r.task_id j || reported j results

-- A started task is in hand, or its result is accepted. The empty id is no task's.
abbrev pub NoneLost : AgentState → Type 0
NoneLost s =
    (j : String)
    → same j "" ≡ false
    → any (same j) s.started ≡ true
    → (in_hand j s.current_task || reported j s.results) ≡ true

-- The task in hand is `state`.
with_hand :
    (j : String) (state : RunState) (s : AgentState)
    → s.current_task ≡ some state
    → (in_hand j s.current_task || reported j s.results) ≡ true
    → (same state.task_id j || reported j s.results) ≡ true
unfolding in_hand
with_hand j state s hand old = sym (ap (λ c. in_hand j c || reported j s.results) hand) ∙ old

or_right : (a b : Bool) → b ≡ true → (a || b) ≡ true
or_right true b h = refl
or_right false b h = h

later_reported :
    (j : String) (r : SentResult) (hand : Bool) (results : List SentResult)
    → (same r.task_id j || reported j results) ≡ true
    → (hand || reported j (r ∷ results)) ≡ true
unfolding reported
later_reported j r hand results old = or_right hand _ old

finalize-NoneLost :
    (c : Calls) (state : RunState) (status : Status) (code : Option ℤ) (s : AgentState)
    → s.current_task ≡ some state
    → NoneLost s
    → NoneLost (state_after (finalize_background_task c state status code s))
unfolding finalize_background_task clear_task
finalize-NoneLost c state status code s hand all = elim (Bool-cases c.logs_uploaded) [
  | inr bad ↦ rw bad all
  | inl up ↦ elim (Bool-cases c.result_sent) [
    | inr bad ↦ rw (up, bad) all
    | inl sent ↦ elim (Bool-cases c.artifact_sent) [
      | inr bad ↦
          rw (up, sent, bad)
            (λ j real was. later_reported j _ _ _ (with_hand j state s hand (all j real was)))
      | inl good ↦
          rw (up, sent, good)
            (λ j real was. later_reported j _ _ _ (with_hand j state s hand (all j real was)))
    ]
  ]
]

set_current_task-NoneLost :
    (state next : RunState) (s : AgentState)
    → s.current_task ≡ some state
    → next.task_id ≡ state.task_id
    → NoneLost s
    → NoneLost (set_current_task next s)
unfolding set_current_task in_hand
set_current_task-NoneLost state next s hand same_id all =
    λ j real was. rw same_id (with_hand j state s hand (all j real was))

task_id-note_cancel : (p : Polls) (state : RunState) → (note_cancel p state).task_id ≡ state.task_id
unfolding note_cancel
task_id-note_cancel p state = elim (Bool-cases (p.cancel_asked && not state.cancel_requested)) [
  | inl asked ↦ rw asked refl
  | inr calm ↦ rw calm refl
]

task_id-note_timeout :
    (p : Polls) (state : RunState) → (note_timeout p state).task_id ≡ state.task_id
unfolding note_timeout
task_id-note_timeout p state =
    elim (Bool-cases
      (p.running_at_first && ltb (state.started_at + state.timeout_sec * 1000000) p.now)) [
        | inl late ↦ rw late refl
        | inr early ↦ rw early refl
      ]

finish-NoneLost :
    (c : Calls) (state : RunState) (code : ℤ) (s : AgentState)
    → s.current_task ≡ some state
    → NoneLost s
    → NoneLost (state_after (finish c state code s))
unfolding finish finalize_background_task clear_task
finish-NoneLost c state code s hand all = elim (Bool-cases state.cancel_requested) [
  | inl asked ↦ rw asked (finalize-NoneLost c state cancelled (some code) s hand all)
  | inr calm ↦ elim (Bool-cases state.timed_out) [
    | inl late ↦ rw (calm, late) (finalize-NoneLost c state timeout (some code) s hand all)
    | inr early ↦ rw (calm, early) (finalize-NoneLost c state _ (some code) s hand all)
  ]
]

sync_state-NoneLost :
    (c : Calls) (p : Polls) (state : RunState) (s : AgentState)
    → s.current_task ≡ some state
    → NoneLost s
    → NoneLost (state_after (sync_state c p state s))
unfolding sync_state note_cancel note_timeout set_current_task
sync_state-NoneLost c p state s hand all =
    let asked = note_cancel p state in
    let late = note_timeout p asked in
    let s1 = set_current_task asked s in
    let kept : NoneLost s1 =
      set_current_task-NoneLost state asked s hand (task_id-note_cancel p state) all in
    let noted : NoneLost (set_current_task late s1) =
      set_current_task-NoneLost asked late s1 refl (task_id-note_timeout p asked) kept in
    elim (Bool-cases p.logs_so_far) [
      | inr bad ↦ rw bad kept
      | inl up ↦ elim (Option-cases p.return_code) [
        | inl running ↦ rw (up, running) noted
        | inr (code, ended) ↦ rw (up, ended) (finish-NoneLost c late code _ refl noted)
      ]
    ]

along : (d e : Did) → d ≡ e → NoneLost (state_after e) → NoneLost (state_after d)
along d e same_end all = subst (λ d. NoneLost (state_after d)) (sym same_end) all

sync_active_task-NoneLost :
    (c : Calls) (p : Polls) (s : AgentState)
    → NoneLost s
    → NoneLost (state_after (sync_active_task c p s))
unfolding sync_active_task
sync_active_task-NoneLost c p s all = elim (Option-cases s.current_task) [
  | inl idle ↦ along (sync_active_task c p s) (returned s) (rw idle refl) all
  | inr (state, hand) ↦
      elim (Bool-cases
        (same state.task_id "" || not (any (same state.task_id) s.active_processes))) [
          | inl away ↦ along (sync_active_task c p s) (returned s) (rw (hand, away) refl) all
          | inr here ↦
              along (sync_active_task c p s) (sync_state c p state s) (rw (hand, here) refl)
                (sync_state-NoneLost c p state s hand all)
        ]
]

recover_orphaned_task-NoneLost :
    (c : Calls) (alive : Bool) (s : AgentState)
    → NoneLost s
    → NoneLost (state_after (recover_orphaned_task c alive s))
unfolding recover_orphaned_task
recover_orphaned_task-NoneLost c alive s all = elim (Option-cases s.current_task) [
  | inl idle ↦ along (recover_orphaned_task c alive s) (returned s) (rw idle refl) all
  | inr (state, hand) ↦
      elim (Bool-cases (same state.task_id "" || any (same state.task_id) s.active_processes)) [
        | inl ours ↦ along (recover_orphaned_task c alive s) (returned s) (rw (hand, ours) refl) all
        | inr orphan ↦ elim (Bool-cases c.logs_uploaded) [
          | inr bad ↦
              along (recover_orphaned_task c alive s) (raised s) (rw (hand, orphan, bad) refl) all
          | inl up ↦
              along (recover_orphaned_task c alive s)
                (finalize_background_task c state (recovered_status alive state) none s)
                (rw (hand, orphan, up) refl) (finalize-NoneLost c state _ none s hand all)
        ]
      ]
]

idle_apart :
    (j : String) (hand : Option RunState)
    → (elim hand [ none ↦ false | some t ↦ not (same t.task_id "") ]) ≡ false
    → same j "" ≡ false
    → in_hand j hand ≡ false
unfolding in_hand
idle_apart j none idle real = refl
idle_apart j (some t) idle real = elim (Bool-cases (same t.task_id j)) [
  | inr other ↦ other
  | inl it ↦
      let here : t.task_id ≡ j = (same_iff t.task_id j).0 it in
      let unnamed : not (same j "") ≡ false = rw (sym here) idle in ground (arith, unnamed, real)
]

start_background_task-NoneLost :
    (c : Calls) (now : ℕ) (t : TaskOrder) (s : AgentState)
    → has_active_task s ≡ false
    → (c.spawned && not c.state_saved) ≡ false
    → NoneLost s
    → NoneLost (state_after (start_background_task c now t s))
unfolding start_background_task has_active_task in_hand
start_background_task-NoneLost c now t s idle whole all =
    elim (Bool-cases (not c.prepared || (not c.event_sent || not c.spawned))) [
      | inl bad ↦ rw bad all
      | inr good ↦
          let saved : not c.state_saved ≡ false = ground (arith, good, whole) in
          rw (good, saved)
            λ j real was. elim (Bool-cases (same j t.task_id)) [
              | inl new ↦ rw (sym ((same_iff j t.task_id).0 new)) (rw (same_refl j) refl)
              | inr old ↦
                  let before : (in_hand j s.current_task || reported j s.results) ≡ true =
                    all j real
                      (subst (λ b. (if b then true else any (same j) s.started) ≡ true) old was) in
                  let known : reported j s.results ≡ true =
                    subst (λ b. (b || reported j s.results) ≡ true)
                      (idle_apart j s.current_task idle real) before in
                  or_right _ _ known
            ]
    ]

start_tasks_background-NoneLost :
    (c : Calls) (now : ℕ) (tasks : List TaskOrder) (s : AgentState)
    → (c.spawned && not c.state_saved) ≡ false
    → NoneLost s
    → NoneLost (state_after (start_tasks_background c now tasks s))
unfolding start_tasks_background
start_tasks_background-NoneLost c now [] s whole all = all
start_tasks_background-NoneLost c now (t ∷ tasks) s whole all =
    elim (Bool-cases (has_active_task s)) [
      | inl busy ↦
          along (start_tasks_background c now (t ∷ tasks) s) (returned s) (rw busy refl) all
      | inr idle ↦
          along (start_tasks_background c now (t ∷ tasks) s) (start_background_task c now t s)
            (rw idle refl) (start_background_task-NoneLost c now t s idle whole all)
    ]

-- A start that ends between Popen and the write of current_task.json: the process runs, and no file
-- says so.
unfoldable pub breaks_off : Act → Bool
breaks_off (starts c now tasks) = c.spawned && not c.state_saved
breaks_off _ = false

act-NoneLost : (a : Act) (s : AgentState) → breaks_off a ≡ false → NoneLost s → NoneLost (act a s)
unfolding act breaks_off
act-NoneLost (starts c now tasks) s whole all =
    start_tasks_background-NoneLost c now tasks s whole all
act-NoneLost (syncs c p) s whole all = sync_active_task-NoneLost c p s all
act-NoneLost (recovers c alive) s whole all = recover_orphaned_task-NoneLost c alive s all
act-NoneLost restarts s whole all = all

-- As long as no start ends between Popen and the write of current_task.json, and the other writes of
-- that file succeed: whatever an agent does,
-- with the calls of `Calls` failing or the agent killed at them and restarted, if each task whose process
-- was started, the empty id apart, is in hand or its result was accepted, then so it is after it.
pub acts-NoneLost :
    (taken : List Act) (s : AgentState)
    → any breaks_off taken ≡ false
    → NoneLost s
    → NoneLost (acts taken s)
unfolding acts
acts-NoneLost [] s whole all = all
acts-NoneLost (a ∷ rest) s whole all =
    acts-NoneLost rest (act a s) (ground (arith, whole))
      (act-NoneLost a s (ground (arith, whole)) all)
