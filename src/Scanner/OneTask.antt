-- ===== src/Scanner/OneTask.antt =====
-- One task in the loop of `_mark_lost_tasks` (app/background.py).
use gpufleet.Prelude.{
  String, Text, Bool, true, false, ◌&&◌, ◌≡◌, refl, sym, ap, ◌∙◌, Option, none, some, List, [], ◌∷◌,
  ◌++◌, append-nil, same, select, or_text, arith,
}
use gpufleet.Tasks.Status.{Status, timeout, lost, is_active}
use gpufleet.Tasks.Table.{
  TaskRow, find_task, find-update_self, find-update_other, UniqueIds, update_task-UniqueIds,
}
use gpufleet.Tasks.Transition.Background.{Background, overdue, gone, moved, transition-background}
use gpufleet.Tasks.Transition.{Event, no_guard, set_finished}
use gpufleet.Tasks.History.{Reach, here, next, event, Selected}
use gpufleet.Audit.{AuditEvent, Notice, latest, latest_action}
use gpufleet.Scanner.{
  Clock, ScanStore, ActiveTask, Verdict, keep, time_out, lose_unacknowledged, lose_unresponsive,
  lose_never_seen, value_error, Measure, measure, apply_measure, mark_task, at_now,
}

-- The status that a verdict ends a task in.
unfoldable pub ended_as : Verdict → Option Status
ended_as keep = none
ended_as value_error = none
ended_as time_out = some timeout
ended_as _ = some lost

unfoldable pub settled : Text → Verdict → TaskRow → TaskRow
settled now_iso v r = elim (ended_as v) [
  | none ↦ r
  | some t ↦ record r { status = t; finished_at = some now_iso }
]

settled-some :
    (now_iso : Text) (v : Verdict) (r : TaskRow) (t : Status)
    → ended_as v ≡ some t
    → record r { status = t; finished_at = some now_iso } ≡ settled now_iso v r
unfolding settled
settled-some now_iso v r t h = rw (h, settled) refl

unfoldable pub notices_of : Option Measure → List Notice
notices_of none = []
notices_of (some m) = m.notice ∷ []

unfoldable pub audits_of : Option Measure → List AuditEvent
audits_of none = []
audits_of (some m) = m.audit ∷ []

or_text_self : (t : Text) → or_text (some t) t ≡ t
or_text_self [] = refl
or_text_self (c ∷ t) = refl

Background-Selected :
    {e : Event} {t : Status} (r : TaskRow)
    → Background e t
    → is_active r.status ≡ true
    → Selected e r
Background-Selected r overdue h = h
Background-Selected r gone h = h

select-append :
    (p : AuditEvent → Bool) (xs : List AuditEvent) (x : AuditEvent)
    → p x ≡ false
    → select p (xs ++ x ∷ []) ≡ select p xs
select-append p [] x h = ground arith
select-append p (y ∷ xs) x h = ground (arith, select-append p xs x h)

abbrev is_cancellation : String → AuditEvent → Bool
is_cancellation j r =
    same r.action "cancel_task" && (same r.target_type "task" && same r.target_id j)

-- An audit row of another action hides no cancellation.
cancels_kept :
    (audits : List AuditEvent) (x : AuditEvent) (j : String)
    → same x.action "cancel_task" ≡ false
    → latest_action "cancel_task" j (audits ++ x ∷ []) ≡ latest_action "cancel_task" j audits
unfolding latest_action
cancels_kept audits x j h = ap latest (select-append (is_cancellation j) audits x (ground arith))

-- What the loop does to the task `x` on the verdict `v`.
pub record Settled (c : Clock) (x : ActiveTask) (v : Verdict) (s s' : ScanStore) : Type 0 where
  pub row : find_task x.task.task_id s'.tasks.rows ≡ some (settled c.now_iso v x.task)
  pub others :
      (k : String)
      → same x.task.task_id k ≡ false
      → find_task k s'.tasks.rows ≡ find_task k s.tasks.rows
  pub told : s'.notices ≡ s.notices ++ notices_of (measure c x v)
  pub noted : s'.audits ≡ s.audits ++ audits_of (measure c x v)
  pub cancels :
      (j : String)
      → latest_action "cancel_task" j s'.audits ≡ latest_action "cancel_task" j s.audits
  pub reach : Reach s.tasks s'.tasks
  pub unique : UniqueIds s.tasks.rows → UniqueIds s'.tasks.rows

module _ (c : Clock) (s : ScanStore) (x : ActiveTask)
    (found : find_task x.task.task_id s.tasks.rows ≡ some x.task)
    (active : is_active x.task.status ≡ true) where
  after_measure : Measure → Status → ScanStore
  after_measure m t = record s {
    tasks = moved s.tasks x.task t (at_now c.now_iso);
    audits = s.audits ++ m.audit ∷ [];
    notices = s.notices ++ m.notice ∷ [];
  }

  apply-measure_lem :
      (m : Measure) (t : Status)
      → Background m.event t
      → apply_measure c s x.task.task_id m ≡ (true, after_measure m t)
  unfolding apply_measure after_measure
  apply-measure_lem m t b =
      rw (transition-background s.tasks m.event t (at_now c.now_iso) x.task b found, apply_measure)
        refl

  finished_row :
      (t : Status)
      → set_finished t (at_now c.now_iso) x.task
        ≡ record x.task { status = t; finished_at = some c.now_iso }
  unfolding set_finished
  finished_row t = rw (or_text_self c.now_iso) refl

  measure-Settled :
      (v : Verdict) (m : Measure) (t : Status)
      → measure c x v ≡ some m
      → ended_as v ≡ some t
      → Background m.event t
      → same m.audit.action "cancel_task" ≡ false
      → Settled c x v s (after_measure m t)
  unfolding after_measure
  measure-Settled v m t h ends b other = record {
    row =
        find-update_self x.task.task_id no_guard (set_finished t (at_now c.now_iso))
          (unfold set_finished in λ y. refl) s.tasks.rows x.task found
        ∙ ap some (finished_row t ∙ settled-some c.now_iso v x.task t ends);
    others = λ k ne.
        find-update_other x.task.task_id k no_guard (set_finished t (at_now c.now_iso))
          (unfold set_finished in λ y. refl) s.tasks.rows ne;
    told = unfold notices_of in rw h refl;
    noted = unfold audits_of in rw h refl;
    cancels = λ j. cancels_kept s.audits m.audit j other;
    reach = next here (
        event x.task.task_id m.event (at_now c.now_iso) x.task
          (set_finished t (at_now c.now_iso) x.task) found (Background-Selected x.task b active)
          (transition-background s.tasks m.event t (at_now c.now_iso) x.task b found));
    unique =
        update_task-UniqueIds x.task.task_id no_guard (set_finished t (at_now c.now_iso))
          (unfold set_finished in λ y. refl) s.tasks.rows;
  }

  -- Every verdict but the ValueError is carried out, and the loop goes on.
  pub mark-task_lem :
      (v : Verdict)
      → ¬ (v ≡ value_error)
      → (s' : ScanStore) × (mark_task c s x v ≡ (true, s')) × Settled c x v s s'
  unfolding mark_task measure ended_as same
  mark-task_lem value_error n = absurd (n refl)
  mark-task_lem keep n = (
    s,
    refl,
    record {
      row = unfold settled in found;
      others = λ k ne. refl;
      told = unfold notices_of in sym (append-nil s.notices);
      noted = unfold audits_of in sym (append-nil s.audits);
      cancels = λ j. refl;
      reach = here;
      unique = λ u. u;
    },
  )
  mark-task_lem time_out n = (
    after_measure _ timeout,
    apply-measure_lem _ timeout overdue,
    measure-Settled time_out _ timeout refl refl overdue refl,
  )
  mark-task_lem (lose_unacknowledged t) n = (
    after_measure _ lost,
    apply-measure_lem _ lost gone,
    measure-Settled (lose_unacknowledged t) _ lost refl refl gone refl,
  )
  mark-task_lem (lose_unresponsive seen hb) n = (
    after_measure _ lost,
    apply-measure_lem _ lost gone,
    measure-Settled (lose_unresponsive seen hb) _ lost refl refl gone refl,
  )
  mark-task_lem (lose_never_seen claimed_at) n = (
    after_measure _ lost,
    apply-measure_lem _ lost gone,
    measure-Settled (lose_never_seen claimed_at) _ lost refl refl gone refl,
  )
