-- ===== src/Scanner/Overdue.antt =====
-- When `_mark_lost_tasks` (app/background.py) ends a task.
use gpufleet.Prelude.{
  ℕ, ◌+◌, ◌*◌, ◌<◌, Text, Bool, true, false, ◌≡◌, refl, if◌then◌else◌, ltb→lt, ◌⊎◌, Option, none,
  some, List, arith, inl, inr,
}
use gpufleet.Tasks.Status.{claimed, running, cancel_requested, is_status_sound}
use gpufleet.Audit.{AuditEvent}
use gpufleet.Scanner.{
  Clock, ActiveTask, Verdict, keep, time_out, lose_unacknowledged, lose_unresponsive,
  lose_never_seen, value_error, Moment, absent, at_instant, unreadable, parse_utc_or_none,
  latest_cancel_requested_at, judge_node, judge_cancel, judge, seconds, present, interval,
  cancel_ack_timeout_sec,
}

-- Why a verdict is due.
pub data Overdue (c : Clock) (audits : List AuditEvent) (x : ActiveTask) : Verdict → Type 0 where
  ran_over :
      (t : ℕ)
      → x.task.status ≡ running
      → parse_utc_or_none c.fromisoformat x.task.started_at ≡ at_instant t
      → t + seconds x.task.timeout_sec < c.now
      → Overdue c audits x time_out
  unacknowledged :
      (t : ℕ)
      → x.task.status ≡ cancel_requested
      → latest_cancel_requested_at c.fromisoformat audits x.task.task_id ≡ at_instant t
      → t + seconds cancel_ack_timeout_sec < c.now
      → Overdue c audits x (lose_unacknowledged t)
  unresponsive :
      (seen : Text) (t : ℕ)
      → (x.task.status ≡ claimed) ⊎ (x.task.status ≡ running)
      → present x.last_seen_at ≡ some seen
      → parse_utc_or_none c.fromisoformat (some seen) ≡ at_instant t
      → t + seconds (3 * interval x.heartbeat_interval_sec) < c.now
      → Overdue c audits x (lose_unresponsive seen (interval x.heartbeat_interval_sec))
  never_seen :
      (claimed_at : Text) (t : ℕ)
      → (x.task.status ≡ claimed) ⊎ (x.task.status ≡ running)
      → present x.last_seen_at ≡ none
      → present x.task.claimed_at ≡ some claimed_at
      → parse_utc_or_none c.fromisoformat (some claimed_at) ≡ at_instant t
      → t + seconds (3 * interval x.heartbeat_interval_sec) < c.now
      → Overdue c audits x (lose_never_seen claimed_at)

-- A verdict that needs no reason, or has one.
abbrev Justified : Clock → List AuditEvent → ActiveTask → Verdict → Type 0
Justified c audits x v = (v ≡ keep) ⊎ ((v ≡ value_error) ⊎ Overdue c audits x v)

if-Justified :
    (P : Verdict → Type 0) (b : Bool) (v w : Verdict)
    → (b ≡ true → P v)
    → (b ≡ false → P w)
    → P (if b then v else w)
if-Justified P true v w due idle = due refl
if-Justified P false v w due idle = idle refl

moment-Justified :
    (P : Verdict → Type 0) (m : Moment) (v w : Verdict) (f : ℕ → Verdict)
    → (m ≡ absent → P v)
    → ((t : ℕ) → m ≡ at_instant t → P (f t))
    → (m ≡ unreadable → P w)
    → P (elim m [ absent ↦ v | at_instant t ↦ f t | unreadable ↦ w ])
moment-Justified P absent v w f nothing some_time bad = nothing refl
moment-Justified P (at_instant t) v w f nothing some_time bad = some_time t refl
moment-Justified P unreadable v w f nothing some_time bad = bad refl

option-Justified :
    (P : Verdict → Type 0) (o : Option Text) (v : Verdict) (f : Text → Verdict)
    → (o ≡ none → P v)
    → ((t : Text) → o ≡ some t → P (f t))
    → P (elim o [ none ↦ v | some t ↦ f t ])
option-Justified P none v f nothing some_text = nothing refl
option-Justified P (some t) v f nothing some_text = some_text t refl

module _ (c : Clock) (audits : List AuditEvent) (x : ActiveTask) where
  abbrev P : Verdict → Type 0
  P = Justified c audits x

  node_justified : P (judge_node c x)
  unfolding judge_node
  node_justified =
      if-Justified P _ _ _
        (λ live.
          let was : (x.task.status ≡ claimed) ⊎ (x.task.status ≡ running) = ground (arith, live) in
          option-Justified P (present x.last_seen_at) _ _
            (λ unseen.
              option-Justified P (present x.task.claimed_at) _ _ (λ e. inl refl)
                (λ at e.
                  moment-Justified P (parse_utc_or_none c.fromisoformat (some at)) _ _ _
                    (λ m. inl refl)
                    (λ t m.
                      if-Justified P _ _ _
                        (λ late. inr (inr (never_seen at t was unseen e m (ltb→lt _ _ late))))
                        (λ k. inl refl))
                    (λ m. inr (inl refl))))
            (λ seen e.
              moment-Justified P (parse_utc_or_none c.fromisoformat (some seen)) _ _ _
                (λ m. inl refl)
                (λ t m.
                  if-Justified P _ _ _
                    (λ late. inr (inr (unresponsive seen t was e m (ltb→lt _ _ late))))
                    (λ k. inl refl))
                (λ m. inr (inl refl))))
        (λ idle. inl refl)

  cancel_justified : P (judge_cancel c audits x)
  unfolding judge_cancel
  cancel_justified =
      if-Justified P _ _ _
        (λ asked.
          moment-Justified P _ _ _ _ (λ m. node_justified)
            (λ t m.
              if-Justified P _ _ _
                (λ late.
                  inr (inr (unacknowledged t (is_status_sound _ _ asked) m (ltb→lt _ _ late))))
                (λ k. node_justified))
            (λ m. inr (inl refl)))
        (λ other. node_justified)

  judged_justified : P (judge c audits x)
  unfolding judge
  judged_justified =
      if-Justified P _ _ _
        (λ runs.
          moment-Justified P _ _ _ _ (λ m. cancel_justified)
            (λ t m.
              if-Justified P _ _ _
                (λ late. inr (inr (ran_over t (is_status_sound _ _ runs) m (ltb→lt _ _ late))))
                (λ k. cancel_justified))
            (λ m. inr (inl refl)))
        (λ other. cancel_justified)

-- The scanner ends a task only when it is overdue: it ran past its own limit, its cancellation was not
-- acknowledged for five minutes, or its node was silent for three of its intervals, or was never seen
-- for so long after the claim. Otherwise it keeps the task, or cannot read a time.
pub judge-Overdue :
    (c : Clock) (audits : List AuditEvent) (x : ActiveTask)
    → (judge c audits x ≡ keep)
      ⊎ ((judge c audits x ≡ value_error) ⊎ Overdue c audits x (judge c audits x))
judge-Overdue c audits x = judged_justified c audits x
