-- ===== src/Scanner/Expire.antt =====
-- app/background.py: `_expire_reviewing_tasks`. `cutoff` is the text of the time 30 minutes ago.
use gpufleet.Prelude.{
  String, Text, Bool, true, false, ◌&&◌, ◌≡◌, refl, ap, subst, ◌∙◌, Option, none, some, List, [],
  ◌∷◌, ◌++◌, map, select, same, same_iff, text_lt, update_where, if◌then◌else◌, arith, Bool-cases,
  inl, inr,
}
use gpufleet.Tasks.Status.{reviewing, review_expired, is_status}
use gpufleet.Tasks.Table.{
  TaskRow, find_task, updated, find-update_self, find-update_other, UniqueIds,
  update_task-UniqueIds,
}
use gpufleet.Tasks.Table.Walk.{StandIn, StandIn-tail, StandIn-head}
use gpufleet.Tasks.Transition.{
  review_expire, ok, raise, Arguments, transition_task, under_review, set_review_expired,
}
use gpufleet.Tasks.Transition.Background.{transition-expire, expired_store}
use gpufleet.Tasks.History.{Reach, here, next, event}
use gpufleet.Audit.{AlertMessage, review_expired_notice}
use gpufleet.Scanner.{ScanStore, committed}
use gpufleet.Scanner.EveryTask.{Reach-append}

-- review_started_at IS NOT NULL AND review_started_at < ?
abbrev before_cutoff : Text → Option Text → Bool
before_cutoff cutoff none = false
before_cutoff cutoff (some t) = text_lt t cutoff

unfoldable pub review_overdue : Text → TaskRow → Bool
review_overdue cutoff r = is_status r.status reviewing && before_cutoff cutoff r.review_started_at

abbrev pub id_of : TaskRow → String
id_of r = r.task_id

unfoldable pub unread_of : String → AlertMessage → Bool
unread_of task_id a =
    same a.target_type "task" && (same a.target_id task_id && same a.status "unread")

-- UPDATE alert_messages SET status = 'expired' WHERE …
unfoldable pub expire_alerts : String → List AlertMessage → List AlertMessage
expire_alerts task_id alerts =
    update_where (unread_of task_id) (λ a. record a { status = "expired" }) alerts

abbrev pub expiry : Text → Arguments
expiry now_iso = record {
  now_iso = now_iso;
  started_at = none;
  finished_at = none;
  review_admin_id = none;
  danger_level = none;
}

unfoldable pub expire_loop : Text → ScanStore → List String → Bool × ScanStore
expire_loop now_iso s [] = (true, s)
expire_loop now_iso s (j ∷ rest) = elim (transition_task s.tasks j review_expire (expiry now_iso)) [
  | raise e ↦ (false, s)
  | ok moved ↦
      expire_loop now_iso
        (record s {
          tasks = moved.0;
          alerts = expire_alerts j s.alerts;
          notices = s.notices ++ review_expired_notice j 30 ∷ [];
        })
        rest
]

unfoldable pub expire_reviewing_tasks : Text → Text → ScanStore → Bool × ScanStore
expire_reviewing_tasks now_iso cutoff s =
    committed s (expire_loop now_iso s (map id_of (select (review_overdue cutoff) s.tasks.rows)))

-- What the job makes of a row.
unfoldable pub reviewed : Text → Text → TaskRow → TaskRow
reviewed now_iso cutoff r =
    if review_overdue cutoff r
    then record r {
      status = review_expired;
      review_decision = some "expired";
      review_finished_at = some now_iso;
    }
    else r

pub record Expired (now_iso cutoff : Text) (rs : List TaskRow) (s s' : ScanStore) : Type 0 where
  pub each :
      (k : String) (r : TaskRow)
      → find_task k rs ≡ some r
      → find_task k s'.tasks.rows ≡ some (reviewed now_iso cutoff r)
  pub others :
      (k : String) → find_task k rs ≡ none → find_task k s'.tasks.rows ≡ find_task k s.tasks.rows
  pub reach : Reach s.tasks s'.tasks
  pub same_audits : s'.audits ≡ s.audits
  pub unique : UniqueIds s.tasks.rows → UniqueIds s'.tasks.rows

module _ (now_iso cutoff : Text) where
  abbrev after_expiry : ScanStore → TaskRow → ScanStore
  after_expiry s r = record s {
    tasks = expired_store s.tasks r (expiry now_iso);
    alerts = expire_alerts r.task_id s.alerts;
    notices = s.notices ++ review_expired_notice r.task_id 30 ∷ [];
  }

  -- The first of the rows, and then the others.
  head-Expired :
      (r : TaskRow) (rs : List TaskRow) (s s1 s' : ScanStore)
      → UniqueIds (r ∷ rs)
      → find_task r.task_id s1.tasks.rows ≡ some (reviewed now_iso cutoff r)
      → ((k : String)
          → same r.task_id k ≡ false
          → find_task k s1.tasks.rows ≡ find_task k s.tasks.rows)
      → s1.audits ≡ s.audits
      → (UniqueIds s.tasks.rows → UniqueIds s1.tasks.rows)
      → Reach s.tasks s1.tasks
      → Expired now_iso cutoff rs s1 s'
      → Expired now_iso cutoff (r ∷ rs) s s'
  unfolding find_task
  head-Expired r rs s s1 s' u row others same_audits unique reach passed = record {
    each = λ k x h. elim (Bool-cases (same r.task_id k)) [
      | inl hit ↦
          let r_x : r ≡ x = ground (arith, hit) in
          let k_r : r.task_id ≡ k = (same_iff r.task_id k).0 hit in
          passed.others k (ground (arith, u.0, k_r))
          ∙ subst (λ j. find_task j s1.tasks.rows ≡ some (reviewed now_iso cutoff r)) k_r row
          ∙ ap (λ y. some (reviewed now_iso cutoff y)) r_x
      | inr miss ↦ passed.each k x (ground (arith, miss))
    ];
    others = λ k h.
        passed.others k (ground arith) ∙ others k (ground (arith, Bool-cases (same r.task_id k)));
    reach = Reach-append reach passed.reach;
    same_audits = passed.same_audits ∙ same_audits;
    unique = λ h. passed.unique (unique h);
  }

  due_row :
      (r : TaskRow)
      → review_overdue cutoff r ≡ true
      → updated under_review (set_review_expired (expiry now_iso)) r ≡ reviewed now_iso cutoff r
  unfolding set_review_expired reviewed review_overdue
  due_row r due = rw due (ground arith)

  after_expiry-others :
      (s : ScanStore) (r : TaskRow) (k : String)
      → same r.task_id k ≡ false
      → find_task k (after_expiry s r).tasks.rows ≡ find_task k s.tasks.rows
  after_expiry-others s r k ne =
      find-update_other r.task_id k under_review (set_review_expired (expiry now_iso))
        (unfold set_review_expired in λ y. refl) s.tasks.rows ne

  after_expiry_unique :
      (s : ScanStore) (r : TaskRow)
      → UniqueIds s.tasks.rows
      → UniqueIds (after_expiry s r).tasks.rows
  after_expiry_unique s r =
      update_task-UniqueIds r.task_id under_review (set_review_expired (expiry now_iso))
        (unfold set_review_expired in λ y. refl) s.tasks.rows

  due_step :
      (s s' : ScanStore) (r : TaskRow) (rs : List TaskRow)
      → UniqueIds (r ∷ rs)
      → review_overdue cutoff r ≡ true
      → under_review r ≡ true
      → find_task r.task_id s.tasks.rows ≡ some r
      → Expired now_iso cutoff rs (after_expiry s r) s'
      → Expired now_iso cutoff (r ∷ rs) s s'
  due_step s s' r rs u due under at_r passed =
      head-Expired r rs s (after_expiry s r) s' u
        (find-update_self r.task_id under_review (set_review_expired (expiry now_iso))
            (unfold set_review_expired in λ y. refl) s.tasks.rows r at_r
          ∙ ap some (due_row r due))
        (after_expiry-others s r) refl (after_expiry_unique s r)
        (next here (
          event r.task_id review_expire (expiry now_iso) r (set_review_expired (expiry now_iso) r)
            at_r tt (transition-expire s.tasks (expiry now_iso) r at_r under)))
        passed

  loop_due :
      (s : ScanStore) (r : TaskRow) (rest : List String)
      → find_task r.task_id s.tasks.rows ≡ some r
      → under_review r ≡ true
      → expire_loop now_iso s (r.task_id ∷ rest) ≡ expire_loop now_iso (after_expiry s r) rest
  unfolding expire_loop
  loop_due s r rest at_r under =
      rw (transition-expire s.tasks (expiry now_iso) r at_r under, expire_loop) refl

  expire_loop-Expired :
      (rs : List TaskRow) (s : ScanStore)
      → UniqueIds rs
      → StandIn rs s.tasks.rows
      → (s' : ScanStore) × (expire_loop now_iso s (map id_of (select (review_overdue cutoff) rs))
          ≡ (true, s'))
        × Expired now_iso cutoff rs s s'
  unfolding expire_loop find_task review_overdue
  expire_loop-Expired [] s u p = (
    s,
    refl,
    record {
      each = λ k r h. absurd (ground arith);
      others = λ k h. refl;
      reach = here;
      same_audits = refl;
      unique = λ h. h;
    },
  )
  expire_loop-Expired (r ∷ rs) s u p =
      let at_r = StandIn-head s.tasks.rows r rs p in
      elim (Bool-cases (review_overdue cutoff r)) [
        | inl due ↦
            let under : under_review r ≡ true = ground (arith, due) in
            let (s', run, passed) = expire_loop-Expired rs (after_expiry s r) u.1 (
              StandIn-tail s.tasks.rows (after_expiry s r).tasks.rows r rs u p
                (after_expiry-others s r)) in
            (
              s',
              rw due
                  (loop_due s r (map id_of (select (review_overdue cutoff) rs)) at_r under ∙ run),
              due_step s s' r rs u due under at_r passed,
            )
        | inr fine ↦
            let (s', run, passed) =
              expire_loop-Expired rs s u.1
                (StandIn-tail s.tasks.rows s.tasks.rows r rs u p (λ k ne. refl)) in
            (
              s',
              rw fine run,
              head-Expired r rs s s s' u (at_r ∙ ap some (unfold reviewed in rw fine refl))
                  (λ k ne. refl) refl (λ h. h) here passed,
            )
      ]

-- The job always runs to its end: reviews that started before the cutoff expire, all other rows stay.
-- Task ids are unique.
pub expire_reviewing_tasks-Expired :
    (now_iso cutoff : Text) (s : ScanStore)
    → UniqueIds s.tasks.rows
    → (s' : ScanStore) × (expire_reviewing_tasks now_iso cutoff s ≡ (true, s'))
      × Expired now_iso cutoff s.tasks.rows s s'
unfolding expire_reviewing_tasks
expire_reviewing_tasks-Expired now_iso cutoff s u =
    let (s', run, passed) = expire_loop-Expired now_iso cutoff s.tasks.rows s u (λ k r h. h) in
    (s', rw run refl, passed)
