-- ===== src/Tasks/Claim/Oldest.antt =====
-- Which task `claim_next_task_for_node` of app/db.py hands out.
use mathlib.Core.List.{Memᴰ}
use gpufleet.Prelude.{
  subst, ℕ, String, Text, Bool, true, false, ◌&&◌, ◌||◌, ◌≡◌, ap, sym, ◌∙◌, none, some, List, [],
  ◌∷◌, same_iff, ltb, any, select, text_eq, text_lt, text_lt_trans, text_eq→eq, text_eq_refl,
  text_lt_total, text_lt_irrefl, arith, Bool-cases, Option-cases, ◌⊎◌, inl, inr,
}
use gpufleet.Tasks.Table.{TaskRow, find_task, update_task, UniqueIds}
use gpufleet.Tasks.Table.OneRow.{OneRow, update-OneRow}
use gpufleet.Tasks.Transition.{TaskStore}
use gpufleet.Tasks.Claim.{
  active_on, pending_on, is_pending, before, oldest, next_task, set_claimed, returning,
  claim_next_task_for_node,
}

-- Every row of the list satisfies `P`.
abbrev pub Each : (TaskRow → Type 0) → List TaskRow → Type 0
Each P [] = Unit {0}
Each P (r ∷ rows) = P r × Each P rows

-- The order by text and number, over its parts.
not-before_trans_lem :
    (a b c : Text) (i j k : ℕ)
    → (text_lt b a || (text_eq b a && ltb j i)) ≡ false
    → (text_lt c b || (text_eq c b && ltb k j)) ≡ false
    → (text_lt c a || (text_eq c a && ltb k i)) ≡ false
not-before_trans_lem a b c i j k h l = ground (
  arith,
  text_lt_total b a,
  text_lt_total c b,
  text_lt_trans a b c,
  text_lt_trans c a c,
  text_lt_irrefl c,
  text_lt_irrefl a,
  text_eq_refl a,
  text_eq_refl b,
  text_eq→eq c a,
)

not-before_trans : (r x y : TaskRow) → before x r ≡ false → before y x ≡ false → before y r ≡ false
unfolding before
not-before_trans r x y h k =
    not-before_trans_lem r.created_at x.created_at y.created_at r.id x.id y.id h k

before_asym : (r x : TaskRow) → before x r ≡ true → before r x ≡ false
unfolding before
before_asym r x h = ground (
  arith,
  text_lt_trans x.created_at r.created_at x.created_at,
  text_lt_irrefl x.created_at,
  text_eq→eq x.created_at r.created_at,
  text_eq→eq r.created_at x.created_at,
)

before_irrefl : (r : TaskRow) → before r r ≡ false
unfolding before
before_irrefl r = ground (arith, text_lt_irrefl r.created_at)

Each-map :
    (P Q : TaskRow → Type 0)
    → ((y : TaskRow) → P y → Q y)
    → (rows : List TaskRow) → Each P rows
    → Each Q rows
Each-map P Q f [] h = tt
Each-map P Q f (y ∷ rows) h = (f y h.0, Each-map P Q f rows h.1)

oldest-none : (P : TaskRow → Type 0) (rows : List TaskRow) → oldest rows ≡ none → Each P rows
unfolding oldest
oldest-none P [] h = tt
oldest-none P (r ∷ rows) h = elim (Option-cases (oldest rows)) [
  | inl e ↦ absurd (ground arith)
  | inr (w, e) ↦ absurd (ground arith)
]

-- No row of the list comes before the one chosen.
oldest-Each :
    (rows : List TaskRow) (x : TaskRow) → oldest rows ≡ some x → Each (λ y. before y x ≡ false) rows
unfolding oldest
oldest-Each [] x h = tt
oldest-Each (r ∷ rows) x h = elim (Option-cases (oldest rows)) [
  | inl e ↦ (ground (arith, before_irrefl r), oldest-none _ rows e)
  | inr (w, e) ↦ elim (Bool-cases (before w r)) [
    | inl first ↦
        let same_row : w ≡ x = ground arith in
        (
          ground (arith, before_asym r w),
          subst (λ z. Each (λ y. before y z ≡ false) rows) same_row (oldest-Each rows w e),
        )
    | inr later ↦
        let same_row : r ≡ x = ground arith in
        (
          ground (arith, before_irrefl r),
          subst (λ z. Each (λ y. before y z ≡ false) rows) same_row
              (Each-map _ _ (λ y k. not-before_trans r w y later k) rows (oldest-Each rows w e)),
        )
  ]
]

oldest-mem : (rows : List TaskRow) (x : TaskRow) → oldest rows ≡ some x → Memᴰ x rows
unfolding oldest
oldest-mem [] x h = absurd (ground arith)
oldest-mem (r ∷ rows) x h = elim (Option-cases (oldest rows)) [
  | inl e ↦ Memᴰ.head (ground arith)
  | inr (w, e) ↦ elim (Bool-cases (before w r)) [
    | inl first ↦ Memᴰ.tail (oldest-mem rows x (ground arith))
    | inr later ↦ Memᴰ.head (ground arith)
  ]
]

mem-cases : {x r : TaskRow} {rows : List TaskRow} → Memᴰ x (r ∷ rows) → (x ≡ r) ⊎ Memᴰ x rows
mem-cases (Memᴰ.head e) = inl e
mem-cases (Memᴰ.tail m) = inr m

select-mem :
    (p : TaskRow → Bool) (rows : List TaskRow) (x : TaskRow)
    → Memᴰ x (select p rows)
    → Memᴰ x rows × (p x ≡ true)
select-mem p [] x m = elim m [ ]
select-mem p (r ∷ rows) x m = elim (Bool-cases (p r)) [
  | inl e ↦ elim (mem-cases (rw e at m)) [
    | inl q ↦ (Memᴰ.head q, ap p q ∙ e)
    | inr later ↦ let (n, t) = select-mem p rows x later in (Memᴰ.tail n, t)
  ]
  | inr e ↦ let (n, t) = select-mem p rows x (rw e at m) in (Memᴰ.tail n, t)
]

select-Each :
    (p : TaskRow → Bool) (Q : TaskRow → Type 0) (rows : List TaskRow)
    → Each Q (select p rows)
    → Each (λ y. p y ≡ true → Q y) rows
select-Each p Q [] h = tt
select-Each p Q (r ∷ rows) h = elim (Bool-cases (p r)) [
  | inl e ↦ let k : Each Q (r ∷ select p rows) = rw e at h in (λ _. k.0, select-Each p Q rows k.1)
  | inr e ↦ (λ e'. absurd (ground arith), select-Each p Q rows (rw e at h))
]

find_of_mem :
    (rows : List TaskRow) (x : TaskRow)
    → UniqueIds rows
    → Memᴰ x rows
    → find_task x.task_id rows ≡ some x
unfolding find_task
find_of_mem [] x u m = elim m [ ]
find_of_mem (r ∷ rows) x u m = elim (mem-cases m) [
  | inl q ↦ ground (arith, same_iff r.task_id x.task_id)
  | inr later ↦ ground (arith, same_iff r.task_id x.task_id, find_of_mem rows x u.1 later)
]

-- The task that the subselect chooses.
pub record Chosen (node_id : String) (rows : List TaskRow) (t : TaskRow) : Type 0 where
  pub found : find_task t.task_id rows ≡ some t
  pub was_pending : pending_on node_id t ≡ true
  pub node_idle : any (active_on node_id) rows ≡ false
  pub none_before : Each (λ y. pending_on node_id y ≡ true → before y t ≡ false) rows

pub next_task-Chosen :
    (node_id : String) (rows : List TaskRow) (t : TaskRow)
    → UniqueIds rows
    → next_task node_id rows ≡ some t
    → Chosen node_id rows t
unfolding next_task
next_task-Chosen node_id rows t u h =
    let idle : any (active_on node_id) rows ≡ false = ground arith in
    let e : oldest (select (pending_on node_id) rows) ≡ some t = ground arith in
    let (m, p) = select-mem (pending_on node_id) rows t (oldest-mem _ t e) in
    record {
      found = find_of_mem rows t u m;
      was_pending = p;
      node_idle = idle;
      none_before = select-Each (pending_on node_id) _ rows (oldest-Each _ t e);
    }

-- A task is handed out only to a node without an active task; it is the node's pending task that no
-- other pending one precedes by creation time and number; and only its row changes.
pub claim_oldest :
    (s : TaskStore) (node_id : String) (now : Text) (s' : TaskStore) (r' : TaskRow)
    → UniqueIds s.rows
    → claim_next_task_for_node s node_id now ≡ (s', some r')
    → (t : TaskRow) × Chosen node_id s.rows t
      × (r' ≡ set_claimed now t)
      × OneRow t r' s.rows s'.rows
unfolding claim_next_task_for_node returning
claim_oldest s node_id now s' r' u h = elim (Option-cases (next_task node_id s.rows)) [
  | inl e ↦ absurd (ground arith)
  | inr (t, e) ↦
      let c = next_task-Chosen node_id s.rows t u e in
      let written : (update_task t.task_id is_pending (set_claimed now) s.rows ≡ s'.rows)
          × (set_claimed now t ≡ r') =
        ground (arith, c.found, c.was_pending) in
      (
        t,
        c,
        sym written.1,
        rw (← written.0, ← written.1)
            (update-OneRow t.task_id is_pending (set_claimed now) s.rows t u c.found
              (ground (arith, c.was_pending))),
      )
]
