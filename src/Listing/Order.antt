-- ===== src/Listing/Order.antt =====
-- The order of `list_tasks` (app/services/admin_tasks_service.py), and what stands past a cursor.
use gpufleet.Prelude.{
  Bool, true, false, not, ◌≡◌, refl, ap, ◌∙◌, List, [], ◌∷◌, ◌++◌, any, select, text_lt, text_eq→eq,
  text_eq_refl, text_lt_irrefl, text_lt_trans, text_lt_total, ◌==◌, if◌then◌else◌, Bool-cases, inl,
  inr, arith,
}
use gpufleet.Tasks.Table.{TaskRow}
use gpufleet.Listing.{Key, row_key, comes_before, past, insert_row, ordered}

pub before_irrefl : (k : Key) → comes_before k k ≡ false
unfolding comes_before
before_irrefl k = ground (arith, text_lt_irrefl k.0)

pub before_trans :
    (i j k : Key) → comes_before i j ≡ true → comes_before j k ≡ true → comes_before i k ≡ true
unfolding comes_before
before_trans i j k h l = elim (Bool-cases (text_lt j.0 i.0)) [
  | inl a ↦ elim (Bool-cases (text_lt k.0 j.0)) [
    | inl b ↦ ground (arith, text_lt_trans k.0 j.0 i.0 b a)
    | inr b ↦ ground (arith, text_eq→eq k.0 j.0 (ground (arith, l, b)), a)
  ]
  | inr a ↦
      let j_i : j.0 ≡ i.0 = text_eq→eq j.0 i.0 (ground (arith, h, a)) in
      elim (Bool-cases (text_lt k.0 j.0)) [
        | inl b ↦ ground (arith, j_i, b)
        | inr b ↦
            let k_j : k.0 ≡ j.0 = text_eq→eq k.0 j.0 (ground (arith, l, b)) in
            ground (arith, j_i, k_j, h, l, a, b, text_eq_refl k.0)
      ]
]

before_asym : (i j : Key) → comes_before i j ≡ true → comes_before j i ≡ false
before_asym i j h = elim (Bool-cases (comes_before j i)) [
  | inr l ↦ l
  | inl l ↦ absurd (ground (arith, before_trans i j i h l, before_irrefl i))
]

pub before_total :
    (i j : Key) → (i.1 == j.1) ≡ false → comes_before i j ≡ false → comes_before j i ≡ true
unfolding comes_before
before_total i j ne h = elim (Bool-cases (text_lt i.0 j.0)) [
  | inl a ↦ ground (arith, a)
  | inr a ↦ elim (Bool-cases (text_lt j.0 i.0)) [
    | inl b ↦ absurd (ground (arith, h, b))
    | inr b ↦
        let i_j : i.0 ≡ j.0 = text_lt_total i.0 j.0 a b in
        ground (arith, i_j, h, a, b, ne, text_eq_refl i.0, text_eq_refl j.0)
  ]
]

-- `x` comes before all of `rows`.
abbrev pub FirstOf : TaskRow → List TaskRow → Type 0
FirstOf x rows = any (λ y. not (comes_before (row_key x) (row_key y))) rows ≡ false

abbrev pub Descending : List TaskRow → Type 0
Descending [] = Unit {0}
Descending (x ∷ rows) = FirstOf x rows × Descending rows

abbrev pub has_id : TaskRow → TaskRow → Bool
has_id x y = y.id == x.id

abbrev pub UniqueRowIds : List TaskRow → Type 0
UniqueRowIds [] = Unit {0}
UniqueRowIds (x ∷ rows) = (any (has_id x) rows ≡ false) × UniqueRowIds rows

FirstOf-trans :
    (x y : TaskRow) (rows : List TaskRow)
    → comes_before (row_key x) (row_key y) ≡ true
    → FirstOf y rows
    → FirstOf x rows
FirstOf-trans x y [] h l = refl
FirstOf-trans x y (z ∷ rows) h l =
    ground (arith, before_trans (row_key x) (row_key y) (row_key z) h, FirstOf-trans x y rows h)

FirstOf-insert :
    (x r : TaskRow) (rows : List TaskRow)
    → comes_before (row_key x) (row_key r) ≡ true
    → FirstOf x rows
    → FirstOf x (insert_row r rows)
unfolding insert_row
FirstOf-insert x r [] h l = ground (arith, h)
FirstOf-insert x r (y ∷ rows) h l = ground (arith, h, l, FirstOf-insert x r rows h)

insert-Descending :
    (r : TaskRow) (rows : List TaskRow)
    → any (has_id r) rows ≡ false
    → Descending rows
    → Descending (insert_row r rows)
unfolding insert_row
insert-Descending r [] fresh d = (refl, tt)
insert-Descending r (x ∷ rows) fresh d = elim (Bool-cases (comes_before (row_key r) (row_key x))) [
  | inl h ↦ rw h (ground (arith, h, FirstOf-trans r x rows h d.0), d)
  | inr h ↦
      let later : comes_before (row_key x) (row_key r) ≡ true =
        before_total (row_key r) (row_key x) (unfold row_key in ground (arith, fresh)) h in
      rw h (FirstOf-insert x r rows later d.0, insert-Descending r rows (ground (arith, fresh)) d.1)
]

insert-has_id :
    (x r : TaskRow) (rows : List TaskRow)
    → any (has_id x) (insert_row r rows) ≡ any (has_id x) (r ∷ rows)
unfolding insert_row
insert-has_id x r [] = refl
insert-has_id x r (y ∷ rows) = ground (arith, insert-has_id x r rows)

ordered-has_id :
    (x : TaskRow) (rows : List TaskRow) → any (has_id x) (ordered rows) ≡ any (has_id x) rows
unfolding ordered
ordered-has_id x [] = refl
ordered-has_id x (r ∷ rows) =
    insert-has_id x r (ordered rows)
    ∙ ap (λ b. if has_id x r then true else b) (ordered-has_id x rows)

pub ordered-Descending : (rows : List TaskRow) → UniqueRowIds rows → Descending (ordered rows)
unfolding ordered
ordered-Descending [] u = tt
ordered-Descending (r ∷ rows) u =
    insert-Descending r (ordered rows) (ordered-has_id r rows ∙ u.0) (ordered-Descending rows u.1)

FirstOf-select :
    (p : TaskRow → Bool) (x : TaskRow) (rows : List TaskRow)
    → FirstOf x rows
    → FirstOf x (select p rows)
FirstOf-select p x [] h = refl
FirstOf-select p x (y ∷ rows) h = ground (arith, FirstOf-select p x rows)

pub select-Descending :
    (p : TaskRow → Bool) (rows : List TaskRow) → Descending rows → Descending (select p rows)
select-Descending p [] d = tt
select-Descending p (x ∷ rows) d = elim (Bool-cases (p x)) [
  | inl h ↦ rw h (FirstOf-select p x rows d.0, select-Descending p rows d.1)
  | inr h ↦ rw h (select-Descending p rows d.1)
]

FirstOf-middle :
    (x y : TaskRow) (before after : List TaskRow)
    → FirstOf x (before ++ y ∷ after)
    → comes_before (row_key x) (row_key y) ≡ true
FirstOf-middle x y [] after h = ground (arith, h)
FirstOf-middle x y (z ∷ before) after h = ground (arith, FirstOf-middle x y before after)

all_past :
    (x : TaskRow) (rows : List TaskRow) → FirstOf x rows → select (past (row_key x)) rows ≡ rows
unfolding past
all_past x [] h = refl
all_past x (y ∷ rows) h = ground (arith, all_past x rows)

-- Past a row of the list stand exactly the rows after it.
pub select-past :
    (before : List TaskRow) (x : TaskRow) (after : List TaskRow)
    → Descending (before ++ x ∷ after)
    → select (past (row_key x)) (before ++ x ∷ after) ≡ after
unfolding past
select-past [] x after d = rw (before_irrefl (row_key x)) (unfold past in all_past x after d.0)
select-past (y ∷ before) x after d =
    rw (before_asym (row_key y) (row_key x) (FirstOf-middle y x before after d.0))
      (select-past before x after d.1)
