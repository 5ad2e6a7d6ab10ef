-- ===== src/Tasks/Table/OneRow.antt =====
-- The table `tasks` before and after a statement that rewrites one row.
use gpufleet.Prelude.{
  ◌+◌, String, Bool, true, ◌≡◌, some, List, [], ◌∷◌, same, same_iff, Bool-cases, inl, inr,
  count_where, if◌then◌else◌, arith,
}
use gpufleet.Tasks.Table.{TaskRow, find_task, update_task, update_task_missing, UniqueIds}

-- `OneRow r r' xs ys`: `ys` is `xs` with `r'` in the place of one row `r`.
pub data OneRow (r r' : TaskRow) : List TaskRow → List TaskRow → Type 0 where
  here : {xs : List TaskRow} → OneRow r r' (r ∷ xs) (r' ∷ xs)
  there : {x : TaskRow} {xs ys : List TaskRow} → OneRow r r' xs ys → OneRow r r' (x ∷ xs) (x ∷ ys)

here_eq :
    (r r' x y : TaskRow) (xs ys : List TaskRow)
    → x ≡ r
    → y ≡ r'
    → ys ≡ xs
    → OneRow r r' (x ∷ xs) (y ∷ ys)
here_eq r r' x y xs ys p q e = rw (p, q, e) here

there_eq :
    (r r' x y : TaskRow) (xs ys : List TaskRow)
    → y ≡ x
    → OneRow r r' xs ys
    → OneRow r r' (x ∷ xs) (y ∷ ys)
there_eq r r' x y xs ys q h = rw q (there h)

-- An UPDATE by the key rewrites one row.
pub update-OneRow :
    (j : String) (guard : TaskRow → Bool) (f : TaskRow → TaskRow) (rows : List TaskRow)
    (r : TaskRow)
    → UniqueIds rows
    → find_task j rows ≡ some r
    → guard r ≡ true
    → OneRow r (f r) rows (update_task j guard f rows)
unfolding find_task update_task
update-OneRow j guard f [] r u found pass = absurd (ground arith)
update-OneRow j guard f (x ∷ rows) r u found pass = elim (Bool-cases (same x.task_id j)) [
  | inl hit ↦
      here_eq r (f r) x _ rows _ (ground arith) (ground arith)
        (ground (arith, update_task_missing j guard f rows, same_iff x.task_id j))
  | inr miss ↦
      there_eq r (f r) x _ rows _ (ground arith)
        (update-OneRow j guard f rows r u.1 (ground arith) pass)
]

-- How many rows satisfy a test changes by the one row.
pub count-OneRow :
    (p : TaskRow → Bool) {r r' : TaskRow} {xs ys : List TaskRow}
    → OneRow r r' xs ys
    → count_where p ys + (if p r then 1 else 0) ≡ count_where p xs + (if p r' then 1 else 0)
count-OneRow p here = ground arith
count-OneRow p (there h) = ground (arith, count-OneRow p h)
