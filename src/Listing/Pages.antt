-- ===== src/Listing/Pages.antt =====
-- Following the cursors of `list_tasks` (app/services/admin_tasks_service.py).
use gpufleet.Prelude.{
  ℕ, zero, suc, ◌≤◌, ◌<◌, Text, Bool, true, false, ◌≡◌, refl, ap, sym, subst, ◌∙◌, Option, none,
  some, List, [], ◌∷◌, ◌++◌, append_assoc, length, take, drop, take_all, take-append-drop,
  length-take, length-drop, last?, select, count_where, ltb, Bool-cases, inl, inr, ltb→lt, arith,
}
use gpufleet.Tasks.Table.{TaskRow}
use gpufleet.Listing.{
  CursorLibrary, encode_cursor, decode_cursor, row_key, past, insert_row, ordered, TaskFilter,
  selected, add_cursor_filter, page_of, found_page, list_tasks, follow,
}
use gpufleet.Listing.Cursor.{RoundTrips, decode-encode_cursor}
use gpufleet.Listing.Order.{
  Descending, UniqueRowIds, ordered-Descending, select-Descending, select-past,
}

take-take-suc : (n : ℕ) (rows : List TaskRow) → take n (take (suc n) rows) ≡ take n rows
take-take-suc zero rows = refl
take-take-suc (suc n) [] = refl
take-take-suc (suc n) (x ∷ rows) = ap (λ ys. x ∷ ys) (take-take-suc n rows)

last-split :
    (rows : List TaskRow)
    → 1 ≤ length rows
    → (init : List TaskRow) × (x : TaskRow) × (last? rows ≡ some x) × (rows ≡ init ++ x ∷ [])
last-split [] h = absurd (omega arith)
last-split (x ∷ []) h = ([], x, refl, refl)
last-split (x ∷ y ∷ rows) h =
    let (init, z, is_last, split) = last-split (y ∷ rows) (omega arith) in
    (x ∷ init, z, is_last, ap (λ ys. x ∷ ys) split)

length-insert : (r : TaskRow) (rows : List TaskRow) → length (insert_row r rows) ≡ suc (length rows)
unfolding insert_row
length-insert r [] = refl
length-insert r (x ∷ rows) = ground (arith, length-insert r rows)

length-ordered : (rows : List TaskRow) → length (ordered rows) ≡ length rows
unfolding ordered
length-ordered [] = refl
length-ordered (r ∷ rows) = length-insert r (ordered rows) ∙ ap suc (length-ordered rows)

length-select : (p : TaskRow → Bool) (rows : List TaskRow) → length (select p rows) ≤ length rows
length-select p [] = omega arith
length-select p (x ∷ rows) = ground (arith, length-select p rows)

module _ (lib : CursorLibrary) (laws : RoundTrips lib) (f : TaskFilter) (limit : ℕ)
    (some_limit : 1 ≤ limit) (rows : List TaskRow) (unique : UniqueRowIds rows) where
  abbrev listed : List TaskRow
  listed = select (selected f) (ordered rows)

  abbrev total : ℕ
  total = count_where (selected f) rows

  -- The rows that a cursor has before it.
  data Place : Option Text → List TaskRow → Type 0 where
    start : Place none listed
    after :
        (before : List TaskRow) (x : TaskRow) (rest : List TaskRow)
        → listed ≡ before ++ x ∷ rest
        → Place (some (encode_cursor lib (row_key x))) rest

  listed-Descending : Descending listed
  listed-Descending = select-Descending (selected f) (ordered rows) (ordered-Descending rows unique)

  Place-page :
      (cursor : Option Text) (rest : List TaskRow)
      → Place cursor rest
      → list_tasks lib f limit cursor rows ≡ some (page_of lib limit total (take (suc limit) rest))
  unfolding list_tasks found_page add_cursor_filter decode_cursor
  Place-page _ _ start = refl
  Place-page _ _ (after before x rest split) =
      let standing : select (past (row_key x)) listed ≡ rest =
        ap (select (past (row_key x))) split
        ∙ select-past before x rest (subst Descending split listed-Descending) in
      rw (decode-encode_cursor lib (row_key x) laws, standing) refl

  next-Place :
      (cursor : Option Text) (rest init later : List TaskRow) (x : TaskRow)
      → Place cursor rest
      → rest ≡ init ++ x ∷ later
      → Place (some (encode_cursor lib (row_key x))) later
  next-Place _ _ init later x start split = after init x later split
  next-Place _ _ init later x (after before y rest whole) split =
      after (before ++ y ∷ init) x later (
        whole
        ∙ ap (λ ys. before ++ y ∷ ys) split
        ∙ sym (append_assoc before (y ∷ init) (x ∷ later)))

  last_page :
      (cursor : Option Text) (rest : List TaskRow) (fuel : ℕ)
      → Place cursor rest
      → length rest ≤ limit
      → follow lib f limit rows (suc fuel) cursor ≡ some rest
  unfolding follow page_of
  last_page cursor rest fuel place short =
      let whole : take (suc limit) rest ≡ rest = take_all (suc limit) rest (omega arith) in
      let no_more : ltb limit (length rest) ≡ false = ground arith in
      rw (Place-page cursor rest place, whole, no_more, follow)
        (ap some (ap (take limit) whole ∙ take_all limit rest short))

  follow-rest :
      (fuel : ℕ) (cursor : Option Text) (rest : List TaskRow)
      → Place cursor rest
      → length rest < fuel
      → follow lib f limit rows fuel cursor ≡ some rest
  unfolding follow page_of
  follow-rest zero cursor rest place enough = absurd (omega arith)
  follow-rest (suc fuel) cursor rest place enough = elim (Bool-cases (ltb limit (length rest))) [
    | inr short ↦ last_page cursor rest fuel place (ground (arith, short))
    | inl long ↦
        let page = take limit rest in
        let (init, x, is_last, split) =
          last-split page
            (omega (arith, length-take limit rest, ltb→lt limit (length rest) long)) in
        let cut : rest ≡ init ++ x ∷ drop limit rest =
          sym (take-append-drop limit rest)
          ∙ ap (λ ys. ys ++ drop limit rest) split
          ∙ append_assoc init (x ∷ []) (drop limit rest) in
        let later =
          follow-rest fuel (some (encode_cursor lib (row_key x))) (drop limit rest)
            (next-Place cursor rest init (drop limit rest) x place cut)
            (omega (arith, length-drop limit rest, ltb→lt limit (length rest) long)) in
        let more : ltb limit (length (take (suc limit) rest)) ≡ true =
          ground (arith, length-take (suc limit) rest, long) in
        rw (Place-page cursor rest place, more, take-take-suc limit rest, is_last, later, follow)
          (ap (λ ys. some (ys ++ drop limit rest)) (take-take-suc limit rest)
            ∙ ap some (take-append-drop limit rest))
  ]

-- A client that starts without a cursor and follows the cursors of the pages gets every task that the
-- filter selects exactly once, newest first, in at most one page more than the table has rows. The limit
-- is at least one, ids are unique, the table stays as it is, and base64 and JSON read back what they
-- wrote.
pub follow-all :
    (lib : CursorLibrary) (f : TaskFilter) (limit fuel : ℕ) (rows : List TaskRow)
    → RoundTrips lib
    → 1 ≤ limit
    → UniqueRowIds rows
    → length rows < fuel
    → follow lib f limit rows fuel none ≡ some (select (selected f) (ordered rows))
follow-all lib f limit fuel rows laws some_limit unique enough =
    follow-rest lib laws f limit some_limit rows unique fuel none
      (select (selected f) (ordered rows)) start
      (omega (arith, length-select (selected f) (ordered rows), length-ordered rows))
