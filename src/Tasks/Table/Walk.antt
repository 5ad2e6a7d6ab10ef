-- ===== src/Tasks/Table/Walk.antt =====
-- Loops over the rows of `tasks` (app/db.py) that were read before the first of them is written.
use gpufleet.Prelude.{
  String, false, ◌≡◌, refl, ◌∙◌, some, List, ◌∷◌, same, same_iff, same_refl, arith,
}
use gpufleet.Tasks.Table.{TaskRow, find_task, UniqueIds}

-- The rows `rs` stand in the table as they were read.
abbrev pub StandIn : List TaskRow → List TaskRow → Type 0
StandIn rs rows = (k : String) (r : TaskRow) → find_task k rs ≡ some r → find_task k rows ≡ some r

-- Once the first row is written and no other, the rest still stand.
pub StandIn-tail :
    (rows rows' : List TaskRow) (r : TaskRow) (rs : List TaskRow)
    → UniqueIds (r ∷ rs)
    → StandIn (r ∷ rs) rows
    → ((k : String) → same r.task_id k ≡ false → find_task k rows' ≡ find_task k rows)
    → StandIn rs rows'
unfolding find_task
StandIn-tail rows rows' r rs u p others k x h =
    let other : same r.task_id k ≡ false = ground (arith, u.0, same_iff r.task_id k) in
    others k other ∙ p k x (ground (arith, other))

pub StandIn-head :
    (rows : List TaskRow) (r : TaskRow) (rs : List TaskRow)
    → StandIn (r ∷ rs) rows
    → find_task r.task_id rows ≡ some r
unfolding find_task
StandIn-head rows r rs p = p r.task_id r (rw (same_refl r.task_id) refl)
