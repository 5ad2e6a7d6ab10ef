-- ===== src/Scanner/Prune.antt =====
-- app/background.py: `_prune_old_status_snapshots`, `_prune_old_task_logs`, `_prune_old_artifacts` and
-- `_cleanup_path`. The storage is a set of paths without its directories, and `is_within_root` is an
-- argument, since it asks the file system.
use gpufleet.Prelude.{
  String, Text, Bool, false, ◌&&◌, not, ◌≡◌, refl, ◌∙◌, Option, none, some, List, [], ◌∷◌, any,
  same, same_iff, select, text_lt, if◌then◌else◌, arith, Bool-cases, inl, inr,
}
use gpufleet.Tasks.Status.{is_terminal}
use gpufleet.Tasks.Table.{TaskRow, find_task}

-- A row of `task_logs` or of `artifacts`.
pub record StoredFile : Type 0 where
  pub task_id : String
  pub path : Option String

pub record Storage : Type 0 where
  pub snapshots : List Text
  pub logs : List StoredFile
  pub artifacts : List StoredFile
  pub files : List String

pub record Roots : Type 0 where
  pub is_within_root : String → String → Bool
  pub logs_root : String
  pub artifacts_root : String

unfoldable pub cleanup_path : (String → Bool) → String → List String → List String
cleanup_path within path files =
    if within path then select (λ f. not (same f path)) files else files

unfoldable pub prune_old_status_snapshots : Text → Storage → Storage
prune_old_status_snapshots cutoff st = record st {
  snapshots = select (λ reported_at. not (text_lt reported_at cutoff)) st.snapshots;
}

abbrev finished_before : Text → Option Text → Bool
finished_before cutoff none = false
finished_before cutoff (some t) = text_lt t cutoff

-- JOIN tasks t ON … WHERE t.status IN (…) AND t.finished_at IS NOT NULL AND t.finished_at < ?
unfoldable pub outlived : Text → List TaskRow → StoredFile → Bool
outlived cutoff rows f = elim (find_task f.task_id rows) [
  | none ↦ false
  | some t ↦ is_terminal t.status && finished_before cutoff t.finished_at
]

abbrev cleanup_row : (String → Bool) → Option String → List String → List String
cleanup_row within none files = files
cleanup_row within (some path) files =
    if same path "" then files else cleanup_path within path files

unfoldable pub cleanup_rows : (String → Bool) → List StoredFile → List String → List String
cleanup_rows within [] files = files
cleanup_rows within (f ∷ rows) files = cleanup_rows within rows (cleanup_row within f.path files)

unfoldable pub prune_old_task_logs : Roots → Text → List TaskRow → Storage → Storage
prune_old_task_logs roots cutoff rows st = record st {
  logs = select (λ f. not (outlived cutoff rows f)) st.logs;
  files =
      cleanup_rows (roots.is_within_root roots.logs_root) (select (outlived cutoff rows) st.logs)
        st.files;
}

unfoldable pub prune_old_artifacts : Roots → Text → List TaskRow → Storage → Storage
prune_old_artifacts roots cutoff rows st = record st {
  artifacts = select (λ f. not (outlived cutoff rows f)) st.artifacts;
  files =
      cleanup_rows (roots.is_within_root roots.artifacts_root)
        (select (outlived cutoff rows) st.artifacts) st.files;
}

abbrev pub at_path : String → Option String → Bool
at_path p none = false
at_path p (some q) = same p q

-- A row that names the file and has outlived its task.
abbrev pub may_remove : Text → List TaskRow → String → StoredFile → Bool
may_remove cutoff rows p f = at_path p f.path && outlived cutoff rows f

select-keeps :
    (p q : String) (files : List String)
    → same p q ≡ false
    → any (same p) (select (λ f. not (same f q)) files) ≡ any (same p) files
select-keeps p q [] h = refl
select-keeps p q (f ∷ files) h =
    ground (arith, select-keeps p q files h, same_iff p f, same_iff f q, same_iff p q)

cleanup_row-keeps :
    (within : String → Bool) (p : String) (path : Option String) (files : List String)
    → at_path p path ≡ false
    → any (same p) (cleanup_row within path files) ≡ any (same p) files
unfolding cleanup_path
cleanup_row-keeps within p none files h = refl
cleanup_row-keeps within p (some q) files h = ground (arith, select-keeps p q files h, same_iff p q)

pub cleanup-keeps :
    (cutoff : Text) (tasks : List TaskRow) (within : String → Bool) (p : String)
    (rows : List StoredFile) (files : List String)
    → any (may_remove cutoff tasks p) rows ≡ false
    → any (same p) (cleanup_rows within (select (outlived cutoff tasks) rows) files)
      ≡ any (same p) files
unfolding cleanup_rows cleanup_path
cleanup-keeps cutoff tasks within p [] files h = refl
cleanup-keeps cutoff tasks within p (f ∷ rows) files h =
    elim (Bool-cases (outlived cutoff tasks f)) [
      | inr young ↦ rw young (cleanup-keeps cutoff tasks within p rows files (ground arith))
      | inl old ↦ rw old (
          cleanup-keeps cutoff tasks within p rows (cleanup_row within f.path files) (ground arith)
          ∙ cleanup_row-keeps within p f.path files (ground arith))
    ]
