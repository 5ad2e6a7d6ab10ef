-- ===== src/Artifacts/Limits.antt =====
-- What `artifact_upload` (app/services/node_runtime_service.py) lets into the storage.
use gpufleet.Prelude.{
  ℕ, ◌+◌, ◌*◌, ◌/◌, ◌≤◌, String, Text, Bool, false, ◌&&◌, ◌≡◌, refl, subst, List, [], ◌∷◌, ◌++◌,
  length, any, count_where, same, same_iff, text_eq, text_eq→eq, ltb, if◌then◌else◌, update_where,
  arith, Bool-cases, Option-cases, inl, inr,
}
use gpufleet.Auth.Keys.{Bytes}
use gpufleet.Tasks.Claim.{task_of_node}
use gpufleet.Artifacts.{
  ArtifactRow, StoredBytes, ArtifactStore, UploadError, payload_too_large, invalid_base64,
  invalid_name, invalid_payload, invalid_content_length, ContentLength, absent, malformed, negative,
  bytes, NodeArtifactUpload, UploadRequest, UploadSettings, sanitize_artifact_name, is_artifact,
  write_bytes, new_artifact, set_artifact, upsert_artifact, rejected_as, store_artifact,
  check_content, behind_length, check_length, max_encoded_bytes, artifact_upload, uploads,
}

abbrev pub too_large : ℕ → ArtifactRow → Bool
too_large limit r = ltb limit r.size_bytes

abbrev pub file_too_large : ℕ → StoredBytes → Bool
file_too_large limit f = ltb limit (length f.content)

-- No row and no file is larger than the limit, and a task has one row for a name.
pub record WithinLimits (limit : ℕ) (s : ArtifactStore) : Type 0 where
  pub row_sizes : any (too_large limit) s.rows ≡ false
  pub file_sizes : any (file_too_large limit) s.files ≡ false
  pub one_row : (j : String) (name : Text) → count_where (is_artifact j name) s.rows ≤ 1

updated_sizes :
    (limit size : ℕ) (p : NodeArtifactUpload) (name : Text) (path : String)
    (rows : List ArtifactRow)
    → ltb limit size ≡ false
    → any (too_large limit) rows ≡ false
    → any
        (too_large limit)
        (update_where (is_artifact p.task_id name) (set_artifact p path size) rows)
      ≡ false
unfolding set_artifact
updated_sizes limit size p name path [] h k = refl
updated_sizes limit size p name path (r ∷ rows) h k =
    ground (arith, updated_sizes limit size p name path rows)

updated_count :
    (size : ℕ) (p : NodeArtifactUpload) (name n : Text) (j path : String) (rows : List ArtifactRow)
    → count_where
        (is_artifact j n)
        (update_where (is_artifact p.task_id name) (set_artifact p path size) rows)
      ≡ count_where (is_artifact j n) rows
unfolding set_artifact
updated_count size p name n j path [] = refl
updated_count size p name n j path (r ∷ rows) =
    ground (arith, updated_count size p name n j path rows)

appended_sizes :
    (limit : ℕ) (rows : List ArtifactRow) (r : ArtifactRow)
    → any (too_large limit) rows ≡ false
    → too_large limit r ≡ false
    → any (too_large limit) (rows ++ r ∷ []) ≡ false
appended_sizes limit [] r h k = ground (arith, k)
appended_sizes limit (x ∷ rows) r h k = ground (arith, appended_sizes limit rows r)

appended_count :
    (j : String) (n : Text) (rows : List ArtifactRow) (r : ArtifactRow)
    → count_where (is_artifact j n) (rows ++ r ∷ [])
      ≡ count_where (is_artifact j n) rows + (if is_artifact j n r then 1 else 0)
appended_count j n [] r = ground arith
appended_count j n (x ∷ rows) r = ground (arith, appended_count j n rows r)

absent_count :
    (j : String) (n : Text) (rows : List ArtifactRow)
    → any (is_artifact j n) rows ≡ false
    → count_where (is_artifact j n) rows ≡ 0
absent_count j n [] h = refl
absent_count j n (x ∷ rows) h = ground (arith, absent_count j n rows)

written_sizes :
    (limit : ℕ) (path : String) (content : Bytes) (files : List StoredBytes)
    → ltb limit (length content) ≡ false
    → any (file_too_large limit) files ≡ false
    → any (file_too_large limit) (write_bytes path content files) ≡ false
unfolding write_bytes
written_sizes limit path content [] h k = ground (arith, h)
written_sizes limit path content (f ∷ files) h k =
    ground (arith, written_sizes limit path content files)

new_count :
    (i j : String) (name n : Text) (rows : List ArtifactRow)
    → any (is_artifact i name) rows ≡ false
    → count_where (is_artifact j n) rows ≤ 1
    → count_where (is_artifact j n) rows + (if same i j && text_eq name n then 1 else 0) ≤ 1
new_count i j name n rows new h = elim (Bool-cases (same i j && text_eq name n)) [
  | inr other ↦ rw other (omega arith)
  | inl hit ↦
      let i_j : i ≡ j = (same_iff i j).0 (ground (arith, hit)) in
      let name_n : name ≡ n = text_eq→eq name n (ground (arith, hit)) in
      let gone : any (is_artifact j n) rows ≡ false =
        subst (λ m. any (is_artifact j m) rows ≡ false) name_n
          (subst (λ k. any (is_artifact k name) rows ≡ false) i_j new) in
      rw (hit, absent_count j n rows gone) (omega arith)
]

upsert_count :
    (p : NodeArtifactUpload) (name : Text) (path : String) (size : ℕ) (now : Text)
    (rows : List ArtifactRow) (j : String) (n : Text)
    → count_where (is_artifact j n) rows ≤ 1
    → count_where (is_artifact j n) (upsert_artifact p name path size now rows) ≤ 1
unfolding upsert_artifact
upsert_count p name path size now rows j n h =
    elim (Bool-cases (any (is_artifact p.task_id name) rows)) [
      | inl old ↦ rw (old, updated_count size p name n j path rows) h
      | inr new ↦
          rw (new, appended_count j n rows (new_artifact p name path size now))
            (new_count p.task_id j name n rows new h)
    ]

upsert_sizes :
    (limit : ℕ) (p : NodeArtifactUpload) (name : Text) (path : String) (size : ℕ) (now : Text)
    (rows : List ArtifactRow)
    → ltb limit size ≡ false
    → any (too_large limit) rows ≡ false
    → any (too_large limit) (upsert_artifact p name path size now rows) ≡ false
unfolding upsert_artifact
upsert_sizes limit p name path size now rows h k =
    elim (Bool-cases (any (is_artifact p.task_id name) rows)) [
      | inl old ↦ rw old (updated_sizes limit size p name path rows h k)
      | inr new ↦
          rw new
            (appended_sizes limit rows (new_artifact p name path size now) k (ground (arith, h)))
    ]

module _ (c : UploadSettings) (s : ArtifactStore)
    (within : WithinLimits c.max_artifact_bytes s) where
  abbrev limit : ℕ
  limit = c.max_artifact_bytes

  rejected-WithinLimits :
      (e : UploadError) (result : String) → WithinLimits limit (rejected_as e result s).1
  unfolding rejected_as
  rejected-WithinLimits e result = record {
    row_sizes = within.row_sizes;
    file_sizes = within.file_sizes;
    one_row = within.one_row;
  }

  stored-WithinLimits :
      (p : NodeArtifactUpload) (name : Text) (content : Bytes) (now : Text)
      → ltb limit (length content) ≡ false
      → WithinLimits limit (store_artifact c p name content now s).1
  unfolding store_artifact
  stored-WithinLimits p name content now small =
      let path = c.artifact_path p.task_id name in
      record {
        row_sizes =
            upsert_sizes limit p name path (length content) now s.rows small within.row_sizes;
        file_sizes = written_sizes limit path content s.files small within.file_sizes;
        one_row =
            λ j n. upsert_count p name path (length content) now s.rows j n (within.one_row j n);
      }

  checked-WithinLimits :
      (p : NodeArtifactUpload) (now : Text) → WithinLimits limit (check_content c p now s).1
  unfolding check_content
  checked-WithinLimits p now = elim (Bool-cases (ltb limit (length p.content_base64 * 3 / 4))) [
    | inl large ↦ rw large (rejected-WithinLimits payload_too_large "reject_size")
    | inr fits ↦ elim (Option-cases (c.b64decode p.content_base64)) [
      | inl e ↦ rw (fits, e, check_content) (rejected-WithinLimits invalid_base64 "reject_invalid")
      | inr (content, e) ↦ elim (Bool-cases (ltb limit (length content))) [
        | inl large ↦
            rw (fits, e, large, check_content)
              (rejected-WithinLimits payload_too_large "reject_size")
        | inr small ↦ elim (Option-cases (sanitize_artifact_name c.path_name p.artifact_name)) [
          | inl bad ↦
              rw (fits, e, small, bad, check_content)
                (rejected-WithinLimits invalid_name "reject_invalid")
          | inr (name, good) ↦
              rw (fits, e, small, good, check_content)
                (stored-WithinLimits p name content now small)
        ]
      ]
    ]
  ]

  behind-WithinLimits : (r : UploadRequest) → WithinLimits limit (behind_length c r s).1
  unfolding behind_length
  behind-WithinLimits r = elim (Option-cases r.node_id) [
    | inl e ↦ rw (e, behind_length) within
    | inr (node_id, e) ↦ elim (Option-cases r.payload) [
      | inl q ↦ rw (e, q, behind_length) (rejected-WithinLimits invalid_payload "reject_invalid")
      | inr (p, q) ↦ elim (Option-cases (task_of_node node_id p.task_id s.tasks)) [
        | inl t ↦ rw (e, q, t, behind_length) within
        | inr (x, t) ↦ rw (e, q, t, behind_length) (checked-WithinLimits p r.now_iso)
      ]
    ]
  ]

  length-WithinLimits :
      (n : ContentLength) (r : UploadRequest) → WithinLimits limit (check_length c n r s).1
  unfolding check_length
  length-WithinLimits absent r = behind-WithinLimits r
  length-WithinLimits negative r = behind-WithinLimits r
  length-WithinLimits malformed r = rejected-WithinLimits invalid_content_length "reject_invalid"
  length-WithinLimits (bytes n) r = elim (Bool-cases (ltb (max_encoded_bytes limit) n)) [
    | inl large ↦ rw large (rejected-WithinLimits payload_too_large "reject_size")
    | inr fits ↦ rw fits (behind-WithinLimits r)
  ]

-- Whatever requests come, authenticated or not and with whatever contents and names: no artifact larger
-- than the limit gets into the table or the storage, and a task keeps one row for a name, if this holds
-- at first.
pub uploads-WithinLimits :
    (c : UploadSettings) (requests : List UploadRequest) (s : ArtifactStore)
    → WithinLimits c.max_artifact_bytes s
    → WithinLimits c.max_artifact_bytes (uploads c requests s)
unfolding uploads artifact_upload
uploads-WithinLimits c [] s h = h
uploads-WithinLimits c (r ∷ requests) s h =
    uploads-WithinLimits c requests (artifact_upload c r s).1
      (length-WithinLimits c s h r.content_length r)
