-- ===== src/Artifacts.antt =====
-- app/services/node_runtime_service.py: `artifact_upload` and `sanitize_artifact_name`, behind
-- authentication and validation. base64, the last part of a path and the joining of paths are
-- arguments; directories are left out.
pub mod Limits
use gpufleet.Prelude.{
  ℕ, suc, ◌+◌, ◌*◌, ◌/◌, String, Text, codes, Bool, true, false, ◌&&◌, ◌||◌, not, Option, none,
  some, List, [], ◌∷◌, ◌++◌, length, same, any, first, update_where, text_eq, ltb, if◌then◌else◌,
}
use gpufleet.Auth.Keys.{Bytes}
use gpufleet.Tasks.Table.{TaskRow}
use gpufleet.Tasks.Claim.{task_of_node}

-- The table `artifacts`.
pub record ArtifactRow : Type 0 where
  pub task_id : String
  pub artifact_name : Text
  pub artifact_type : String
  pub content_type : Option String
  pub size_bytes : ℕ
  pub storage_path : String
  pub preview_json : String
  pub created_at : Text

-- A file and what it holds.
pub record StoredBytes : Type 0 where
  pub path : String
  pub content : Bytes

-- `results` are the increments of ARTIFACT_UPLOAD_TOTAL, by result.
pub record ArtifactStore : Type 0 where
  pub tasks : List TaskRow
  pub rows : List ArtifactRow
  pub files : List StoredBytes
  pub results : List String
  pub uploaded_bytes : ℕ

-- The header as `int` reads it; a negative number exceeds no limit.
pub data ContentLength : Type 0 where
  absent malformed negative : ContentLength
  bytes : ℕ → ContentLength

pub record NodeArtifactUpload : Type 0 where
  pub task_id : String
  pub artifact_name : Text
  pub artifact_type : String
  pub content_base64 : Text
  pub content_type : Option String
  pub preview_json : String

-- A request: `node_id` is `none` where the authentication fails, `payload` where the validation does.
pub record UploadRequest : Type 0 where
  pub content_length : ContentLength
  pub node_id : Option String
  pub payload : Option NodeArtifactUpload
  pub now_iso : Text

pub record UploadSettings : Type 0 where
  pub max_artifact_bytes : ℕ
  pub b64decode : Text → Option Bytes
  pub path_name : Text → Text
  pub artifact_path : String → Text → String

pub data UploadError : Type 0 where
  invalid_content_length payload_too_large not_authenticated invalid_payload : UploadError
  task_not_found invalid_base64 invalid_name : UploadError

pub data UploadReply : Type 0 where
  stored : ℕ → UploadReply
  rejected : UploadError → UploadReply

unfoldable pub sanitize_artifact_name : (Text → Text) → Text → Option Text
sanitize_artifact_name path_name name =
    let sanitized = path_name name in
    if text_eq sanitized []
      || (text_eq sanitized (codes ".")
          || (text_eq sanitized (codes "..") || not (text_eq sanitized name)))
    then none
    else some sanitized

abbrev pub is_artifact : String → Text → ArtifactRow → Bool
is_artifact task_id name r = same r.task_id task_id && text_eq r.artifact_name name

unfoldable pub write_bytes : String → Bytes → List StoredBytes → List StoredBytes
write_bytes path content [] = record { path = path; content = content } ∷ []
write_bytes path content (f ∷ files) =
    let rest = write_bytes path content files in
    if same f.path path then record f { content = content } ∷ files else f ∷ rest

abbrev pub new_artifact : NodeArtifactUpload → Text → String → ℕ → Text → ArtifactRow
new_artifact p name path size now_iso = record {
  task_id = p.task_id;
  artifact_name = name;
  artifact_type = p.artifact_type;
  content_type = p.content_type;
  size_bytes = size;
  storage_path = path;
  preview_json = p.preview_json;
  created_at = now_iso;
}

unfoldable pub set_artifact : NodeArtifactUpload → String → ℕ → ArtifactRow → ArtifactRow
set_artifact p path size r = record r {
  artifact_type = p.artifact_type;
  content_type = p.content_type;
  size_bytes = size;
  storage_path = path;
  preview_json = p.preview_json;
}

-- The row of the task and the name, inserted or updated.
unfoldable pub upsert_artifact :
    NodeArtifactUpload → Text → String → ℕ → Text → List ArtifactRow → List ArtifactRow
upsert_artifact p name path size now_iso rows =
    if any (is_artifact p.task_id name) rows
    then update_where (is_artifact p.task_id name) (set_artifact p path size) rows
    else rows ++ new_artifact p name path size now_iso ∷ []

unfoldable pub rejected_as : UploadError → String → ArtifactStore → UploadReply × ArtifactStore
rejected_as e result s = (rejected e, record s { results = s.results ++ result ∷ [] })

unfoldable pub store_artifact :
    UploadSettings
    → NodeArtifactUpload
    → Text
    → Bytes
    → Text
    → ArtifactStore
    → UploadReply × ArtifactStore
store_artifact c p name content now_iso s =
    let path = c.artifact_path p.task_id name in
    (
      stored (length content),
      record s {
        rows = upsert_artifact p name path (length content) now_iso s.rows;
        files = write_bytes path content s.files;
        results = s.results ++ "ok" ∷ [];
        uploaded_bytes = s.uploaded_bytes + length content;
      },
    )

unfoldable pub check_content :
    UploadSettings → NodeArtifactUpload → Text → ArtifactStore → UploadReply × ArtifactStore
check_content c p now_iso s =
    if ltb c.max_artifact_bytes (length p.content_base64 * 3 / 4)
    then rejected_as payload_too_large "reject_size" s
    else elim (c.b64decode p.content_base64) [
      | none ↦ rejected_as invalid_base64 "reject_invalid" s
      | some content ↦
          if ltb c.max_artifact_bytes (length content)
          then rejected_as payload_too_large "reject_size" s
          else elim (sanitize_artifact_name c.path_name p.artifact_name) [
            | none ↦ rejected_as invalid_name "reject_invalid" s
            | some name ↦ store_artifact c p name content now_iso s
          ]
    ]

unfoldable pub behind_length :
    UploadSettings → UploadRequest → ArtifactStore → UploadReply × ArtifactStore
behind_length c r s = elim r.node_id [
  | none ↦ (rejected not_authenticated, s)
  | some node_id ↦ elim r.payload [
    | none ↦ rejected_as invalid_payload "reject_invalid" s
    | some p ↦ elim (task_of_node node_id p.task_id s.tasks) [
      | none ↦ (rejected task_not_found, s)
      | some t ↦ check_content c p r.now_iso s
    ]
  ]
]

unfoldable pub max_encoded_bytes : ℕ → ℕ
max_encoded_bytes limit = limit * 4 / 3 + 4096

unfoldable pub check_length :
    UploadSettings → ContentLength → UploadRequest → ArtifactStore → UploadReply × ArtifactStore
check_length c absent r s = behind_length c r s
check_length c negative r s = behind_length c r s
check_length c malformed r s = rejected_as invalid_content_length "reject_invalid" s
check_length c (bytes request_size) r s =
    if ltb (max_encoded_bytes c.max_artifact_bytes) request_size
    then rejected_as payload_too_large "reject_size" s
    else behind_length c r s

unfoldable pub artifact_upload :
    UploadSettings → UploadRequest → ArtifactStore → UploadReply × ArtifactStore
artifact_upload c r s = check_length c r.content_length r s

-- Uploads one after another, of any nodes.
unfoldable pub uploads : UploadSettings → List UploadRequest → ArtifactStore → ArtifactStore
uploads c [] s = s
uploads c (r ∷ requests) s = uploads c requests (artifact_upload c r s).1
