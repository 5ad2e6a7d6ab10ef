-- ===== src/Scenarios/Artifacts.antt =====
-- Two uploads under one name, and one that is too large.
use gpufleet.Prelude.{Text, codes, refl, none, some, List, [], ◌∷◌, arith}
use gpufleet.Scenarios.Rows.{task}
use gpufleet.Tasks.Status.{running}
use gpufleet.Artifacts.{ArtifactStore, bytes, UploadRequest, UploadSettings, uploads}
use gpufleet.Artifacts.Limits.{WithinLimits, uploads-WithinLimits}

abbrev settings : UploadSettings
settings = record {
  max_artifact_bytes = 4;
  b64decode = λ t. some t;
  path_name = λ t. t;
  artifact_path = λ j name. "artifacts";
}

abbrev store : ArtifactStore
store = record {
  tasks = task 1 "t1" running (codes "12:00") ∷ [];
  rows = [];
  files = [];
  results = [];
  uploaded_bytes = 0;
}

abbrev upload : Text → UploadRequest
upload content = record {
  content_length = bytes 100;
  node_id = some "node-a";
  payload = some (record {
    task_id = "t1";
    artifact_name = codes "log";
    artifact_type = "text";
    content_base64 = content;
    content_type = none;
    preview_json = "{}";
  });
  now_iso = codes "12:01";
}

abbrev requests : List UploadRequest
requests = upload (codes "abc") ∷ upload (codes "abcd") ∷ upload (codes "abcdefgh") ∷ []

uploads-WithinLimits_example : WithinLimits 4 (uploads settings requests store)
uploads-WithinLimits_example =
    uploads-WithinLimits settings requests store
      (record { row_sizes = refl; file_sizes = refl; one_row = λ j name. omega arith })
