-- ===== src/Tests.antt =====
-- Fixtures of the tests: digests, rows, requests and a pipeline of two stages.
pub mod Pipeline
pub mod Storage
pub mod Audited
pub mod Planned
pub mod Delivered
pub mod Compared
pub mod Signed
pub mod Limited
pub mod Guarded
pub mod Verified
use dadi_runtime.Base.{
  ℕ, zero, suc, String, Bool, true, false, Option, none, some, List, [], ◌∷◌, ◌≡◌, refl, ◌==◌,
  nonempty, Json, Fields, end, field, str, obj, get_field, as_text, Result, ok,
}
use dadi_runtime.Tables.{StageRun, PipelineRun, Deliverable, Bundle, Artifact, Db, empty_db}
use dadi_runtime.Store.{Meta}
use dadi_runtime.Registry.{Digest, Registry}
use dadi_runtime.Requests.{Request, Codec}

-- a digest that tells the first byte
abbrev pub letter_digest : List ℕ → String
letter_digest [] = "d"
letter_digest (zero ∷ bs) = "da"
letter_digest (suc n ∷ bs) = "db"

pub letter_digest-nonempty : (bytes : List ℕ) → nonempty (letter_digest bytes) ≡ true
letter_digest-nonempty [] = refl
letter_digest-nonempty (zero ∷ bs) = refl
letter_digest-nonempty (suc n ∷ bs) = refl

-- bytes that tell documents of two schemas apart
abbrev pub short_bytes : Fields → List ℕ
short_bytes f = elim (as_text (get_field f "schema_version")) [
  | none ↦ 1 ∷ 1 ∷ []
  | some s ↦ if_input (s == "stage_input-v1")
]
  where
    if_input : Bool → List ℕ
    if_input true = 0 ∷ []
    if_input false = 1 ∷ []

abbrev pub digest : Digest
digest = record {
  sha256_hex = letter_digest;
  canonical_json_bytes = short_bytes;
  unknown_text = λ s. s;
}

abbrev pub ids : ℕ → String
ids zero = "id0"
ids (suc zero) = "id1"
ids (suc (suc n)) = "id2"

abbrev pub note_meta : Meta
note_meta = record {
  artifact_type = "note";
  schema_version = none;
  media_type = "text/plain";
  canonical = false;
  canonical_format = none;
}

abbrev pub stage_row : String → ℕ → String → StageRun
stage_row run i output = record {
  tenant_id = "acme";
  stage_run_id = "s";
  pipeline_run_id = run;
  stage_index = i;
  stage_name = "stage";
  stage_schema_version = "v1";
  toolchain_manifest_sha256 = "tool";
  prompt_bundle_sha256 = some "prompt";
  input_artifact_sha256 = "in";
  output_artifact_sha256 = some output;
  status = "success";
  fail_closed = false;
  deterministic_error_artifact_sha256 = none;
  completed_at = some 1;
}

abbrev pub run_row : String → PipelineRun
run_row id = record {
  tenant_id = "acme";
  pipeline_run_id = id;
  pipeline_id = "p";
  status = "success";
  created_at = 1;
}

abbrev pub run_db : Db
run_db = record empty_db {
  stage_runs = stage_row "r1" 0 "o0" ∷ stage_row "r1" 1 "o1" ∷ [];
  pipeline_runs = run_row "r1" ∷ [];
}
