-- ===== src/Tables.antt =====
-- The tables that the Python code reads and writes, a record for each row, and the database that
-- holds them (services/gateway/sql/*.sql, services/orchestrator/sql/*.sql). A table is the list of
-- its rows in the order of insertion. Values of the types UUID, CHAR(64) and TEXT are texts.
use dadi_runtime.Base.{ℕ, ◌+◌, String, Bool, Option, List, [], Json, Exec, ok}

pub record Artifact : Type 0 where
  pub tenant_id : String
  pub sha256 : String
  pub artifact_type : String
  pub schema_version : Option String
  pub media_type : String
  pub byte_length : ℕ
  pub canonical : Bool
  pub canonical_format : Option String
  pub storage_backend : String
  pub storage_ref : Option String
  pub content : Option (List ℕ)

pub record Edge : Type 0 where
  pub tenant_id : String
  pub from_sha256 : String
  pub to_sha256 : String
  pub edge_type : String
  pub stage_run_id : Option String
  pub created_at : ℕ

pub record CacheRow : Type 0 where
  pub tenant_id : String
  pub stage_name : String
  pub stage_schema_version : String
  pub input_artifact_sha256 : String
  pub output_artifact_sha256 : String

pub record StageRun : Type 0 where
  pub tenant_id : String
  pub stage_run_id : String
  pub pipeline_run_id : String
  pub stage_index : ℕ
  pub stage_name : String
  pub stage_schema_version : String
  pub toolchain_manifest_sha256 : String
  pub prompt_bundle_sha256 : Option String
  pub input_artifact_sha256 : String
  pub output_artifact_sha256 : Option String
  pub status : String
  pub fail_closed : Bool
  pub deterministic_error_artifact_sha256 : Option String
  pub completed_at : Option ℕ

pub record PipelineRun : Type 0 where
  pub tenant_id : String
  pub pipeline_run_id : String
  pub pipeline_id : String
  pub status : String
  pub created_at : ℕ

pub record AuditRow : Type 0 where
  pub tenant_id : String
  pub event_id : String
  pub created_at : ℕ
  pub event_type : String
  pub pipeline_run_id : Option String
  pub deliverable_id : Option String
  pub bundle_id : Option String
  pub idempotency_key : Option String
  pub detail : Json
  pub prev_event_hash : Option String
  pub event_hash : Option String

pub record Deliverable : Type 0 where
  pub tenant_id : String
  pub deliverable_id : String
  pub pipeline_run_id : String
  pub stage06_output_sha256 : Option String
  pub docx_sha256 : Option String
  pub status : String
  pub created_at : ℕ
  pub supersedes_deliverable_id : Option String
  pub deliverable_record_sha256 : Option String

pub record Bundle : Type 0 where
  pub tenant_id : String
  pub deliverable_id : String
  pub bundle_id : String
  pub created_at : ℕ
  pub manifest_artifact_sha256 : String
  pub bundle_artifact_sha256 : String
  pub status : String
  pub revoked_at : Option ℕ

pub record Evidence : Type 0 where
  pub tenant_id : String
  pub evidence_id : String
  pub deliverable_id : String
  pub created_at : ℕ
  pub evidence_manifest_sha256 : String
  pub evidence_bundle_sha256 : String
  pub status : String
  pub revoked_at : Option ℕ

pub record IdempotencyRow : Type 0 where
  pub tenant_id : String
  pub idempotency_key : String
  pub method : String
  pub path : String
  pub response_status : ℕ
  pub response_json : Json

-- `clock` is what `now()` returns; `drawn` counts the calls of `uuid.uuid4()`.
pub record Db : Type 0 where
  pub artifacts : List Artifact
  pub edges : List Edge
  pub cache : List CacheRow
  pub stage_runs : List StageRun
  pub pipeline_runs : List PipelineRun
  pub audit : List AuditRow
  pub deliverables : List Deliverable
  pub bundles : List Bundle
  pub evidence : List Evidence
  pub idempotency : List IdempotencyRow
  pub clock : ℕ
  pub drawn : ℕ

abbrev pub empty_db : Db
empty_db = record {
  artifacts = [];
  edges = [];
  cache = [];
  stage_runs = [];
  pipeline_runs = [];
  audit = [];
  deliverables = [];
  bundles = [];
  evidence = [];
  idempotency = [];
  clock = 0;
  drawn = 0;
}

-- `str(uuid.uuid4())`: the generator is a parameter, and `n` in `uuid4 n` counts the calls.
abbrev pub fresh_id : (ℕ → String) → Exec Db String
fresh_id uuid4 db = (ok (uuid4 db.drawn), record db { drawn = db.drawn + 1 })
