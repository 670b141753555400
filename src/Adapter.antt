-- ===== src/Adapter.antt =====
-- services/orchestrator/dadi_orchestrator/store_adapter.py: what the orchestrator asks of the
-- database. `get_tenant_id()` reads DADI_TENANT_ID, which is set: the tenant is an argument here.
pub mod Refines
use dadi_runtime.Base.{
  ℕ, ◌+◌, String, Bool, true, false, Option, none, some, List, ◌&&◌, ◌==◌, if◌then◌else◌, Exec, ok,
  select_one, update, insert,
}
use dadi_runtime.Tables.{StageRun, Db}
use dadi_runtime.Store.{Meta, is_artifact, new_artifact, new_edge, is_cached}

unfoldable pub put_artifact : (List ℕ → String) → String → Meta → List ℕ → Exec Db String
put_artifact sha256_hex tenant m content db =
    let h = sha256_hex content in
    elim (select_one (is_artifact tenant h) db.artifacts) [
      | some row ↦ (ok h, db)
      | none ↦
          (ok h, record db { artifacts = insert db.artifacts (new_artifact tenant h m content) })
    ]

unfoldable pub get_artifact_content : Db → String → String → Option (List ℕ)
get_artifact_content db tenant sha = elim (select_one (is_artifact tenant sha) db.artifacts) [
  | none ↦ none
  | some row ↦ if row.storage_backend == "postgres" then row.content else none
]

unfoldable pub record_edge : String → String → String → String → Option String → Exec Db Unit
record_edge tenant from_sha to_sha edge_type stage_run_id db = (
  ok tt,
  record db { edges = insert db.edges (new_edge db tenant from_sha to_sha edge_type stage_run_id) },
)

unfoldable pub cache_lookup : String → String → String → String → Db → Option String
cache_lookup tenant name version input db =
    elim (select_one (is_cached tenant name version input) db.cache) [
      | none ↦ none
      | some r ↦ some r.output_artifact_sha256
    ]

-- ON CONFLICT (tenant_id, stage_name, stage_schema_version, input_artifact_sha256) DO NOTHING
unfoldable pub cache_record : String → String → String → String → String → Exec Db Unit
cache_record tenant name version input output db =
    elim (select_one (is_cached tenant name version input) db.cache) [
      | some _ ↦ (ok tt, db)
      | none ↦ (
        ok tt,
        record db {
          cache = insert db.cache (record {
            tenant_id = tenant;
            stage_name = name;
            stage_schema_version = version;
            input_artifact_sha256 = input;
            output_artifact_sha256 = output;
          });
        },
      )
    ]

-- A row starts as failed, and not fail-closed.
unfoldable pub insert_stage_run :
    (ℕ → String)
    → String
    → String
    → ℕ
    → String
    → String
    → String
    → Option String
    → String
    → Exec Db String
insert_stage_run uuid4 tenant run index name version toolchain prompt input db = (
  ok (uuid4 db.drawn),
  record db {
    drawn = db.drawn + 1;
    stage_runs = insert db.stage_runs (record {
      tenant_id = tenant;
      stage_run_id = uuid4 db.drawn;
      pipeline_run_id = run;
      stage_index = index;
      stage_name = name;
      stage_schema_version = version;
      toolchain_manifest_sha256 = toolchain;
      prompt_bundle_sha256 = prompt;
      input_artifact_sha256 = input;
      output_artifact_sha256 = none;
      status = "failed";
      fail_closed = false;
      deterministic_error_artifact_sha256 = none;
      completed_at = none;
    });
  },
)

-- WHERE tenant_id=… AND stage_run_id=…
abbrev pub is_stage_run : String → String → StageRun → Bool
is_stage_run tenant id r = r.tenant_id == tenant && r.stage_run_id == id

abbrev pub succeeded : Db → String → StageRun → StageRun
succeeded db output r = record r {
  status = "success";
  output_artifact_sha256 = some output;
  completed_at = some db.clock;
}

unfoldable pub finalize_stage_run_success : String → String → String → Exec Db Unit
finalize_stage_run_success tenant id output db = (
  ok tt,
  record db { stage_runs = update (is_stage_run tenant id) (succeeded db output) db.stage_runs },
)

abbrev pub closed : Db → String → StageRun → StageRun
closed db error r = record r {
  status = "failed";
  fail_closed = true;
  deterministic_error_artifact_sha256 = some error;
  completed_at = some db.clock;
}

unfoldable pub finalize_stage_run_fail_closed : String → String → String → Exec Db Unit
finalize_stage_run_fail_closed tenant id error db = (
  ok tt,
  record db { stage_runs = update (is_stage_run tenant id) (closed db error) db.stage_runs },
)
