-- ===== src/Store.antt =====
-- services/gateway/dadi_gateway/store.py: the tenant-scoped artifact store. The digest
-- `hashlib.sha256(data).hexdigest()` is the parameter `sha256_hex`. The timestamps of edges are
-- those of the database, before `isoformat` prints them.
pub mod Contents
pub mod Memo
pub mod Lineage
use dadi_runtime.Base.{
  ℕ, String, Bool, true, Option, none, some, List, map, ◌&&◌, ◌==◌, length, if◌then◌else◌, Exec, ok,
  select_one, select, insert, is_none,
}
use dadi_runtime.Tables.{Artifact, Edge, CacheRow, Db}

-- What a caller says of the bytes that it stores.
pub record Meta : Type 0 where
  pub artifact_type : String
  pub schema_version : Option String
  pub media_type : String
  pub canonical : Bool
  pub canonical_format : Option String

-- The columns of a row that are returned: all but the content.
pub record ArtifactRecord : Type 0 where
  pub tenant_id : String
  pub sha256 : String
  pub artifact_type : String
  pub schema_version : Option String
  pub media_type : String
  pub byte_length : ℕ
  pub canonical : Bool
  pub canonical_format : Option String
  pub storage_backend : String
  pub storage_ref : Option String

abbrev pub record_of : Artifact → ArtifactRecord
record_of a = record {
  tenant_id = a.tenant_id;
  sha256 = a.sha256;
  artifact_type = a.artifact_type;
  schema_version = a.schema_version;
  media_type = a.media_type;
  byte_length = a.byte_length;
  canonical = a.canonical;
  canonical_format = a.canonical_format;
  storage_backend = a.storage_backend;
  storage_ref = a.storage_ref;
}

-- WHERE tenant_id=… AND sha256=…
abbrev pub is_artifact : String → String → Artifact → Bool
is_artifact tenant sha a = a.tenant_id == tenant && a.sha256 == sha

abbrev pub new_artifact : String → String → Meta → List ℕ → Artifact
new_artifact tenant h m content = record {
  tenant_id = tenant;
  sha256 = h;
  artifact_type = m.artifact_type;
  schema_version = m.schema_version;
  media_type = m.media_type;
  byte_length = length content;
  canonical = m.canonical;
  canonical_format = m.canonical_format;
  storage_backend = "postgres";
  storage_ref = none;
  content = some content;
}

-- The row that is there already is returned, and never overwritten.
unfoldable pub put_artifact : (List ℕ → String) → String → Meta → List ℕ → Exec Db ArtifactRecord
unfolding select_one
put_artifact sha256_hex tenant m content db =
    let h = sha256_hex content in
    elim (select_one (is_artifact tenant h) db.artifacts) [
      | some row ↦ (ok (record_of row), db)
      | none ↦
          let row = new_artifact tenant h m content in
          (ok (record_of row), record db { artifacts = insert db.artifacts row })
    ]

unfoldable pub get_artifact_meta : Db → String → String → Option ArtifactRecord
get_artifact_meta db tenant sha = elim (select_one (is_artifact tenant sha) db.artifacts) [
  | none ↦ none
  | some row ↦ some (record_of row)
]

unfoldable pub get_artifact_content : Db → String → String → Option (List ℕ)
get_artifact_content db tenant sha = elim (select_one (is_artifact tenant sha) db.artifacts) [
  | none ↦ none
  | some row ↦ if row.storage_backend == "postgres" then row.content else none
]

abbrev pub new_edge : Db → String → String → String → String → Option String → Edge
new_edge db tenant from_sha to_sha edge_type stage_run_id = record {
  tenant_id = tenant;
  from_sha256 = from_sha;
  to_sha256 = to_sha;
  edge_type = edge_type;
  stage_run_id = stage_run_id;
  created_at = db.clock;
}

unfoldable pub record_edge : String → String → String → String → Option String → Exec Db Unit
record_edge tenant from_sha to_sha edge_type stage_run_id db = (
  ok tt,
  record db { edges = insert db.edges (new_edge db tenant from_sha to_sha edge_type stage_run_id) },
)

-- ORDER BY edge_id ASC: `edge_id` is a serial number, so this is the order of insertion.
unfoldable pub lineage_upstream : Db → String → String → List Edge
lineage_upstream db tenant sha = select (λ e. e.tenant_id == tenant && e.to_sha256 == sha) db.edges

unfoldable pub lineage_downstream : Db → String → String → List Edge
lineage_downstream db tenant sha =
    select (λ e. e.tenant_id == tenant && e.from_sha256 == sha) db.edges

abbrev pub is_cached : String → String → String → String → CacheRow → Bool
is_cached tenant name version input r =
    r.tenant_id == tenant
    && r.stage_name == name
    && r.stage_schema_version == version
    && r.input_artifact_sha256 == input

unfoldable pub cache_lookup : Db → String → String → String → String → Option String
cache_lookup db tenant name version input =
    elim (select_one (is_cached tenant name version input) db.cache) [
      | none ↦ none
      | some r ↦ some r.output_artifact_sha256
    ]

-- ON CONFLICT (tenant_id, stage_name, stage_schema_version, input_artifact_sha256) DO NOTHING
unfoldable pub cache_record : String → String → String → String → String → Exec Db Unit
cache_record tenant name version input output db =
    elim (select_one (is_cached tenant name version input) db.cache) [
      | some _ ↦ (ok tt, db)
      | none ↦ (
        ok tt,
        record db {
          cache = insert db.cache (record {
            tenant_id = tenant;
            stage_name = name;
            stage_schema_version = version;
            input_artifact_sha256 = input;
            output_artifact_sha256 = output;
          });
        },
      )
    ]
