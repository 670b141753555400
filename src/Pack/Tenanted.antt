-- ===== src/Pack/Tenanted.antt =====
-- The store without tenants is what the gateway's store is for one tenant.
use dadi_runtime.Base.{String, Option, none, some, ◌≡◌, map, select, ◌==◌}
use dadi_runtime.Tables.{Artifact, CacheRow, Db}
use dadi_runtime.Store.{new_artifact}
use dadi_runtime.Store
use dadi_runtime.Pack.{Blob, Memo, PackDb}

abbrev pub owned : String → Blob → Artifact
owned t b = record {
  tenant_id = t;
  sha256 = b.sha256;
  artifact_type = b.artifact_type;
  schema_version = b.schema_version;
  media_type = b.media_type;
  byte_length = b.byte_length;
  canonical = b.canonical;
  canonical_format = b.canonical_format;
  storage_backend = b.storage_backend;
  storage_ref = b.storage_ref;
  content = b.content;
}

abbrev pub owned_memo : String → Memo → CacheRow
owned_memo t r = record {
  tenant_id = t;
  stage_name = r.stage_name;
  stage_schema_version = r.stage_schema_version;
  input_artifact_sha256 = r.input_artifact_sha256;
  output_artifact_sha256 = r.output_artifact_sha256;
}

-- The rows of the tenant, among those of all tenants, are the rows of the pack.
abbrev pub Owns : String → PackDb → Db → Type 0
Owns t p db =
    (select (λ (a : Artifact). a.tenant_id == t) db.artifacts ≡ map (owned t) p.blobs)
    × (select (λ (r : CacheRow). r.tenant_id == t) db.cache ≡ map (owned_memo t) p.memos)

abbrev option_map : {A B : Type 0} → (A → B) → Option A → Option B
option_map f none = none
option_map f (some a) = some (f a)
