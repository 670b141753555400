-- ===== src/Pack.antt =====
-- services/artifact-store/dadi_store/store.py: the artifact store without tenants, from which the
-- gateway's store was made. `hashlib.sha256` is the parameter `sha256_hex`; the timestamps of edges
-- are left out of what a lineage query returns.
pub mod Tenanted
use dadi_runtime.Base.{
  ℕ, String, Bool, true, false, Option, none, some, List, [], ◌∷◌, ◌&&◌, ◌==◌, length,
  if◌then◌else◌, Exec, ok, select_one, select, insert,
}
use dadi_runtime.Store.{Meta}

pub record Blob : Type 0 where
  pub sha256 : String
  pub artifact_type : String
  pub schema_version : Option String
  pub media_type : String
  pub byte_length : ℕ
  pub canonical : Bool
  pub canonical_format : Option String
  pub storage_backend : String
  pub storage_ref : Option String
  pub content : Option (List ℕ)

pub record Link : Type 0 where
  pub from_sha256 : String
  pub to_sha256 : String
  pub edge_type : String
  pub stage_run_id : Option String

pub record Memo : Type 0 where
  pub stage_name : String
  pub stage_schema_version : String
  pub input_artifact_sha256 : String
  pub output_artifact_sha256 : String

-- llm_calls, which the LLM adapter adds
pub record LlmCall : Type 0 where
  pub llm_call_id : String
  pub stage_run_id : String
  pub request_artifact_sha256 : String
  pub response_artifact_sha256 : String
  pub provider : String
  pub model : String
  pub mode : String

-- `drawn` counts the calls of `uuid.uuid4()`, `asked` those of the LLM provider.
pub record PackDb : Type 0 where
  pub blobs : List Blob
  pub links : List Link
  pub memos : List Memo
  pub llm_calls : List LlmCall
  pub drawn : ℕ
  pub asked : ℕ

abbrev pub has_digest : String → Blob → Bool
has_digest h b = b.sha256 == h

abbrev pub new_blob : String → Meta → List ℕ → Blob
new_blob h m content = record {
  sha256 = h;
  artifact_type = m.artifact_type;
  schema_version = m.schema_version;
  media_type = m.media_type;
  byte_length = length content;
  canonical = m.canonical;
  canonical_format = m.canonical_format;
  storage_backend = "postgres";
  storage_ref = none;
  content = some content;
}

-- Returns the row: the code returns all its columns but the content.
unfoldable pub put_artifact_bytes : (List ℕ → String) → Meta → List ℕ → Exec PackDb Blob
put_artifact_bytes sha256_hex m content db =
    let h = sha256_hex content in
    elim (select_one (has_digest h) db.blobs) [
      | some row ↦ (ok row, db)
      | none ↦
          (ok (new_blob h m content), record db { blobs = insert db.blobs (new_blob h m content) })
    ]

unfoldable pub get_artifact_meta : PackDb → String → Option Blob
get_artifact_meta db sha = select_one (has_digest sha) db.blobs

abbrev pub postgres_content : Option Blob → Option (List ℕ)
postgres_content none = none
postgres_content (some row) = if row.storage_backend == "postgres" then row.content else none

unfoldable pub get_artifact_content : PackDb → String → Option (List ℕ)
get_artifact_content db sha = postgres_content (select_one (has_digest sha) db.blobs)

unfoldable pub record_edge : String → String → String → Option String → Exec PackDb Unit
record_edge from_sha to_sha edge_type stage_run_id db = (
  ok tt,
  record db {
    links = insert db.links (record {
      from_sha256 = from_sha;
      to_sha256 = to_sha;
      edge_type = edge_type;
      stage_run_id = stage_run_id;
    });
  },
)

unfoldable pub lineage_upstream : PackDb → String → List Link
lineage_upstream db sha = select (λ e. e.to_sha256 == sha) db.links

unfoldable pub lineage_downstream : PackDb → String → List Link
lineage_downstream db sha = select (λ e. e.from_sha256 == sha) db.links

abbrev pub is_memo : String → String → String → Memo → Bool
is_memo name version input r =
    r.stage_name == name && r.stage_schema_version == version && r.input_artifact_sha256 == input

abbrev pub new_memo : String → String → String → String → Memo
new_memo name version input output = record {
  stage_name = name;
  stage_schema_version = version;
  input_artifact_sha256 = input;
  output_artifact_sha256 = output;
}

unfoldable pub cache_lookup : PackDb → String → String → String → Option String
cache_lookup db name version input = elim (select_one (is_memo name version input) db.memos) [
  | none ↦ none
  | some r ↦ some r.output_artifact_sha256
]

unfoldable pub cache_record : String → String → String → String → Exec PackDb Unit
cache_record name version input output db =
    elim (select_one (is_memo name version input) db.memos) [
      | some _ ↦ (ok tt, db)
      | none ↦ (ok tt, record db { memos = insert db.memos (new_memo name version input output) })
    ]
