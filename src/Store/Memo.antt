-- ===== src/Store/Memo.antt =====
-- The memoization table: the first record of a key is kept.
use dadi_runtime.Base.{
  String, none, some, ◌≡◌, ◌==◌, eq_iff, arith, or_else, select_one-insert, ◌&&◌, if◌then◌else◌,
}
use dadi_runtime.Tables.{Db}
use dadi_runtime.Store.{is_cached, cache_lookup, cache_record}

-- After a record, its key finds the output that was first recorded, and any other key finds what
-- it found before.
pub cache_lookup-cache_record :
    (tenant name version input output t n v i : String) (db : Db)
    → cache_lookup (cache_record tenant name version input output db).1 t n v i
      ≡ or_else
          (cache_lookup db t n v i)
          (if tenant == t && name == n && version == v && input == i then some output else none)
unfolding cache_lookup cache_record
cache_lookup-cache_record tenant name version input output t n v i db = ground (
  arith,
  select_one-insert (is_cached t n v i) db.cache (record {
    tenant_id = tenant;
    stage_name = name;
    stage_schema_version = version;
    input_artifact_sha256 = input;
    output_artifact_sha256 = output;
  }),
  eq_iff tenant t,
  eq_iff name n,
  eq_iff version v,
  eq_iff input i,
)
