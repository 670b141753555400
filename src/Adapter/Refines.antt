-- ===== src/Adapter/Refines.antt =====
-- The orchestrator's adapter against the gateway's store: on one database they agree.
use dadi_runtime.Base.{
  ℕ, String, Option, none, some, List, ◌≡◌, arith, ok, or_else, if◌then◌else◌, ◌==◌, ◌&&◌,
}
use dadi_runtime.Tables.{Db}
use dadi_runtime.Store
use dadi_runtime.Store.{Meta}
use dadi_runtime.Store.Memo
use dadi_runtime.Adapter.{
  put_artifact, get_artifact_content, record_edge, cache_lookup, cache_record,
}

module _ (sha256_hex : List ℕ → String) (tenant : String) where
  -- The adapter leaves the database as the gateway's store does, for every operation that the two
  -- have in common, and reads the same content and the same memo.
  pub adapter_refines_store :
      (m : Meta) (content : List ℕ) (a b c d : String) (run : Option String) (db : Db)
      → ((put_artifact sha256_hex tenant m content db).1
          ≡ (Store.put_artifact sha256_hex tenant m content db).1)
        × ((put_artifact sha256_hex tenant m content db).0 ≡ ok (sha256_hex content))
        × (get_artifact_content db tenant a ≡ Store.get_artifact_content db tenant a)
        × (record_edge tenant a b c run db ≡ Store.record_edge tenant a b c run db)
        × (cache_lookup tenant a b c db ≡ Store.cache_lookup db tenant a b c)
        × (cache_record tenant a b c d db ≡ Store.cache_record tenant a b c d db)
  unfolding put_artifact get_artifact_content record_edge cache_lookup cache_record
      Store.put_artifact Store.get_artifact_content Store.record_edge Store.cache_lookup
      Store.cache_record
  adapter_refines_store m content a b c d run db = ground arith

-- The adapter's memo: the first record of a key is kept, and other keys stay.
pub cache_lookup-cache_record :
    (tenant name version input output t n v i : String) (db : Db)
    → cache_lookup t n v i (cache_record tenant name version input output db).1
      ≡ or_else
          (cache_lookup t n v i db)
          (if tenant == t && name == n && version == v && input == i then some output else none)
unfolding cache_lookup cache_record Store.cache_lookup Store.cache_record
cache_lookup-cache_record tenant name version input output t n v i db =
    Memo.cache_lookup-cache_record tenant name version input output t n v i db
