-- ===== src/Store/Lineage.antt =====
-- Lineage queries against the recorded edges.
use dadi_runtime.Base.{String, Option, ◌≡◌, ◌==◌, ◌&&◌, if◌then◌else◌, insert, select-insert}
use dadi_runtime.Tables.{Db}
use dadi_runtime.Store.{record_edge, new_edge, lineage_upstream, lineage_downstream}

-- A recorded edge comes last among the edges upstream of its target, and last among the edges
-- downstream of its source, for its tenant only; every other answer stays as it was.
pub lineage-record_edge :
    (tenant src dst kind : String) (run : Option String) (t sha : String) (db : Db)
    → (lineage_upstream (record_edge tenant src dst kind run db).1 t sha ≡ (
        if tenant == t && dst == sha
        then insert (lineage_upstream db t sha) (new_edge db tenant src dst kind run)
        else lineage_upstream db t sha))
      × (lineage_downstream (record_edge tenant src dst kind run db).1 t sha ≡ (
          if tenant == t && src == sha
          then insert (lineage_downstream db t sha) (new_edge db tenant src dst kind run)
          else lineage_downstream db t sha))
unfolding lineage_upstream lineage_downstream record_edge
lineage-record_edge tenant src dst kind run t sha db = (select-insert _ _ _, select-insert _ _ _)
