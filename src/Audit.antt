-- ===== src/Audit.antt =====
-- services/gateway/dadi_gateway/audit.py: the audit log, a chain of hashes for each tenant. An event
-- is hashed together with the hash of the event before it; `verify_chain` recomputes the chain.
-- `hashlib.sha256` and `json.dumps` are parameters, and so is how the database reads a text as a
-- UUID: the canonical text, or an error. A JSON column gives back the value written.
pub mod Order
pub mod Chain
pub mod Tamper
pub mod Listing
use Prim.Native.Char.{code}
use Prim.Native.String
use Prim.Native.String.{compare}
use text.Mathlib.Text.{is_le}
use dadi_runtime.Base.{
  ℕ, ◌+◌, String, Bool, true, false, Option, none, some, List, [], ◌∷◌, ◌++◌, ◌&&◌, ◌||◌, not, ◌==◌,
  if◌then◌else◌, ltb, leb, nat_eq, truthy, is_text, or_default, is_none, Json, Fields, end, field,
  str, obj, null, opt_str, Exec, ok, raised, other, select, insert, take,
}
use dadi_runtime.Tables.{AuditRow, Db}

-- `s.encode("ascii")`
abbrev pub codes : String → List ℕ
codes String.[] = []
codes (String.◌∷◌ c s) = code c ∷ codes s

-- `"0"*64`
abbrev pub zeros : String
zeros = "0000000000000000000000000000000000000000000000000000000000000000"

-- `str(v) if v else None`
abbrev pub text_or_none : Option String → Option String
text_or_none none = none
text_or_none (some s) = if s == "" then none else some s

-- The arguments of `emit_event` behind the tenant.
pub record Event : Type 0 where
  pub event_type : String
  pub pipeline_run_id : Option String
  pub deliverable_id : Option String
  pub bundle_id : Option String
  pub idempotency_key : Option String
  pub detail : Json

unfoldable pub event_for_hash : String → String → Event → Fields
event_for_hash tenant event_id ev = field "tenant_id" (str tenant) (
    field "event_id" (str event_id) (
      field "event_type" (str ev.event_type) (
        field "pipeline_run_id" (opt_str ev.pipeline_run_id) (
          field "deliverable_id" (opt_str ev.deliverable_id) (
            field "bundle_id" (opt_str ev.bundle_id) (
              field "idempotency_key" (opt_str ev.idempotency_key)
                (field "detail" ev.detail end)))))))

-- The event that `verify_chain` reads back from a row.
abbrev pub event_of : AuditRow → Event
event_of r = record {
  event_type = r.event_type;
  pipeline_run_id = text_or_none r.pipeline_run_id;
  deliverable_id = text_or_none r.deliverable_id;
  bundle_id = text_or_none r.bundle_id;
  idempotency_key = r.idempotency_key;
  detail = r.detail;
}

-- ORDER BY created_at ASC, event_id ASC
abbrev pub event_le : AuditRow → AuditRow → Bool
event_le a b =
    ltb a.created_at b.created_at
    || (nat_eq a.created_at b.created_at && is_le (compare a.event_id b.event_id))

unfoldable pub insert_event : AuditRow → List AuditRow → List AuditRow
insert_event r [] = r ∷ []
insert_event r (q ∷ rows) = if event_le r q then r ∷ q ∷ rows else q ∷ insert_event r rows

unfoldable pub order_events : List AuditRow → List AuditRow
unfolding insert_event
order_events [] = []
order_events (r ∷ rows) = insert_event r (order_events rows)

abbrev pub last? {ℓ} : {A : Type ℓ} → List A → Option A
last? [] = none
last? (x ∷ []) = some x
last? (x ∷ y ∷ xs) = last? (y ∷ xs)

-- WHERE tenant_id=… AND event_hash IS NOT NULL
abbrev pub in_chain : String → AuditRow → Bool
in_chain tenant r = r.tenant_id == tenant && not (is_none r.event_hash)

abbrev pub chain_rows : String → Db → List AuditRow
chain_rows tenant db = select (in_chain tenant) db.audit

-- `row[0] if row and row[0] else None`, for the row of ORDER BY … DESC LIMIT 1
abbrev pub row_hash : Option AuditRow → Option String
row_hash none = none
row_hash (some r) = text_or_none r.event_hash

pub record ChainReport : Type 0 where
  pub valid : Bool
  pub checked : ℕ
  pub first_error : Option String

abbrev pub clamp_limit : ℕ → ℕ → ℕ
clamp_limit limit top = let m = (if leb limit top then limit else top) in if leb 1 m then m else 1

abbrev pub text_of : Option String → String
text_of none = ""
text_of (some s) = s

-- `if pipeline_run_id: where.append("pipeline_run_id=%s")`
abbrev pub matches : Option String → Option String → Bool
matches wanted column = not (truthy wanted) || is_text column (text_of wanted)

-- `detail = detail or {}`; `None` is `null`
abbrev pub or_empty : Json → Json
or_empty null = obj end
or_empty v = v

abbrev pub with_detail : Event → Event
with_detail ev = record ev { detail = or_empty ev.detail }

-- A nullable UUID column: what the database reads back of what is written, `none` where it raises.
abbrev pub uuid_column : (String → Option String) → Option String → Option (Option String)
uuid_column as_uuid none = some none
uuid_column as_uuid (some s) = elim (as_uuid s) [ none ↦ none | some u ↦ some (some u) ]

-- The three columns of an event's ids.
pub record Ids : Type 0 where
  pub run : Option String
  pub deliverable : Option String
  pub bundle : Option String

unfoldable pub ids_of :
    Option (Option String) → Option (Option String) → Option (Option String) → Option Ids
ids_of (some r) (some d) (some b) = some (record { run = r; deliverable = d; bundle = b })
ids_of _ _ _ = none

unfoldable pub id_columns : (String → Option String) → Event → Option Ids
unfolding ids_of
id_columns as_uuid ev =
    ids_of (uuid_column as_uuid ev.pipeline_run_id) (uuid_column as_uuid ev.deliverable_id)
      (uuid_column as_uuid ev.bundle_id)

module _ (sha256_hex : List ℕ → String) (canonical : Fields → List ℕ) where
  -- `prev.encode("ascii") + b"|" + _canonical_event_bytes(event)`
  abbrev pub message : String → String → String → Event → List ℕ
  message prev tenant event_id ev =
      codes prev ++ b'|' ∷ canonical (event_for_hash tenant event_id ev)

  abbrev pub new_event : String → String → Event → Ids → Option String → ℕ → AuditRow
  new_event tenant event_id ev ids prev_hash now = record {
    tenant_id = tenant;
    event_id = event_id;
    created_at = now;
    event_type = ev.event_type;
    pipeline_run_id = ids.run;
    deliverable_id = ids.deliverable;
    bundle_id = ids.bundle;
    idempotency_key = ev.idempotency_key;
    detail = ev.detail;
    prev_event_hash = prev_hash;
    event_hash = some (sha256_hex (message (or_default prev_hash zeros) tenant event_id ev));
  }

  -- The transaction once the ids are read as UUIDs: one that is no UUID raises, and nothing is written.
  unfoldable pub write_event : String → String → Event → Option String → Option Ids → Exec Db String
  write_event tenant event_id ev prev_hash none db = (raised (other "DataError"), db)
  write_event tenant event_id ev prev_hash (some ids) db = (
    ok event_id,
    record db { audit = insert db.audit (new_event tenant event_id ev ids prev_hash db.clock) },
  )

  unfoldable pub emit_event :
      (String → Option String) → (ℕ → String) → String → Event → Exec Db String
  unfolding id_columns write_event
  emit_event as_uuid uuid4 tenant ev db =
      write_event tenant (uuid4 db.drawn) (with_detail ev)
        (row_hash (last? (order_events (chain_rows tenant db)))) (id_columns as_uuid ev)
        (record db { drawn = db.drawn + 1 })

  -- The loop of `verify_chain`, from the hash before the rows and the count so far.
  unfoldable pub verify_rows : String → String → ℕ → List AuditRow → ChainReport
  verify_rows tenant prev checked [] = record {
    valid = true;
    checked = checked;
    first_error = none;
  }
  verify_rows tenant prev checked (r ∷ rows) =
      let rest = verify_rows tenant (text_of r.event_hash) (checked + 1) rows in
      let expected = sha256_hex (message prev tenant r.event_id (event_of r)) in
      if not (or_default r.prev_event_hash zeros == prev) || not (is_text r.event_hash expected)
      then record { valid = false; checked = checked; first_error = some r.event_id }
      else rest

  unfoldable pub verify_chain : Db → String → Option String → Option String → ℕ → ChainReport
  unfolding verify_rows
  verify_chain db tenant run deliverable limit = verify_rows tenant zeros 0 (
      take (clamp_limit limit 5000) (
        order_events (
          select
            (λ r.
              in_chain tenant r
              && matches run r.pipeline_run_id
              && matches deliverable r.deliverable_id)
            db.audit)))
