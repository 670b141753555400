-- ===== src/Deliverables.antt =====
-- services/gateway/dadi_gateway/deliverables_routes.py: the deliverables of a run and their status. A
-- request that a route refuses leaves what was written before it.
pub mod Replies
pub mod Status
use dadi_runtime.Base.{
  ℕ, String, Bool, true, false, Option, none, some, List, [], ◌∷◌, ◌&&◌, ◌||◌, ◌==◌, Json, Items,
  Fields, end, field, str, bool, null, obj, arr, nil, cons, opt_str, get_field, as_text, Exec, ok,
  raised, other, raise, pure, http, unbound_local, ◌>>=◌, ◌>>◌, gets, ◌+◌, if◌then◌else◌, leb,
  nat_eq, truthy, or_default, is_none, select_one, select, update, insert,
}
use dadi_runtime.Tables.{StageRun, PipelineRun, Deliverable, Db, fresh_id}
use dadi_runtime.Requests.{Request, Codec, tenant_id, lookup_response, store_response}
use dadi_runtime.Store.{Meta, get_artifact_content, put_artifact}
use dadi_runtime.Audit.{text_or_none}

-- The keys that are read of `payload`; a missing key and `null` are `none`.
pub record Payload : Type 0 where
  pub pipeline_run_id : Option String
  pub status : Option String
  pub stage06_output_sha256 : Option String
  pub supersedes_deliverable_id : Option String

-- `obj.get("results", {}).get("docx_sha256")` of what was parsed
unfoldable pub docx_of : Option Json → Option String
docx_of (some (obj fields)) =
    if get_field_is_render (as_text (get_field fields "schema_version"))
    then docx_of_results (get_field fields "results")
    else none
  where
    get_field_is_render : Option String → Bool
    get_field_is_render none = false
    get_field_is_render (some s) = s == "render_docx_output-v1"

    docx_of_results : Option Json → Option String
    docx_of_results (some (obj results)) = as_text (get_field results "docx_sha256")
    docx_of_results _ = none
docx_of _ = none

-- Where the content is missing, empty, no JSON or of another form, there is no digest.
unfoldable pub extract_docx_sha : Codec → Db → String → String → Option String
unfolding docx_of
extract_docx_sha k db tenant stage06_output = elim (get_artifact_content db tenant stage06_output) [
  | none ↦ none
  | some [] ↦ none
  | some (b ∷ bs) ↦ docx_of (k.loads (b ∷ bs))
]

-- ORDER BY completed_at DESC NULLS LAST
abbrev pub not_later : Option ℕ → Option ℕ → Bool
not_later none _ = true
not_later (some a) none = false
not_later (some a) (some b) = leb a b

-- LIMIT 1 of that order; of rows with one time, the first
unfoldable pub latest : List StageRun → Option StageRun
latest [] = none
latest (r ∷ rows) = elim (latest rows) [
  | none ↦ some r
  | some q ↦ if not_later q.completed_at r.completed_at then some r else some q
]

abbrev pub is_stage06 : String → String → StageRun → Bool
is_stage06 tenant run r =
    r.tenant_id == tenant
    && r.pipeline_run_id == run
    && nat_eq r.stage_index 6
    && r.status == "success"

unfoldable pub resolve_stage06 : Db → String → String → Option String → Option String
unfolding latest
resolve_stage06 db tenant run given =
    if truthy given then given else elim (latest (select (is_stage06 tenant run) db.stage_runs)) [
      | none ↦ none
      | some r ↦ r.output_artifact_sha256
    ]

abbrev pub is_deliverable : String → String → Deliverable → Bool
is_deliverable tenant deliverable_id d = d.tenant_id == tenant && d.deliverable_id == deliverable_id

abbrev pub is_pipeline_run : String → String → PipelineRun → Bool
is_pipeline_run tenant run r = r.tenant_id == tenant && r.pipeline_run_id == run

-- `status not in ("draft","final","sent","superseded")` is refused
abbrev pub valid_status : String → Bool
valid_status s = s == "draft" || s == "final" || s == "sent" || s == "superseded"

abbrev pub created_reply : Deliverable → Fields
created_reply d = field "tenant_id" (str d.tenant_id) (
    field "deliverable_id" (str d.deliverable_id) (
      field "pipeline_run_id" (str d.pipeline_run_id) (
        field "stage06_output_sha256" (opt_str d.stage06_output_sha256) (
          field "docx_sha256" (opt_str d.docx_sha256) (
            field "status" (str d.status)
              (field "supersedes_deliverable_id" (opt_str d.supersedes_deliverable_id) end))))))

-- From the run and the status that were read of the payload on.
unfoldable pub insert_deliverable : Codec → String → String → String → Payload → Exec Db Fields
insert_deliverable k tenant run status payload db =
    let stage06_out = resolve_stage06 db tenant run payload.stage06_output_sha256 in
    let docx_sha =
      (if truthy stage06_out
        then extract_docx_sha k db tenant (or_default stage06_out "")
        else none) in
    let d : Deliverable = record {
      tenant_id = tenant;
      deliverable_id = k.uuid4 db.drawn;
      pipeline_run_id = run;
      stage06_output_sha256 = stage06_out;
      docx_sha256 = docx_sha;
      status = status;
      created_at = db.clock;
      supersedes_deliverable_id = payload.supersedes_deliverable_id;
      deliverable_record_sha256 = none;
    } in
    elim (select_one (is_pipeline_run tenant run) db.pipeline_runs) [
      | none ↦ (raised (http 404 "Run not found"), record db { drawn = db.drawn + 1 })
      | some _ ↦ (
        ok (created_reply d),
        record db { drawn = db.drawn + 1; deliverables = insert db.deliverables d },
      )
    ]

unfoldable pub create_checked : Codec → String → Payload → Exec Db Fields
create_checked k tenant payload =
    let status = or_default payload.status "draft" in
    if truthy payload.pipeline_run_id
    then (if valid_status status
        then insert_deliverable k tenant (or_default payload.pipeline_run_id "") status payload
        else raise (http 400 "Invalid status"))
    else raise (http 400 "Missing pipeline_run_id")

-- The body behind the lookup by the idempotency key.
unfoldable pub create_new : Codec → Request → Payload → Exec Db Fields
create_new k request payload = do tenant ← tenant_id request; create_checked k tenant payload

-- The lookup by the idempotency key reads `tenant` before it is assigned.
unfoldable pub create_deliverable : Codec → Request → Payload → Exec Db Fields
create_deliverable k request payload db =
    if truthy request.idempotency_key
    then (raised (unbound_local "tenant"), db)
    else create_new k request payload db

-- What a row is shown as; `get_deliverable` adds the tenant, and the list leaves out the run.
abbrev pub shown : Codec → Deliverable → Fields
shown k d = field "stage06_output_sha256" (opt_str d.stage06_output_sha256) (
    field "docx_sha256" (opt_str d.docx_sha256) (
      field "status" (str d.status) (
        field "created_at" (str (k.isoformat d.created_at)) (
          field "supersedes_deliverable_id" (opt_str (text_or_none d.supersedes_deliverable_id))
            end))))

unfoldable pub get_deliverable : Codec → Request → String → Exec Db Fields
get_deliverable k request deliverable_id = do
  tenant ← tenant_id request
  row ← gets (λ db. select_one (is_deliverable tenant deliverable_id) db.deliverables)
  elim row [
    | none ↦ raise (http 404 "Deliverable not found")
    | some d ↦ pure (
        field "tenant_id" (str tenant) (
          field "deliverable_id" (str d.deliverable_id)
            (field "pipeline_run_id" (str d.pipeline_run_id) (shown k d))))
  ]

-- `UPDATE deliverables SET … WHERE tenant_id=… AND deliverable_id=… RETURNING …`
abbrev pub update_deliverable : String → String → (Deliverable → Deliverable) → Db → Db
update_deliverable tenant deliverable_id f db = record db {
  deliverables = update (is_deliverable tenant deliverable_id) f db.deliverables;
}

abbrev pub with_status : String → Deliverable → Deliverable
with_status s d = record d { status = s }

-- Sets the status of one row and returns the row, or raises where there is none.
unfoldable pub set_status : String → String → String → Exec Db Deliverable
set_status tenant deliverable_id status db =
    let db' = update_deliverable tenant deliverable_id (with_status status) db in
    elim (select_one (is_deliverable tenant deliverable_id) db'.deliverables) [
      | none ↦ (raised (http 404 "Deliverable not found"), db')
      | some d ↦ (ok d, db')
    ]

abbrev pub record_meta : Meta
record_meta = record {
  artifact_type = "deliverable/record/v1";
  schema_version = some "deliverable_record-v1";
  media_type = "application/json";
  canonical = true;
  canonical_format = some "json_c14n_v1";
}

abbrev pub record_obj : Codec → String → Deliverable → Fields
record_obj k deliverable_id d = field "schema_version" (str "deliverable_record-v1") (
    field "tenant_id" (str d.tenant_id) (
      field "deliverable_id" (str deliverable_id) (
        field "pipeline_run_id" (str d.pipeline_run_id) (
          field "status" (str d.status) (
            field "created_at" (str (k.isoformat d.created_at)) (
              field "supersedes_deliverable_id" (opt_str (text_or_none d.supersedes_deliverable_id))
                (field "artifacts"
                  (obj (
                    field "stage06_output_sha256" (opt_str d.stage06_output_sha256)
                      (field "docx_sha256" (opt_str d.docx_sha256) end)))
                  end)))))))

abbrev pub final_reply : String → String → Fields
final_reply deliverable_id record_sha = field "ok" (bool true) (
    field "deliverable_id" (str deliverable_id)
      (field "status" (str "final") (field "deliverable_record_sha256" (str record_sha) end)))

-- `emit_event` with the id of the run as the database gives it, a `uuid.UUID`: the id of the event is
-- drawn, `json.dumps` raises, and the transaction is rolled back.
unfoldable pub emit_final : Exec Db Json
emit_final db = (raised (other "TypeError"), record db { drawn = db.drawn + 1 })

abbrev pub remember_response : Request → String → Fields → Exec Db Unit
remember_response request tenant result =
    if truthy request.idempotency_key
    then store_response tenant (or_default request.idempotency_key "") request.method request.path
        200 (obj result)
    else pure tt

-- What `finalize_deliverable` does where no response is stored for the key.
unfoldable pub finalize_new : Codec → Request → String → String → Exec Db Json
unfolding emit_final
finalize_new k request tenant deliverable_id = do
  d ← set_status tenant deliverable_id "final"
  rec ← put_artifact k.sha256_hex tenant record_meta (k.canonical (record_obj k deliverable_id d))
  _ ← (λ db. (
    ok tt,
    update_deliverable tenant deliverable_id
        (λ row. record row { deliverable_record_sha256 = some rec.sha256 }) db,
  ))
  let result = final_reply deliverable_id rec.sha256
  _ ← remember_response request tenant result
  emit_final

abbrev pub stored_response : Request → String → Db → Option Json
stored_response request tenant db =
    if truthy request.idempotency_key
    then elim (lookup_response db tenant (or_default request.idempotency_key "") request.method
        request.path) [ none ↦ none | some (_, response) ↦ some response ]
    else none

unfoldable pub finalize_deliverable : Codec → Request → String → Exec Db Json
finalize_deliverable k request deliverable_id = do
  tenant ← tenant_id request
  hit ← gets (stored_response request tenant)
  elim hit [ some response ↦ pure response | none ↦ finalize_new k request tenant deliverable_id ]

unfoldable pub mark_sent : Request → String → Exec Db Fields
mark_sent request deliverable_id = do
  tenant ← tenant_id request
  _ ← set_status tenant deliverable_id "sent"
  pure (
      field "ok" (bool true)
        (field "deliverable_id" (str deliverable_id) (field "status" (str "sent") end)))

-- The old deliverable is marked in a transaction of its own, before the new one is created.
unfoldable pub supersede : Codec → Request → String → Payload → Exec Db Fields
supersede k request deliverable_id payload = do
  tenant ← tenant_id request
  _ ← set_status tenant deliverable_id "superseded"
  create_deliverable k request (record payload { supersedes_deliverable_id = some deliverable_id })

-- ORDER BY created_at DESC
unfoldable pub insert_newest : Deliverable → List Deliverable → List Deliverable
insert_newest d [] = d ∷ []
insert_newest d (e ∷ rows) =
    if leb e.created_at d.created_at then d ∷ e ∷ rows else e ∷ insert_newest d rows

unfoldable pub newest_first : List Deliverable → List Deliverable
unfolding insert_newest
newest_first [] = []
newest_first (d ∷ rows) = insert_newest d (newest_first rows)

abbrev pub shown_all : Codec → List Deliverable → Items
shown_all k [] = nil
shown_all k (d ∷ rows) =
    cons (obj (field "deliverable_id" (str d.deliverable_id) (shown k d))) (shown_all k rows)

unfoldable pub list_deliverables_for_run : Codec → Request → String → Exec Db Fields
unfolding newest_first
list_deliverables_for_run k request run = do
  tenant ← tenant_id request
  rows ←
      gets (λ db. select (λ d. d.tenant_id == tenant && d.pipeline_run_id == run) db.deliverables)
  pure (
      field "tenant_id" (str tenant) (
        field "pipeline_run_id" (str run)
          (field "deliverables" (arr (shown_all k (newest_first rows))) end)))
