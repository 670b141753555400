-- ===== src/Bundles.antt =====
-- services/gateway/dadi_gateway/revocation_routes.py, bundle_download_routes.py and
-- streaming_utils.py: the bundles and the evidence of a deliverable are revoked, and a bundle is
-- downloaded. The events of these routes are optional; the audit log is written as `emit_event` does
-- (`_emit_event_if_available` swallows what it raises).
pub mod Revoked
pub mod Chunks
use dadi_runtime.Base.{
  ℕ, zero, suc, String, Bool, true, false, Option, none, some, List, [], ◌∷◌, ◌&&◌, ◌||◌, not, ◌==◌,
  Json, Fields, end, field, str, bool, obj, opt_str, Exec, ok, raised, raise, pure, http, ◌>>=◌,
  ◌>>◌, gets, if◌then◌else◌, ltb, length, take, drop, select_one, update,
}
use dadi_runtime.Tables.{Deliverable, Bundle, Evidence, Db}
use dadi_runtime.Requests.{Request, Codec, tenant_id}
use dadi_runtime.Store.{get_artifact_content}
use dadi_runtime.Audit.{Event, emit_event}
use dadi_runtime.Deliverables.{is_deliverable}
use Prim.Native.String.{◌++◌ as concat}

abbrev pub is_bundle : String → String → String → Bundle → Bool
is_bundle tenant deliverable_id bundle_id b =
    b.tenant_id == tenant && b.deliverable_id == deliverable_id && b.bundle_id == bundle_id

abbrev pub is_evidence : String → String → String → Evidence → Bool
is_evidence tenant deliverable_id evidence_id e =
    e.tenant_id == tenant && e.deliverable_id == deliverable_id && e.evidence_id == evidence_id

abbrev pub bundle_event : String → String → Option String → Json → Event
bundle_event event_type deliverable_id bundle_id detail = record {
  event_type = event_type;
  pipeline_run_id = none;
  deliverable_id = some deliverable_id;
  bundle_id = bundle_id;
  idempotency_key = none;
  detail = detail;
}

-- `_emit_event_if_available`
abbrev pub emit : Codec → String → Event → Exec Db Unit
emit k tenant ev db =
    (ok tt, (emit_event k.sha256_hex k.canonical k.as_uuid k.uuid4 tenant ev db).1)

abbrev pub revoked_reply : String → String → Fields
revoked_reply key id =
    field "ok" (bool true) (field key (str id) (field "status" (str "revoked") end))

-- `status != 'revoked'` of a row that the request names
abbrev pub is_live_bundle : String → String → String → Bundle → Bool
is_live_bundle tenant deliverable_id bundle_id b =
    is_bundle tenant deliverable_id bundle_id b && not (b.status == "revoked")

abbrev pub revoke_row : ℕ → Bundle → Bundle
revoke_row now b = record b { status = "revoked"; revoked_at = some now }

-- Both routes end so: 404 where no row was updated, else the event and the reply.
unfoldable pub finish_revocation : Codec → String → Event → Fields → String → Bool → Exec Db Fields
finish_revocation k tenant ev reply detail true = emit k tenant ev >> pure reply
finish_revocation k tenant ev reply detail false = raise (http 404 detail)

-- UPDATE … RETURNING bundle_id: whether a row was updated
unfoldable pub update_bundle : String → String → String → Exec Db Bool
update_bundle tenant deliverable_id bundle_id db =
    let live = is_live_bundle tenant deliverable_id bundle_id in
    elim (select_one live db.bundles) [
      | none ↦ (ok false, db)
      | some _ ↦ (ok true, record db { bundles = update live (revoke_row db.clock) db.bundles })
    ]

unfoldable pub revoke_bundle : Codec → Request → String → String → Exec Db Fields
revoke_bundle k request deliverable_id bundle_id = do
  tenant ← tenant_id request
  found ← update_bundle tenant deliverable_id bundle_id
  finish_revocation k tenant
      (bundle_event "bundle_revoked" deliverable_id (some bundle_id) (obj end))
      (revoked_reply "bundle_id" bundle_id) "Bundle not found or already revoked" found

abbrev pub is_live_evidence : String → String → String → Evidence → Bool
is_live_evidence tenant deliverable_id evidence_id e =
    is_evidence tenant deliverable_id evidence_id e && not (e.status == "revoked")

abbrev pub revoke_evidence_row : ℕ → Evidence → Evidence
revoke_evidence_row now e = record e { status = "revoked"; revoked_at = some now }

unfoldable pub update_evidence : String → String → String → Exec Db Bool
update_evidence tenant deliverable_id evidence_id db =
    let live = is_live_evidence tenant deliverable_id evidence_id in
    elim (select_one live db.evidence) [
      | none ↦ (ok false, db)
      | some _ ↦
          (ok true, record db { evidence = update live (revoke_evidence_row db.clock) db.evidence })
    ]

unfoldable pub revoke_evidence : Codec → Request → String → String → Exec Db Fields
revoke_evidence k request deliverable_id evidence_id = do
  tenant ← tenant_id request
  found ← update_evidence tenant deliverable_id evidence_id
  finish_revocation k tenant
      (bundle_event "evidence_revoked" deliverable_id none
        (obj (field "evidence_id" (str evidence_id) end)))
      (revoked_reply "evidence_id" evidence_id) "Evidence not found or already revoked" found

-- `required not in scopes`
abbrev pub has_scope : String → List String → Bool
has_scope required [] = false
has_scope required (s ∷ scopes) = s == required || has_scope required scopes

-- `iter_bytes`, on fuel: the loop of `range(0, len(data), chunk_size)` takes a chunk in each step.
-- A `chunk_size` of 0 raises in Python; the routes take it from the environment.
unfoldable pub iter_bytes : ℕ → ℕ → List ℕ → List (List ℕ)
iter_bytes zero chunk_size bytes = []
iter_bytes (suc fuel) chunk_size [] = []
iter_bytes (suc fuel) chunk_size (b ∷ bytes) =
    take chunk_size (b ∷ bytes) ∷ iter_bytes fuel chunk_size (drop chunk_size (b ∷ bytes))

-- `DADI_STREAM_CHUNK_SIZE` and `DADI_MAX_STREAM_BYTES`
pub record StreamLimits : Type 0 where
  pub chunk_size : ℕ
  pub max_bytes : Option ℕ

abbrev pub exceeds : Option ℕ → ℕ → Bool
exceeds none n = false
exceeds (some m) n = ltb m n

-- The chunks of the response and the length that its header declares.
unfoldable pub stream_bytes : StreamLimits → List ℕ → Exec Db (ℕ × List (List ℕ))
unfolding iter_bytes
stream_bytes limits bytes =
    if exceeds limits.max_bytes (length bytes)
    then raise (http 413 "Stream exceeds configured maximum")
    else pure (length bytes, iter_bytes (length bytes) limits.chunk_size bytes)

abbrev pub refuse : {A : Type 0} → Codec → String → Event → ℕ → String → Exec Db A
refuse k tenant ev status detail = emit k tenant ev >> raise (http status detail)

-- From the bundle's content on.
unfoldable pub send_content :
    Codec
    → StreamLimits
    → Request
    → String
    → String
    → String
    → Bundle
    → Option (List ℕ)
    → Exec Db (ℕ × List (List ℕ))
send_content k limits request tenant deliverable_id bundle_id b none =
    raise (http 404 "Bundle bytes not available")
send_content k limits request tenant deliverable_id bundle_id b (some bytes) =
    emit k tenant (
      bundle_event "bundle_downloaded" deliverable_id (some bundle_id) (
        obj (
          field "bundle_sha256" (str b.bundle_artifact_sha256)
            (field "subject" (opt_str request.subject) end))))
    >> stream_bytes limits bytes

-- From the bundle's row on.
unfoldable pub send_bundle :
    Codec
    → StreamLimits
    → Request
    → String
    → String
    → String
    → Option Bundle
    → Exec Db (ℕ × List (List ℕ))
unfolding send_content
send_bundle k limits request tenant deliverable_id bundle_id none db =
    (raised (http 404 "Bundle not found"), db)
send_bundle k limits request tenant deliverable_id bundle_id (some b) db =
    if b.status == "revoked"
    then refuse k tenant
        (bundle_event "bundle_download_denied" deliverable_id (some bundle_id)
          (obj (field "reason" (str "revoked") end)))
        409 "Bundle is revoked" db
    else send_content k limits request tenant deliverable_id bundle_id b
        (get_artifact_content db tenant b.bundle_artifact_sha256) db

-- From the deliverable's row on.
unfoldable pub download_for :
    Codec
    → StreamLimits
    → Request
    → String
    → String
    → String
    → Option Deliverable
    → Exec Db (ℕ × List (List ℕ))
unfolding send_bundle
download_for k limits request tenant deliverable_id bundle_id none db =
    (raised (http 404 "Deliverable not found"), db)
download_for k limits request tenant deliverable_id bundle_id (some deliverable) db =
    if deliverable.status == "sent"
    then send_bundle k limits request tenant deliverable_id bundle_id
        (select_one (is_bundle tenant deliverable_id bundle_id) db.bundles) db
    else refuse k tenant
        (bundle_event "bundle_download_denied" deliverable_id (some bundle_id) (
          obj (
            field "reason" (str "deliverable_not_sent")
              (field "status" (str deliverable.status) end))))
        409 "Deliverable must be sent to download bundle" db

unfoldable pub download_bundle :
    Codec → StreamLimits → Request → String → String → Exec Db (ℕ × List (List ℕ))
download_bundle k limits request deliverable_id bundle_id = do
  tenant ← tenant_id request
  if has_scope "deliverable:download_bundle" request.scopes
      then (λ db.
          download_for k limits request tenant deliverable_id bundle_id
            (select_one (is_deliverable tenant deliverable_id) db.deliverables) db)
      else raise (http 403 "Forbidden: insufficient scope")
