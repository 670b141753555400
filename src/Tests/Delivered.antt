-- ===== src/Tests/Delivered.antt =====
-- Witnesses for deliverables and bundles.
use dadi_runtime.Base.{
  ℕ, none, some, List, [], ◌∷◌, ◌≡◌, refl, arith, Fields, end, Result, ok, raised, select_one,
  update,
}
use dadi_runtime.Tables.{Deliverable, Bundle, Db, empty_db}
use dadi_runtime.Store.{new_artifact, get_artifact_content}
use dadi_runtime.Audit.{emit_event, id_columns, ids_of, write_event}
use dadi_runtime.Requests.{Request, Codec, tenant_id}
use dadi_runtime.Deliverables.{
  Payload, create_deliverable, finalize_deliverable, mark_sent, supersede,
}
use dadi_runtime.Deliverables.Status.{HasStatuses, routes-HasStatuses}
use dadi_runtime.Bundles.{
  StreamLimits, iter_bytes, stream_bytes, send_content, send_bundle, download_for, download_bundle,
  update_bundle, finish_revocation, revoke_bundle,
}
use dadi_runtime.Bundles.Revoked.{Downloaded, download_bundle-ok, revoked-not_downloaded}
use dadi_runtime.Tests.{letter_digest, short_bytes, ids, note_meta}

abbrev codec : Codec
codec = record {
  uuid4 = ids;
  sha256_hex = letter_digest;
  canonical = short_bytes;
  loads = λ bytes. none;
  isoformat = λ n. "now";
  as_uuid = λ s. some s;
}

abbrev request : Request
request = record {
  tenant_id = some "acme";
  scopes = "deliverable:download_bundle" ∷ [];
  subject = none;
  idempotency_key = some "key";
  method = "POST";
  path = "/deliverables";
}

abbrev payload : Payload
payload = record {
  pipeline_run_id = some "r1";
  status = none;
  stage06_output_sha256 = none;
  supersedes_deliverable_id = none;
}

abbrev delivered : Deliverable
delivered = record {
  tenant_id = "acme";
  deliverable_id = "d1";
  pipeline_run_id = "r1";
  stage06_output_sha256 = none;
  docx_sha256 = none;
  status = "sent";
  created_at = 0;
  supersedes_deliverable_id = none;
  deliverable_record_sha256 = none;
}

abbrev bundle : Bundle
bundle = record {
  tenant_id = "acme";
  deliverable_id = "d1";
  bundle_id = "b1";
  created_at = 0;
  manifest_artifact_sha256 = "m";
  bundle_artifact_sha256 = "db";
  status = "active";
  revoked_at = none;
}

abbrev sent_db : Db
sent_db = record empty_db {
  artifacts = new_artifact "acme" "db" note_meta (1 ∷ 2 ∷ 3 ∷ []) ∷ [];
  deliverables = delivered ∷ [];
  bundles = bundle ∷ [];
}

abbrev after_failure : Db
after_failure = (finalize_deliverable codec request "d1" sent_db).1

routes-HasStatuses_example :
    HasStatuses (create_deliverable codec request payload sent_db).1
    × HasStatuses (finalize_deliverable codec request "d1" sent_db).1
    × HasStatuses (mark_sent request "d1" sent_db).1
    × HasStatuses (supersede codec request "d1" payload sent_db).1
routes-HasStatuses_example = routes-HasStatuses codec request "d1" payload sent_db (refl, tt)

abbrev limits : StreamLimits
limits = record { chunk_size = 2; max_bytes = some 10 }

abbrev download : Result (ℕ × List (List ℕ)) × Db
download = download_bundle codec limits request "d1" "b1" sent_db

downloads : download ≡ (ok (3, (1 ∷ 2 ∷ []) ∷ (3 ∷ []) ∷ []), download.1)
unfolding download_bundle tenant_id download_for send_bundle send_content stream_bytes iter_bytes
    get_artifact_content emit_event id_columns ids_of write_event select_one
downloads = refl

download_bundle-ok_example :
    Downloaded "acme" "d1" "b1" request.scopes sent_db 3 ((1 ∷ 2 ∷ []) ∷ (3 ∷ []) ∷ [])
download_bundle-ok_example =
    download_bundle-ok codec limits request "d1" "b1" sent_db download.1 3
      ((1 ∷ 2 ∷ []) ∷ (3 ∷ []) ∷ []) (omega arith) refl downloads

abbrev revocation : Result Fields × Db
revocation = revoke_bundle codec request "d1" "b1" sent_db

abbrev fields_of : Result Fields → Fields
fields_of (ok f) = f
fields_of (raised e) = end

revokes : revocation ≡ (ok (fields_of revocation.0), revocation.1)
unfolding revoke_bundle tenant_id update_bundle finish_revocation emit_event id_columns ids_of
    write_event select_one update
revokes = refl

revoked-not_downloaded_example :
    ¬ (download_bundle codec limits request "d1" "b1" revocation.1 ≡ (ok (3, []), revocation.1))
revoked-not_downloaded_example =
    revoked-not_downloaded codec limits request request "d1" "b1" sent_db revocation.1 revocation.1
      (fields_of revocation.0) 3 [] (omega arith) refl revokes
