-- ===== src/Tests/Verified.antt =====
-- Witnesses for the verification of bundles.
use dadi_runtime.Base.{
  ℕ, String, true, Option, some, Json, select, select_one, List, [], ◌∷◌, ◌≡◌, refl, Fields, end,
  field, str, obj, arr, nil, cons, ok, get_field, pop_field, strip, bytes_eq, pad, padding, count,
}
use dadi_runtime.Signing.{Packages, b64url_decode}
use dadi_runtime.Closure.{contains, listed_items, add, difference, sorted}
use dadi_runtime.BundleVerify.{
  Zip, GatewayReply, unreachable, checked, skipped, Report, make_report, reported, verify_zip, read,
  check_signature, check_object, check_texts, check_hmac, hmac_with, check_closure, zip_artifacts,
  mismatches, missing_in_manifest, after_slash,
}
use dadi_runtime.BundleVerify.Complete.{Complete, verify_zip-Complete}
use dadi_runtime.Tables.{StageRun}
use dadi_runtime.Pack.{Blob, new_blob}
use dadi_runtime.Planner.Items.{by_index, insert_by_index}
use dadi_runtime.Regress.{
  Manifest, find_file, put_file, fetch_artifact_bytes, keep_artifact, keep_stage, keep_stages,
  keep_pointers, boundary_of, metas, record_rows, record_fixture, write_fixture, passing,
  verify_fixture,
}
use dadi_runtime.Regress.Recorded.{verify_fixture-record_fixture}
use dadi_runtime.Tests.{note_meta, stage_row}
use dadi_runtime.Tests.Limited.{packages}

abbrev manifest : Fields
manifest = field "artifacts" (arr (cons (obj (field "sha256" (str "aa") end)) nil)) (
    field "signature"
      (obj (field "alg" (str "hmac-sha256") (field "kid" (str "k1") (field "sig" (str "Bw") end))))
      end)

-- Every key and every tag is the byte 7, and every digest is `aa`.
abbrev checker : Packages
checker = record packages {
  loads = λ s. ok (obj manifest);
  encode = λ s. 7 ∷ [];
  urlsafe_b64decode = λ s. some (7 ∷ []);
  hmac_sha256 = λ key message. key;
}

abbrev same_digest : List ℕ → String
same_digest bytes = "aa"

abbrev no_gateway : String → GatewayReply
no_gateway run = unreachable "ConnectionError"

abbrev zip : Zip
zip = ("manifest.json", 1 ∷ []) ∷ ("artifacts/aa", 2 ∷ 3 ∷ []) ∷ []

abbrev report : Report
report =
    make_report same_digest zip ("aa" ∷ []) (checked true "hmac-sha256" "k1")
      (skipped "missing closure_mode or pipeline_run_id")

is_reported : verify_zip checker same_digest no_gateway zip ≡ ok (reported report)
unfolding verify_zip contains read check_signature check_object check_texts check_hmac hmac_with
    check_closure get_field pop_field strip bytes_eq b64url_decode pad padding count listed_items
    add
is_reported = refl

passes : report.passes ≡ true
unfolding make_report zip_artifacts mismatches missing_in_manifest after_slash read contains
    difference sorted get_field
passes = refl

verify_zip-Complete_example : Complete checker same_digest no_gateway zip
verify_zip-Complete_example =
    verify_zip-Complete checker same_digest no_gateway zip report is_reported passes

-- A run with one stage, whose input names its docpack, `aa` both.
abbrev blobs : List Blob
blobs = new_blob "aa" note_meta (1 ∷ []) ∷ []

abbrev row : StageRun
row = record (stage_row "r1" 0 "aa") { input_artifact_sha256 = "aa" }

abbrev reads : List ℕ → Option Json
reads bytes = some (obj (field "docpack_sha256" (str "aa") end))

abbrev fixture_manifest : Manifest
fixture_manifest = record {
  pipeline_run_id = "r1";
  docpack_sha256 = "aa";
  artifacts = record { name = "aa"; byte_length = 1; sha256 = "aa" } ∷ [];
  stage_boundaries = boundary_of row ∷ [];
}

verify_fixture-record_fixture_example :
    verify_fixture same_digest (write_fixture (fixture_manifest, ("aa", 1 ∷ []) ∷ [])) ≡ passing
unfolding record_fixture record_rows by_index insert_by_index select select_one fetch_artifact_bytes
    find_file put_file keep_artifact keep_stage keep_stages keep_pointers metas get_field
verify_fixture-record_fixture_example =
    verify_fixture-record_fixture same_digest reads blobs (row ∷ []) "r1" fixture_manifest
      (("aa", 1 ∷ []) ∷ []) ((λ bytes e. refl), tt) refl
