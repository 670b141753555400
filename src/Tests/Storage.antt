-- ===== src/Tests/Storage.antt =====
-- Witnesses for the stores, the registry, the idempotency keys and the LLM adapter.
use dadi_runtime.Base.{
  or_else, ℕ, zero, String, true, false, none, some, List, [], ◌∷◌, ◌≡◌, ◌≢◌, refl, arith, All, ◌⊎◌,
  Fields, end, field, str, obj, get_field, ok, eq_iff,
}
use dadi_runtime.Tables.{Db, empty_db}
use dadi_runtime.Store.{
  new_artifact, put_artifact, get_artifact_content, cache_record, cache_lookup,
}
use dadi_runtime.Store.Contents.{
  IsAddressed, get_artifact_content-put_artifact, get_artifact_content-put_artifact_ne,
}
use dadi_runtime.Adapter
use dadi_runtime.Adapter.Refines.{cache_lookup-cache_record}
use dadi_runtime.Registry.{Registry, validate_or_error_artifact}
use dadi_runtime.Registry.Verdicts.{Passes, validate_or_error_artifact_total}
use dadi_runtime.Pack.{PackDb, Blob, new_blob}
use dadi_runtime.Pack
use dadi_runtime.LlmAdapter.{
  LlmRequest, LlmEnv, CallArgs, Mode, live, dump_response, run, load_response_body,
}
use dadi_runtime.LlmAdapter.Capture.{load_response_body-run}
use dadi_runtime.Validator.{validate_and_hash, validate_and_hash_agrees}
use dadi_runtime.Tests.{short_bytes, letter_digest, letter_digest-nonempty, digest, note_meta}

abbrev one_artifact : Db
one_artifact = record empty_db { artifacts = new_artifact "acme" "da" note_meta (zero ∷ []) ∷ [] }

addressed : All (IsAddressed letter_digest) one_artifact.artifacts
addressed =
    (record { inline = refl; bytes = zero ∷ []; stored = refl; key = refl; size = refl }, tt)

get_artifact_content-put_artifact_example :
    (c : List ℕ) × (get_artifact_content
        (put_artifact letter_digest "acme" note_meta (1 ∷ []) one_artifact).1
        "acme"
        "db"
      ≡ some c)
    × (letter_digest c ≡ "db")
get_artifact_content-put_artifact_example =
    get_artifact_content-put_artifact letter_digest "acme" note_meta (1 ∷ []) one_artifact addressed

different : (◌≡◌ {A = String} "acme" "acme") × (◌≡◌ {A = String} "da" "db") → ⊥
different (_, h) = ground (arith, (eq_iff "da" "db").1 h)

get_artifact_content-put_artifact_ne_example :
    get_artifact_content
      (put_artifact letter_digest "acme" note_meta (1 ∷ []) one_artifact).1
      "acme"
      "da"
    ≡ get_artifact_content one_artifact "acme" "da"
get_artifact_content-put_artifact_ne_example =
    get_artifact_content-put_artifact_ne letter_digest "acme" note_meta (1 ∷ []) one_artifact "acme"
      "da" different

abbrev docs : Registry
docs = ("doc-v1", λ f. []) ∷ []

abbrev doc : Fields
doc = field "schema_version" (str "doc-v1") end

validate_or_error_artifact_total_example :
    (Passes digest docs doc × (validate_or_error_artifact digest docs doc ≡ ok (true, "db", doc)))
    ⊎ ((¬ Passes digest docs doc)
        × ((err : Fields) × (validate_or_error_artifact digest docs doc
              ≡ ok (false, letter_digest (digest.canonical_json_bytes err), err))
            × (get_field err "schema_version" ≡ some (str "validation_error-v1"))))
unfolding get_field
validate_or_error_artifact_total_example =
    validate_or_error_artifact_total digest docs doc letter_digest-nonempty

cache_lookup-cache_record_example :
    Adapter.cache_lookup "acme" "report" "v1" "da"
      (Adapter.cache_record "acme" "report" "v1" "da" "out" one_artifact).1
    ≡ or_else (Adapter.cache_lookup "acme" "report" "v1" "da" one_artifact) (some "out")
cache_lookup-cache_record_example =
    cache_lookup-cache_record "acme" "report" "v1" "da" "out" "acme" "report" "v1" "da" one_artifact

abbrev blob : Blob
blob = new_blob "da" note_meta (zero ∷ [])

abbrev pack : PackDb
pack = record { blobs = blob ∷ []; links = []; memos = []; llm_calls = []; drawn = 0; asked = 0 }

abbrev two_tenants : Db
two_tenants = record one_artifact {
  artifacts = new_artifact "other" "db" note_meta (1 ∷ []) ∷ one_artifact.artifacts;
}

abbrev question : LlmRequest
question = record {
  provider = "any";
  model = "m";
  prompt_bundle_sha256 = "prompt";
  toolchain_manifest_sha256 = "tool";
  input_hashes = "in" ∷ [];
  decoding = end;
  tools = end;
}

abbrev asked_of_stub : LlmRequest
asked_of_stub = record question { provider = "stub" }

-- the digest of no byte is the response's
abbrev response_bytes : Fields → List ℕ
response_bytes f = elim (get_field f "body") [ none ↦ 1 ∷ [] | some b ↦ [] ]

abbrev stub : LlmEnv
stub = record {
  sha256_hex = letter_digest;
  canonical = response_bytes;
  loads = λ bytes. some (obj (dump_response "db" asked_of_stub "hi"));
  uuid4 = λ n. "id";
  complete = λ n r. ok "hi";
  provider_name = "stub";
}

abbrev call_in : Mode → CallArgs
call_in m = record {
  mode = m;
  expected_response_sha256 = none;
  replay_response_sha256 = some "d";
  stage_run_id = some "stage";
  record_ledger = true;
}

not_response : (◌≡◌ {A = String} "da" "d") → some (zero ∷ []) ≡ some []
not_response h = absurd (ground (arith, (eq_iff "da" "d").1 h))

not_request : (◌≡◌ {A = String} "db" "d") → ◌≡◌ {A = List ℕ} (1 ∷ []) []
not_request h = absurd (ground (arith, (eq_iff "db" "d").1 h))

load_response_body-run_example :
    ((run stub (call_in live) question pack).0 ≡ ok ("db", "d", none))
    × (load_response_body stub (run stub (call_in live) question pack).1 "d" ≡ ok (str "hi"))
unfolding get_field
load_response_body-run_example =
    load_response_body-run stub (call_in live) question pack "hi"
      (dump_response "db" asked_of_stub "hi") refl
      (record { inline = refl; bytes = zero ∷ []; content_is = refl; key = refl }, tt) refl
      (not_response, tt) not_request refl (λ key. refl)

some_bytes : short_bytes doc ≢ []
unfolding get_field
some_bytes h = ground (arith, h)

validate_and_hash_agrees_example :
    validate_and_hash digest docs doc ≡ validate_or_error_artifact digest docs doc
unfolding get_field
validate_and_hash_agrees_example =
    validate_and_hash_agrees digest docs doc "doc-v1" refl refl some_bytes
