-- ===== src/LlmAdapter.antt =====
-- services/llm-adapter/dadi_llm_adapter/adapter.py, artifact_store.py and models.py: a call of a
-- language model whose request and response are stored as artifacts. `hashlib.sha256`, `json.dumps`,
-- `json.loads`, `uuid.uuid4` and the provider are parameters. A mode is one of the three that the
-- type names.
pub mod Capture
use dadi_runtime.Base.{
  ℕ, ◌+◌, String, Bool, true, false, Option, none, some, List, [], ◌∷◌, not, ◌==◌, length,
  if◌then◌else◌, truthy, or_default, is_text, Json, Fields, Items, end, field, str, arr, obj, texts,
  get_field, as_text, Result, Exec, ok, raised, raise, pure, gets, value_error, key_error, other,
  ◌>>=◌, ◌>>◌, insert, select_one,
}
use dadi_runtime.Store.{Meta}
use dadi_runtime.Pack.{PackDb, LlmCall, has_digest, new_blob, get_artifact_content}

pub record LlmRequest : Type 0 where
  pub provider : String
  pub model : String
  pub prompt_bundle_sha256 : String
  pub toolchain_manifest_sha256 : String
  pub input_hashes : List String
  pub decoding : Fields
  pub tools : Fields

-- `loads` gives `none` where `json.loads` raises; `complete n` is the answer to the call number `n`.
pub record LlmEnv : Type 0 where
  pub sha256_hex : List ℕ → String
  pub canonical : Fields → List ℕ
  pub loads : List ℕ → Option Json
  pub uuid4 : ℕ → String
  pub complete : ℕ → LlmRequest → Result String
  pub provider_name : String

pub data Mode : Type 0 where
  live : Mode
  replay : Mode
  drift : Mode

abbrev pub mode_name : Mode → String
mode_name live = "live"
mode_name replay = "replay"
mode_name drift = "drift"

pub record CallArgs : Type 0 where
  pub mode : Mode
  pub expected_response_sha256 : Option String
  pub replay_response_sha256 : Option String
  pub stage_run_id : Option String
  pub record_ledger : Bool

-- `req.model_dump()`
abbrev pub dump_request : LlmRequest → Fields
dump_request r = field "schema_version" (str "llm_request-v1") (
    field "provider" (str r.provider) (
      field "model" (str r.model) (
        field "prompt_bundle_sha256" (str r.prompt_bundle_sha256) (
          field "toolchain_manifest_sha256" (str r.toolchain_manifest_sha256) (
            field "input_hashes" (arr (texts r.input_hashes))
              (field "decoding" (obj r.decoding) (field "tools" (obj r.tools) end)))))))

-- `resp.model_dump()`
abbrev pub dump_response : String → LlmRequest → String → Fields
dump_response req_sha r body = field "schema_version" (str "llm_response-v1") (
    field "request_sha256" (str req_sha) (
      field "provider" (str r.provider)
        (field "model" (str r.model) (field "body" (str body) end))))

abbrev pub drift_record : String → String → String → LlmRequest → Fields
drift_record expected observed req_sha r = field "schema_version" (str "llm_drift-v1") (
    field "expected_response_sha256" (str expected) (
      field "observed_response_sha256" (str observed) (
        field "request_sha256" (str req_sha)
          (field "provider" (str r.provider) (field "model" (str r.model) end)))))

abbrev pub llm_meta : String → String → Meta
llm_meta artifact_type schema_version = record {
  artifact_type = artifact_type;
  schema_version = some schema_version;
  media_type = "application/json";
  canonical = true;
  canonical_format = some "json_c14n_v1";
}

module _ (e : LlmEnv) where
  -- `put_artifact`, which returns the digest
  unfoldable pub put_artifact : Meta → List ℕ → Exec PackDb String
  put_artifact m content db =
      let h = e.sha256_hex content in
      elim (select_one (has_digest h) db.blobs) [
        | some _ ↦ (ok h, db)
        | none ↦ (ok h, record db { blobs = insert db.blobs (new_blob h m content) })
      ]

  -- `json.loads(b)` where `b` was found, if its schema is that of a response
  unfoldable pub parse_response : String → String → Option (List ℕ) → Result Fields
  parse_response missing wrong none = raised (key_error missing)
  parse_response missing wrong (some bytes) = elim (e.loads bytes) [
    | some (obj fields) ↦
        if is_text (as_text (get_field fields "schema_version")) "llm_response-v1"
        then ok fields
        else raised (value_error wrong)
    | some _ ↦ raised (other "AttributeError")
    | none ↦ raised (value_error "JSONDecodeError")
  ]

  -- `obj["body"]`
  abbrev pub body_of : Result Fields → Result Json
  body_of (raised x) = raised x
  body_of (ok fields) = elim (get_field fields "body") [
    | none ↦ raised (key_error "body")
    | some b ↦ ok b
  ]

  unfoldable pub load_response_body : PackDb → String → Result Json
  unfolding parse_response
  load_response_body db sha = body_of (
      parse_response "Response artifact not found or not available"
        "Artifact is not llm_response-v1" (get_artifact_content db sha))

  unfoldable pub record_call :
      Bool → Option String → String → String → LlmRequest → String → Exec PackDb Unit
  record_call false stage_run_id req_sha resp_sha r mode db = (ok tt, db)
  record_call true none req_sha resp_sha r mode db = (ok tt, db)
  record_call true (some id) req_sha resp_sha r mode db = (
    ok tt,
    record db {
      drawn = db.drawn + 1;
      llm_calls = insert db.llm_calls (record {
        llm_call_id = e.uuid4 db.drawn;
        stage_run_id = id;
        request_artifact_sha256 = req_sha;
        response_artifact_sha256 = resp_sha;
        provider = r.provider;
        model = r.model;
        mode = mode;
      });
    },
  )

  -- `self.provider.complete(req)`
  unfoldable pub ask : LlmRequest → Exec PackDb String
  ask r db = (e.complete db.asked r, record db { asked = db.asked + 1 })

  -- the digests of the request, of the response and of the drift record, if any
  abbrev pub Answer : Type 0
  Answer = String × String × Option String

  -- A replay from what was loaded on.
  unfoldable pub replay_from :
      CallArgs → LlmRequest → String → String → Result Fields → Exec PackDb Answer
  unfolding record_call
  replay_from a r req_sha sha (raised x) = raise x
  replay_from a r req_sha sha (ok fields) =
      record_call a.record_ledger a.stage_run_id req_sha sha r "replay" >> pure (req_sha, sha, none)

  unfoldable pub run_replay : CallArgs → LlmRequest → String → Exec PackDb Answer
  unfolding parse_response replay_from
  run_replay a r req_sha db =
      let sha = or_default a.replay_response_sha256 "" in
      if truthy a.replay_response_sha256
      then replay_from a r req_sha sha
          (parse_response "Replay response artifact not found or not available"
            "Replay artifact is not llm_response-v1" (get_artifact_content db sha))
          db
      else (raised (value_error "replay_response_sha256 is required for replay mode"), db)

  -- the drift record, where the response differs from what is expected
  unfoldable pub check_drift : CallArgs → LlmRequest → String → String → Exec PackDb (Option String)
  unfolding put_artifact
  check_drift a r req_sha resp_sha =
      if truthy a.expected_response_sha256
      then (let expected = or_default a.expected_response_sha256 "" in
          if resp_sha == expected then pure none else (do
            sha ←
                put_artifact (llm_meta "llm/drift-v1" "llm_drift-v1")
                  (e.canonical (drift_record expected resp_sha req_sha r))
            pure (some sha)))
      else raise (value_error "expected_response_sha256 is required for drift mode")

  abbrev pub drift_of : CallArgs → LlmRequest → String → String → Mode → Exec PackDb (Option String)
  drift_of a r req_sha resp_sha drift = check_drift a r req_sha resp_sha
  drift_of a r req_sha resp_sha _ = pure none

  unfoldable pub capture : CallArgs → LlmRequest → String → Exec PackDb Answer
  unfolding put_artifact ask check_drift record_call
  capture a r req_sha = do
    body ← ask r
    resp_sha ←
        put_artifact (llm_meta "llm/response-v1" "llm_response-v1")
          (e.canonical (dump_response req_sha r body))
    drift_sha ← drift_of a r req_sha resp_sha a.mode
    _ ← record_call a.record_ledger a.stage_run_id req_sha resp_sha r (mode_name a.mode)
    pure (req_sha, resp_sha, drift_sha)

  abbrev pub dispatch : CallArgs → LlmRequest → String → Mode → Exec PackDb Answer
  dispatch a r req_sha replay = run_replay a r req_sha
  dispatch a r req_sha _ = capture a r req_sha

  -- The provider's name replaces the one of the request.
  unfoldable pub run : CallArgs → LlmRequest → Exec PackDb Answer
  unfolding put_artifact run_replay capture
  run a request = do
    let r = record request { provider = e.provider_name }
    req_sha ←
        put_artifact (llm_meta "llm/request-v1" "llm_request-v1") (e.canonical (dump_request r))
    dispatch a r req_sha a.mode
