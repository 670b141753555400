-- ===== src/Tests/Pipeline.antt =====
-- Witnesses for the orchestrator.
use dadi_runtime.Base.{
  String, true, false, some, [], ◌∷◌, ◌≡◌, refl, arith, All, Fields, end, field, str, get_field,
  nil, Exc, other, Result, ok, raised, nonempty, select_one,
}
use dadi_runtime.Tables.{Db, empty_db}
use dadi_runtime.Store.Contents.{IsAddressed}
use dadi_runtime.Registry.{
  Registry, error_record, find_validator, verdict, validate, validate_version,
  validate_or_error_artifact,
}
use dadi_runtime.Adapter.{
  put_artifact, record_edge, cache_lookup, cache_record, insert_stage_run,
  finalize_stage_run_success,
}
use dadi_runtime.Orchestrator.{
  Env, RunArgs, StageSpec, put_json, call_handler, consume_all, accept_output, check_output,
  execute_stage, reuse_or_execute, check_input, run_stage, run, stage_input,
}
use dadi_runtime.Orchestrator.Replay.{run-replay}
use dadi_runtime.Orchestrator.FailClosed.{
  Kept, ClosedBy, run-artifacts, execute_stage-handler_raises, execute_stage-output_refused,
}
use dadi_runtime.Tests.{letter_digest, letter_digest-nonempty, digest}

abbrev env : Env
env = record {
  digest = digest;
  uuid4 = λ n. "id";
  str_exc = λ x. "failed";
  format_02d = λ n. "01";
  tenant = "acme";
}

abbrev schemas : Registry
schemas = ("stage_input-v1", λ f. []) ∷ ("report-v1", λ f. []) ∷ []

abbrev args : RunArgs
args = record {
  registry = schemas;
  pipeline_run_id = "r1";
  docpack_sha256 = "docs";
  toolchain_manifest_sha256 = "tool";
  prompt_bundle_sha256 = some "prompt";
  params = end;
}

abbrev report : Fields
report = field "schema_version" (str "report-v1") end

abbrev stage_of : (Fields → Db → Result Fields × Db) → StageSpec
stage_of handler = record {
  index = 1;
  name = "report";
  schema_version = "v1";
  output_schema_version = "report-v1";
  handler = handler;
  uses_prompt = true;
}

abbrev good : StageSpec
good = stage_of (λ input s. (ok report, s))

abbrev after : Db
after = (run env args (good ∷ []) empty_db).1

run-good : run env args (good ∷ []) empty_db ≡ (ok ("db" ∷ []), after)
unfolding run run_stage check_input validate_or_error_artifact validate validate_version verdict
    find_validator get_field put_json put_artifact reuse_or_execute execute_stage insert_stage_run
    call_handler check_output accept_output record_edge consume_all cache_lookup cache_record
    finalize_stage_run_success stage_input select_one
run-good = refl

no_memo : (t n v i out : String) → cache_lookup t n v i empty_db ≡ some out → nonempty out ≡ true
unfolding cache_lookup select_one
no_memo t n v i out h = absurd (ground (arith, h))

run-replay_example :
    (w : Db) × (run env args (good ∷ []) after ≡ (ok ("db" ∷ []), w))
    × (w.cache ≡ after.cache)
    × (w.stage_runs ≡ after.stage_runs)
run-replay_example =
    run-replay env args (good ∷ []) empty_db after letter_digest-nonempty ((λ input s. refl), tt)
      no_memo run-good (λ tenant n v i out h. h)

run-artifacts_example :
    Kept empty_db (run env args (good ∷ []) empty_db).1
    × All (IsAddressed letter_digest) (run env args (good ∷ []) empty_db).1.artifacts
run-artifacts_example =
    run-artifacts env args (good ∷ []) empty_db ((λ input s tenant sha row h. h), tt)
      ((λ input s h. h), tt) tt

abbrev bad : StageSpec
bad = stage_of (λ input s. (raised (other "boom"), s))

abbrev started_db : Db
started_db =
    (insert_stage_run (λ n. "id") "acme" "r1" 1 "report" "v1" "tool" (some "prompt") "in"
      empty_db).1

execute_stage-handler_raises_example :
    (t : Db) × (execute_stage env args bad [] "in" empty_db ≡ (raised (other "boom"), t))
    × ClosedBy env "id" "db" started_db t
unfolding get_field
execute_stage-handler_raises_example =
    execute_stage-handler_raises env args bad [] "in" empty_db started_db refl

abbrev odd : StageSpec
odd = stage_of (λ input s. (ok end, s))

abbrev refusal : Fields
refusal =
    error_record "(missing)" "missing_schema_version"
      "Missing required string field: schema_version" nil

refused : validate_or_error_artifact digest schemas end ≡ ok (false, "db", refusal)
unfolding validate_or_error_artifact validate validate_version get_field
refused = refl

execute_stage-output_refused_example :
    (x : Exc) × (t : Db) × (execute_stage env args odd [] "in" empty_db ≡ (raised x, t))
    × ClosedBy env "id" "db" started_db t
unfolding get_field
execute_stage-output_refused_example =
    execute_stage-output_refused env args odd [] "in" empty_db started_db refl refused
