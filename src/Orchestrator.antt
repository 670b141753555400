-- ===== src/Orchestrator.antt =====
-- services/orchestrator/dadi_orchestrator/orchestrator.py: `Orchestrator.run` takes the stages of a
-- pipeline in order. A stage's input is validated and stored; a memoized output is reused; else the
-- handler runs, its output is validated and stored, the edges, the memo and the stage run are
-- recorded. Each call of the store is a transaction of its own. A handler may read and write the
-- database (`StageContext` and the renderer's stage do) and may raise.
pub mod Steps
pub mod Memoized
pub mod Replay
pub mod FailClosed
use Prim.Native.String.{◌++◌ as concat}
use dadi_runtime.Base.{
  ℕ, String, Bool, true, false, Option, none, some, List, [], ◌∷◌, insert, if◌then◌else◌, truthy,
  or_default, Json, Fields, end, field, str, nat, arr, obj, null, opt_str, texts, get_field,
  as_text, Exc, runtime_error, Result, ok, raised, Exec, pure, raise, gets, ◌>>=◌, ◌>>◌,
}
use dadi_runtime.Tables.{Db}
use dadi_runtime.Store.{Meta}
use dadi_runtime.Registry.{Registry, Digest, validate_or_error_artifact}
use dadi_runtime.Adapter.{
  put_artifact, record_edge, cache_lookup, cache_record, insert_stage_run,
  finalize_stage_run_success, finalize_stage_run_fail_closed,
}

abbrev pub Handler : Type 0
Handler = Fields → Exec Db Fields

pub record StageSpec : Type 0 where
  pub index : ℕ
  pub name : String
  pub schema_version : String
  pub output_schema_version : String
  pub handler : Handler
  pub uses_prompt : Bool

-- What the run takes from Python and from the process: the digests, `uuid.uuid4`, `str(e)`, the
-- format `02d`, and the tenant of the environment.
pub record Env : Type 0 where
  pub digest : Digest
  pub uuid4 : ℕ → String
  pub str_exc : Exc → String
  pub format_02d : ℕ → String
  pub tenant : String

-- The arguments of `run` that stay the same from stage to stage.
pub record RunArgs : Type 0 where
  pub registry : Registry
  pub pipeline_run_id : String
  pub docpack_sha256 : String
  pub toolchain_manifest_sha256 : String
  pub prompt_bundle_sha256 : Option String
  pub params : Fields

abbrev pub stage_prompt : RunArgs → StageSpec → Option String
stage_prompt a stage = if stage.uses_prompt then a.prompt_bundle_sha256 else none

abbrev pub stage_ref : StageSpec → Json
stage_ref stage = obj (
    field "index" (nat stage.index)
      (field "name" (str stage.name) (field "schema_version" (str stage.schema_version) end)))

unfoldable pub stage_input : RunArgs → StageSpec → List String → Fields
stage_input a stage prior = field "schema_version" (str "stage_input-v1") (
    field "stage" (stage_ref stage) (
      field "docpack_sha256" (str a.docpack_sha256) (
        field "prior_outputs" (arr (texts prior)) (
          field "prompt_bundle_sha256" (opt_str (stage_prompt a stage)) (
            field "toolchain_manifest_sha256" (str a.toolchain_manifest_sha256)
              (field "params" (obj a.params) end))))))

abbrev pub execution_error : StageSpec → String → Fields
execution_error stage message =
    field "schema_version" (str "execution_error-v1")
      (field "stage" (stage_ref stage) (field "message" (str message) end))

abbrev pub json_meta : String → Option String → Meta
json_meta artifact_type schema_version = record {
  artifact_type = artifact_type;
  schema_version = schema_version;
  media_type = "application/json";
  canonical = true;
  canonical_format = some "json_c14n_v1";
}

module _ (e : Env) where
  -- `store.put_artifact(…, content=canonical_json_bytes(obj), …)`
  unfoldable pub put_json : String → Option String → Fields → Exec Db String
  put_json artifact_type schema_version content =
      put_artifact e.digest.sha256_hex e.tenant (json_meta artifact_type schema_version)
        (e.digest.canonical_json_bytes content)

  -- the digest of the stage's input, and the key of its memo
  abbrev pub input_sha : RunArgs → StageSpec → List String → String
  input_sha a stage prior =
      e.digest.sha256_hex (e.digest.canonical_json_bytes (stage_input a stage prior))

  unfoldable pub reject_input : Fields → Exec Db String
  reject_input err = do
    err_sha ← put_json "errors/validation" (some "validation_error-v1") err
    raise (
        runtime_error (concat "Stage input validation failed (fail-closed). error_sha256=" err_sha))

  unfoldable pub reject_output : StageSpec → String → Fields → Exec Db String
  reject_output stage stage_run_id err = do
    err_sha ← put_json "errors/validation" (some "validation_error-v1") err
    finalize_stage_run_fail_closed e.tenant stage_run_id err_sha
    raise (
        runtime_error (
          concat "Stage output validation failed (fail-closed). stage="
            (concat stage.name (concat " error_sha256=" err_sha))))

  unfoldable pub handler_failed : StageSpec → String → Exc → Exec Db Fields
  handler_failed stage stage_run_id ex = do
    err_sha ←
        put_json "errors/execution" (some "execution_error-v1")
          (execution_error stage (e.str_exc ex))
    finalize_stage_run_fail_closed e.tenant stage_run_id err_sha
    raise ex

  -- `try: out_obj = stage.handler(stage_input, ctx)`, with its `except` block
  unfoldable pub call_handler : StageSpec → String → Fields → Exec Db Fields
  call_handler stage stage_run_id input db =
      let (r, db') = stage.handler input db in
      elim r [ ok out ↦ (ok out, db') | raised ex ↦ handler_failed stage stage_run_id ex db' ]

  -- the edges from the earlier outputs to the stage's input
  unfoldable pub consume_all : List String → String → String → Exec Db Unit
  consume_all [] input_sha stage_run_id db = (ok tt, db)
  consume_all (po ∷ prior) input_sha stage_run_id db =
      consume_all prior input_sha stage_run_id
        (record_edge e.tenant po input_sha "consumes" (some stage_run_id) db).1

  -- the part of the loop's body below the check of the output
  unfoldable pub accept_output :
      RunArgs → StageSpec → List String → String → String → Fields → Exec Db String
  accept_output a stage prior input stage_run_id out = do
    out_sha ←
        put_json (concat "pipeline/stage/" (concat (e.format_02d stage.index) "/output-v1"))
          (as_text (get_field out "schema_version")) out
    record_edge e.tenant a.docpack_sha256 input "consumes" (some stage_run_id)
    consume_all prior input stage_run_id
    record_edge e.tenant input out_sha "produces" (some stage_run_id)
    cache_record e.tenant stage.name stage.schema_version input out_sha
    finalize_stage_run_success e.tenant stage_run_id out_sha
    pure out_sha

  unfoldable pub check_output :
      RunArgs
      → StageSpec
      → List String
      → String
      → String
      → Fields
      → Result (Bool × String × Fields)
      → Exec Db String
  check_output a stage prior input stage_run_id out (raised ex) = raise ex
  check_output a stage prior input stage_run_id out (ok (true, _, _)) =
      accept_output a stage prior input stage_run_id out
  check_output a stage prior input stage_run_id out (ok (false, _, err)) =
      reject_output stage stage_run_id err

  -- a stage whose input is not memoized
  unfoldable pub execute_stage : RunArgs → StageSpec → List String → String → Exec Db String
  execute_stage a stage prior input = do
    stage_run_id ←
        insert_stage_run e.uuid4 e.tenant a.pipeline_run_id stage.index stage.name
          stage.schema_version a.toolchain_manifest_sha256 (stage_prompt a stage) input
    out ← call_handler stage stage_run_id (stage_input a stage prior)
    check_output a stage prior input stage_run_id out
        (validate_or_error_artifact e.digest a.registry out)

  unfoldable pub reuse : String → String → Exec Db String
  reuse input hit = do record_edge e.tenant input hit "produces" none; pure hit

  unfoldable pub reuse_or_execute : RunArgs → StageSpec → List String → String → Exec Db String
  reuse_or_execute a stage prior input db =
      let hit = cache_lookup e.tenant stage.name stage.schema_version input db in
      if truthy hit
      then reuse input (or_default hit "") db
      else execute_stage a stage prior input db

  unfoldable pub check_input :
      RunArgs → StageSpec → List String → Result (Bool × String × Fields) → Exec Db String
  check_input a stage prior (raised ex) = raise ex
  check_input a stage prior (ok (false, _, err)) = reject_input err
  check_input a stage prior (ok (true, _, _)) = do
    input ←
        put_json (concat "pipeline/stage/" (concat (e.format_02d stage.index) "/input-v1"))
          (some "stage_input-v1") (stage_input a stage prior)
    reuse_or_execute a stage prior input

  -- one round of the loop, with the output that it appends
  unfoldable pub run_stage : RunArgs → StageSpec → List String → Exec Db String
  run_stage a stage prior =
      check_input a stage prior
        (validate_or_error_artifact e.digest a.registry (stage_input a stage prior))

  -- the loop; `outputs` and `prior_outputs` hold the same list
  unfoldable pub run_stages : RunArgs → List StageSpec → List String → Exec Db (List String)
  run_stages a [] outputs = pure outputs
  run_stages a (stage ∷ stages) outputs = do
    out ← run_stage a stage outputs
    run_stages a stages (insert outputs out)

  unfoldable pub run : RunArgs → List StageSpec → Exec Db (List String)
  unfolding run_stages
  run a stages = run_stages a stages []
