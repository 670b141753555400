-- ===== src/Orchestrator/FailClosed.antt =====
-- What a stage that fails leaves behind, and what no run ever changes.
use dadi_runtime.Base.{
  bind-ok, ℕ, String, false, none, some, List, [], ◌≡◌, ◌∙◌, ap, arith, All, Fields, ok, raised,
  Exc, Result, select_one, select_one-insert, update, continue,
}
use dadi_runtime.Tables.{Artifact, Db}
use dadi_runtime.Store.{Meta, is_artifact}
use dadi_runtime.Store.Contents.{IsAddressed, put_artifact-IsAddressed}
use dadi_runtime.Store
use dadi_runtime.Registry.{validate_or_error_artifact}
use dadi_runtime.Adapter.{
  put_artifact, record_edge, cache_record, insert_stage_run, finalize_stage_run_success,
  finalize_stage_run_fail_closed, is_stage_run, closed,
}
use dadi_runtime.Adapter.Refines.{adapter_refines_store}
use dadi_runtime.Orchestrator.{
  Env, RunArgs, StageSpec, put_json, reject_output, handler_failed, call_handler, check_output,
  execute_stage, run, stage_input, stage_prompt, execution_error,
}
use dadi_runtime.Orchestrator.Steps.{IsStep, HandlerSteps, run_stages-step}
use dadi_runtime.Orchestrator.Memoized.{put_json-cache}

-- Every artifact row is still found, unchanged.
abbrev pub Kept : Db → Db → Type 0
Kept s t =
    (tenant sha : String) (row : Artifact)
    → select_one (is_artifact tenant sha) s.artifacts ≡ some row
    → select_one (is_artifact tenant sha) t.artifacts ≡ some row

module _ (e : Env) where
  put-Kept :
      (m : Meta) (c : List ℕ) (s : Db) → Kept s (put_artifact e.digest.sha256_hex e.tenant m c s).1
  unfolding put_artifact
  put-Kept m c s tenant sha row h = ground (
    arith,
    h,
    select_one-insert (is_artifact tenant sha) s.artifacts
        (Store.new_artifact e.tenant (e.digest.sha256_hex c) m c),
  )

  IsStep-Kept : IsStep e Kept
  unfolding record_edge insert_stage_run finalize_stage_run_success finalize_stage_run_fail_closed
      cache_record
  IsStep-Kept = record {
    stay = λ s tenant sha row h. h;
    chain = λ s t u h k tenant sha row q. k tenant sha row (h tenant sha row q);
    put = put-Kept;
    edge = λ a b k r s tenant sha row h. h;
    start = λ run i n v tool p inp s tenant sha row h. h;
    memo = λ n v i c s tenant sha row h. ground (arith, h);
    success = λ id o s tenant sha row h. h;
    close = λ id o s tenant sha row h. h;
  }

  IsStep-IsAddressed : IsStep e (λ s t.
      All (IsAddressed e.digest.sha256_hex) s.artifacts
      → All (IsAddressed e.digest.sha256_hex) t.artifacts)
  unfolding record_edge insert_stage_run finalize_stage_run_success finalize_stage_run_fail_closed
      cache_record
  IsStep-IsAddressed = record {
    stay = λ s h. h;
    chain = λ s t u h k q. k (h q);
    put = λ m c s h.
        rw (adapter_refines_store e.digest.sha256_hex e.tenant m c "" "" "" "" none s).0
          (put_artifact-IsAddressed e.digest.sha256_hex e.tenant m c s h);
    edge = λ a b k r s h. h;
    start = λ run i n v tool p inp s h. h;
    memo = λ n v i c s h. ground (arith, h);
    success = λ id o s h. h;
    close = λ id o s h. h;
  }

  -- A run, however it ends, never loses or changes a stored artifact, and keeps every artifact under
  -- the digest of its bytes, if the handlers do.
  pub run-artifacts :
      (a : RunArgs) (stages : List StageSpec) (s : Db)
      → All (HandlerSteps Kept) stages
      → All
          (HandlerSteps (λ x y.
            All (IsAddressed e.digest.sha256_hex) x.artifacts
            → All (IsAddressed e.digest.sha256_hex) y.artifacts))
          stages
      → All (IsAddressed e.digest.sha256_hex) s.artifacts
      → Kept s (run e a stages s).1
        × All (IsAddressed e.digest.sha256_hex) (run e a stages s).1.artifacts
  unfolding run
  run-artifacts a stages s kept addressed h = (
    run_stages-step IsStep-Kept a stages [] s kept,
    run_stages-step IsStep-IsAddressed a stages [] s addressed h,
  )

  -- `t` is `s` with the stage run `id` closed by an error artifact: no edge and no memo is added.
  pub record ClosedBy (id err : String) (s t : Db) : Type 0 where
    pub runs : t.stage_runs ≡ update (is_stage_run e.tenant id) (closed s err) s.stage_runs
    pub memo : t.cache ≡ s.cache
    pub edges : t.edges ≡ s.edges

  -- a call of the handler, by what the handler did
  abbrev called : StageSpec → String → Result Fields × Db → Result Fields × Db
  called stage id p = elim p.0 [
    | ok out ↦ (ok out, p.1)
    | raised ex ↦ handler_failed e stage id ex p.1
  ]

  call_handler-eq :
      (stage : StageSpec) (id : String) (input : Fields) (s : Db) {p : Result Fields × Db}
      → stage.handler input s ≡ p
      → call_handler e stage id input s ≡ called stage id p
  unfolding call_handler
  call_handler-eq stage id input s h = ap (λ q. called stage id q) h

  handler_failed-closes :
      (stage : StageSpec) (id : String) (x : Exc) (s : Db)
      → (t : Db) × (handler_failed e stage id x s ≡ (raised x, t))
        × ClosedBy id
            (e.digest.sha256_hex
              (e.digest.canonical_json_bytes (execution_error stage (e.str_exc x))))
            s
            t
  unfolding handler_failed finalize_stage_run_fail_closed put_json put_artifact
  handler_failed-closes stage id x s = (
    _,
    bind-ok
        (put_json e "errors/execution" (some "execution_error-v1")
          (execution_error stage (e.str_exc x)))
        _ s (put_json-cache e _ _ _ s).1,
    record { runs = ground arith; memo = ground arith; edges = ground arith },
  )

  reject_output-closes :
      (stage : StageSpec) (id : String) (err : Fields) (s : Db)
      → (x : Exc) × (t : Db) × (reject_output e stage id err s ≡ (raised x, t))
        × ClosedBy id (e.digest.sha256_hex (e.digest.canonical_json_bytes err)) s t
  unfolding reject_output finalize_stage_run_fail_closed put_json put_artifact
  reject_output-closes stage id err s = (
    _,
    _,
    bind-ok (put_json e "errors/validation" (some "validation_error-v1") err) _ s
        (put_json-cache e _ _ err s).1,
    record { runs = ground arith; memo = ground arith; edges = ground arith },
  )

  module _ (a : RunArgs) (stage : StageSpec) (prior : List String) (inp : String) (s : Db) where
    -- the database in which the handler is called
    abbrev started : Db
    started =
        (insert_stage_run e.uuid4 e.tenant a.pipeline_run_id stage.index stage.name
          stage.schema_version a.toolchain_manifest_sha256 (stage_prompt a stage) inp s).1

    -- the rest of the stage, behind the call of its handler
    abbrev through : Result Fields × Db → Result String × Db
    through p =
        continue p.0
          (λ out.
            check_output e a stage prior inp (e.uuid4 s.drawn) out
              (validate_or_error_artifact e.digest a.registry out))
          p.1

    -- A stage whose input is not memoized and whose handler raises passes the exception on. Its stage
    -- run is closed with the digest of the error record, and no edge and no memo is added to those
    -- that the handler left.
    pub execute_stage-handler_raises :
        {x : Exc} (s2 : Db)
        → stage.handler (stage_input a stage prior) started ≡ (raised x, s2)
        → (t : Db) × (execute_stage e a stage prior inp s ≡ (raised x, t))
          × ClosedBy
              (e.uuid4 s.drawn)
              (e.digest.sha256_hex
                (e.digest.canonical_json_bytes (execution_error stage (e.str_exc x))))
              s2
              t
    unfolding execute_stage call_handler insert_stage_run
    execute_stage-handler_raises {x} s2 h =
        let id : String = e.uuid4 s.drawn in
        let (t, failed, closing) = handler_failed-closes stage id x s2 in
        (
          t,
          ap through (call_handler-eq stage id (stage_input a stage prior) started h ∙ failed),
          closing,
        )

    -- The same where the handler returns an output that the validation refuses: the stage raises,
    -- and its stage run is closed with the digest of the validation error.
    pub execute_stage-output_refused :
        {out err : Fields} {g : String} (s2 : Db)
        → stage.handler (stage_input a stage prior) started ≡ (ok out, s2)
        → validate_or_error_artifact e.digest a.registry out ≡ ok (false, g, err)
        → (x : Exc) × (t : Db) × (execute_stage e a stage prior inp s ≡ (raised x, t))
          × ClosedBy
              (e.uuid4 s.drawn)
              (e.digest.sha256_hex (e.digest.canonical_json_bytes err))
              s2
              t
    unfolding execute_stage call_handler insert_stage_run check_output
    execute_stage-output_refused {out} {err} s2 h refused =
        let (x, t, failed, closing) = reject_output-closes stage (e.uuid4 s.drawn) err s2 in
        (
          x,
          t,
          ap through (call_handler-eq stage (e.uuid4 s.drawn) (stage_input a stage prior) started h)
              ∙ rw (refused, check_output) failed,
          closing,
        )
