-- ===== src/Orchestrator/Memoized.antt =====
-- What a stage leaves in the memoization table.
use Prim.Native.String.{◌++◌ as concat}
use dadi_runtime.Base.{
  ℕ, String, Bool, true, false, Option, none, some, List, [], ◌∷◌, ◌≡◌, refl, sym, ◌∙◌, ap, arith,
  Fields, Result, ok, raised, Exc, Exec, bind-ok, bind-eq-ok, nonempty, or_else, Option-cases, inl,
  inr, get_field, as_text, eq_refl,
}
use dadi_runtime.Tables.{Db}
use dadi_runtime.Registry.{validate_or_error_artifact}
use dadi_runtime.Adapter.{
  put_artifact, record_edge, cache_lookup, cache_record, insert_stage_run,
  finalize_stage_run_success, finalize_stage_run_fail_closed,
}
use dadi_runtime.Adapter.Refines.{cache_lookup-cache_record}
use dadi_runtime.Orchestrator.{
  Env, RunArgs, StageSpec, put_json, reject_input, reject_output, handler_failed, call_handler,
  consume_all, accept_output, check_output, execute_stage, reuse, reuse_or_execute, check_input,
  run_stage, stage_input, stage_prompt, input_sha, execution_error,
}

-- The memo holds no empty digest.
abbrev pub Solid : Db → Type 0
Solid s = (t n v i out : String) → cache_lookup t n v i s ≡ some out → nonempty out ≡ true

finalize_and_return : String → String → String → Exec Db String
finalize_and_return tenant id o s = (ok o, (finalize_stage_run_success tenant id o s).1)

module _ (e : Env) where
  pub put_json-cache :
      (k : String) (v : Option String) (c : Fields) (s : Db)
      → ((put_json e k v c s).1.cache ≡ s.cache)
        × ((put_json e k v c s).0 ≡ ok (e.digest.sha256_hex (e.digest.canonical_json_bytes c)))
  unfolding put_json put_artifact
  put_json-cache k v c s = ground arith

  put_json-stage_runs :
      (k : String) (v : Option String) (c : Fields) (s : Db)
      → (put_json e k v c s).1.stage_runs ≡ s.stage_runs
  unfolding put_json put_artifact
  put_json-stage_runs k v c s = ground arith

  consume_all-cache :
      (prior : List String) (inp id : String) (s : Db)
      → ((consume_all e prior inp id s).1.cache ≡ s.cache)
        × ((consume_all e prior inp id s).0 ≡ ok tt)
  unfolding consume_all record_edge
  consume_all-cache [] inp id s = (refl, refl)
  consume_all-cache (po ∷ prior) inp id s = consume_all-cache prior inp id _

  pub cache_lookup_cong :
      (t n v i : String) (a b : Db)
      → a.cache ≡ b.cache
      → cache_lookup t n v i a ≡ cache_lookup t n v i b
  unfolding cache_lookup
  cache_lookup_cong t n v i a b h = rw h

  cache_record-ok : (t n v i o : String) (s : Db) → (cache_record t n v i o s).0 ≡ ok tt
  unfolding cache_record
  cache_record-ok t n v i o s = ground arith

  cache_lookup-cache_record_self :
      (t n v i o : String) (s : Db)
      → cache_lookup t n v i (cache_record t n v i o s).1
        ≡ or_else (cache_lookup t n v i s) (some o)
  cache_lookup-cache_record_self t n v i o s = simp (cache_lookup-cache_record, eq_refl)

  -- an accepted output is returned, and memoized unless something was
  accept_output-cache :
      (a : RunArgs) (stage : StageSpec) (prior : List String) (inp id : String) (out : Fields)
      (s : Db)
      → ((accept_output e a stage prior inp id out s).0
          ≡ ok (e.digest.sha256_hex (e.digest.canonical_json_bytes out)))
        × (cache_lookup e.tenant stage.name stage.schema_version inp
              (accept_output e a stage prior inp id out s).1
            ≡ or_else
                (cache_lookup e.tenant stage.name stage.schema_version inp s)
                (some (e.digest.sha256_hex (e.digest.canonical_json_bytes out))))
  unfolding accept_output record_edge finalize_stage_run_success finalize_and_return
  accept_output-cache a stage prior inp id out s =
      let o : String = e.digest.sha256_hex (e.digest.canonical_json_bytes out) in
      let k : String = concat "pipeline/stage/" (concat (e.format_02d stage.index) "/output-v1") in
      let put : Exec Db String = put_json e k (as_text (get_field out "schema_version")) out in
      let s1 : Db = (put s).1 in
      let s2 : Db = (record_edge e.tenant a.docpack_sha256 inp "consumes" (some id) s1).1 in
      let s3 : Db = (consume_all e prior inp id s2).1 in
      let s4 : Db = (record_edge e.tenant inp o "produces" (some id) s3).1 in
      let s5 : Db = (cache_record e.tenant stage.name stage.schema_version inp o s4).1 in
      let same : s4.cache ≡ s.cache =
        (consume_all-cache prior inp id s2).0 ∙ (put_json-cache k _ out s).0 in
      let made : accept_output e a stage prior inp id out s ≡ finalize_and_return e.tenant id o s5 =
        bind-ok put _ s (put_json-cache k _ out s).1
        ∙ bind-ok (consume_all e prior inp id) _ s2 (consume_all-cache prior inp id s2).1
        ∙ bind-ok (cache_record e.tenant stage.name stage.schema_version inp o) _ s4
            (cache_record-ok e.tenant stage.name stage.schema_version inp o s4) in
      rw made (
        refl,
        cache_lookup_cong e.tenant stage.name stage.schema_version inp
              (finalize_stage_run_success e.tenant id o s5).1 s5 refl
            ∙ cache_lookup-cache_record_self e.tenant stage.name stage.schema_version inp o s4
            ∙ ap (λ c. or_else c (some o))
                (cache_lookup_cong e.tenant stage.name stage.schema_version inp s4 s same),
      )

  handler_failed-raises :
      (stage : StageSpec) (id : String) (x : Exc) (s : Db)
      → (handler_failed e stage id x s).0 ≡ raised x
  unfolding handler_failed finalize_stage_run_fail_closed
  handler_failed-raises stage id x s = rw (
      bind-ok (put_json e _ _ (execution_error stage (e.str_exc x))) _ s (put_json-cache _ _ _ s).1)

  reject_output-raises :
      (stage : StageSpec) (id : String) (err : Fields) (s : Db)
      → (x : Exc) × ((reject_output e stage id err s).0 ≡ raised x)
  unfolding reject_output finalize_stage_run_fail_closed
  reject_output-raises stage id err s = (
    _,
    ap (λ (p : Result String × Db). p.0)
        (bind-ok (put_json e _ _ err) _ s (put_json-cache _ _ _ s).1),
  )

  reject_input-raises : (err : Fields) (s : Db) → (x : Exc) × ((reject_input e err s).0 ≡ raised x)
  unfolding reject_input
  reject_input-raises err s = (
    _,
    ap (λ (p : Result String × Db). p.0)
        (bind-ok (put_json e _ _ err) _ s (put_json-cache _ _ _ s).1),
  )

  -- what the handler returned, where the call of it went through
  pub call_handler-ok :
      (stage : StageSpec) (id : String) (input : Fields) (s : Db) {out : Fields}
      → (call_handler e stage id input s).0 ≡ ok out
      → call_handler e stage id input s ≡ (ok out, (stage.handler input s).1)
  unfolding call_handler
  call_handler-ok stage id input s {out} h = go (stage.handler input s).0 refl
    where
      go :
          (r : Result Fields)
          → (stage.handler input s).0 ≡ r
          → call_handler e stage id input s ≡ (ok out, (stage.handler input s).1)
      go (ok o) q = ground arith
      go (raised x) q =
          absurd (ground (arith, handler_failed-raises stage id x (stage.handler input s).1))

  -- a memoized output is returned, and only an edge is written
  pub reuse_or_execute-hit :
      (a : RunArgs) (stage : StageSpec) (prior : List String) (inp : String) (s : Db) {hit : String}
      → cache_lookup e.tenant stage.name stage.schema_version inp s ≡ some hit
      → nonempty hit ≡ true
      → reuse_or_execute e a stage prior inp s
        ≡ (ok hit, (record_edge e.tenant inp hit "produces" none s).1)
  unfolding reuse_or_execute reuse record_edge
  reuse_or_execute-hit a stage prior inp s found full = ground (arith, found, full)

  -- A stage that succeeds leaves its output, which is not empty, under the key of its input, and
  -- its input passed the validation. It needs digests that are not empty, a handler that leaves the
  -- memo alone, and no empty memo before.
  module _ (digest : (bytes : List ℕ) → nonempty (e.digest.sha256_hex bytes) ≡ true) (a : RunArgs)
      (stage : StageSpec) (prior : List String)
      (quiet : (input : Fields) (s : Db) → (stage.handler input s).1.cache ≡ s.cache) where
    abbrev memo_of : String → Db → Option String
    memo_of inp s = cache_lookup e.tenant stage.name stage.schema_version inp s

    abbrev Left : String → String → Db → Type 0
    Left inp out s = (memo_of inp s ≡ some out) × (nonempty out ≡ true)

    check_output-Left :
        (inp id : String) (obj : Fields) (v : Result (Bool × String × Fields)) (s : Db)
        {out : String} {t : Db}
        → memo_of inp s ≡ none
        → check_output e a stage prior inp id obj v s ≡ (ok out, t)
        → Left inp out t
    unfolding check_output
    check_output-Left inp id obj (raised x) s fresh h = absurd (ground arith)
    check_output-Left inp id obj (ok (false, _, err)) s fresh h =
        absurd (ground (arith, (reject_output-raises stage id err s).1))
    check_output-Left inp id obj (ok (true, _, _)) s {out} {t} fresh h =
        let (result, memo) = accept_output-cache a stage prior inp id obj s in
        ground (arith, result, memo, fresh, h, digest (e.digest.canonical_json_bytes obj))

    execute_stage-Left :
        (inp : String) (s : Db) {out : String} {t : Db}
        → memo_of inp s ≡ none
        → execute_stage e a stage prior inp s ≡ (ok out, t)
        → Left inp out t
    unfolding execute_stage insert_stage_run
    execute_stage-Left inp s {out} {t} fresh h =
        let start : Db =
          (insert_stage_run e.uuid4 e.tenant a.pipeline_run_id stage.index stage.name
            stage.schema_version a.toolchain_manifest_sha256 (stage_prompt a stage) inp s).1 in
        let id : String = e.uuid4 s.drawn in
        let (obj, result, rest) =
          bind-eq-ok (call_handler e stage id (stage_input a stage prior)) _ start h in
        let called = call_handler-ok stage id (stage_input a stage prior) start result in
        let after : Db = (stage.handler (stage_input a stage prior) start).1 in
        check_output-Left inp id obj (validate_or_error_artifact e.digest a.registry obj) after
          (cache_lookup_cong e.tenant stage.name stage.schema_version inp after s
              (quiet (stage_input a stage prior) start)
            ∙ fresh)
          (rw (ap (λ (p : Result Fields × Db). p.1) called) at rest)

    reuse_or_execute-Left :
        (inp : String) (s : Db) {out : String} {t : Db}
        → Solid s
        → reuse_or_execute e a stage prior inp s ≡ (ok out, t)
        → Left inp out t
    unfolding reuse_or_execute reuse record_edge
    reuse_or_execute-Left inp s {out} {t} solid h = elim (Option-cases (memo_of inp s)) [
      | inl none_yet ↦ execute_stage-Left inp s none_yet (ground (arith, none_yet))
      | inr (hit, found) ↦
          let full = solid e.tenant stage.name stage.schema_version inp hit found in
          let made = reuse_or_execute-hit a stage prior inp s found full in
          let same : hit ≡ out = ground (arith, made, h) in
          let left : (record_edge e.tenant inp hit "produces" none s).1 ≡ t =
            ground (arith, made, h) in
          rw (← same) (
            rw (← left) (
              cache_lookup_cong e.tenant stage.name stage.schema_version inp
                    (record_edge e.tenant inp hit "produces" none s).1 s refl
                  ∙ found,
              full,
            ))
    ]

    abbrev Admits : Result (Bool × String × Fields) → Type 0
    Admits v = (h : String) × (x : Fields) × (v ≡ ok (true, h, x))

    check_input-Left :
        (v : Result (Bool × String × Fields)) (s : Db) {out : String} {t : Db}
        → Solid s
        → check_input e a stage prior v s ≡ (ok out, t)
        → Left (input_sha e a stage prior) out t × Admits v
    unfolding check_input
    check_input-Left (raised x) s solid h = absurd (ground arith)
    check_input-Left (ok (false, _, err)) s solid h =
        absurd (ground (arith, (reject_input-raises err s).1))
    check_input-Left (ok (true, g, x)) s {out} {t} solid h =
        let k : String = concat "pipeline/stage/" (concat (e.format_02d stage.index) "/input-v1") in
        let obj : Fields = stage_input a stage prior in
        let put : Exec Db String = put_json e k (some "stage_input-v1") obj in
        let (same, result) = put_json-cache k (some "stage_input-v1") obj s in
        let rest = sym (bind-ok put (reuse_or_execute e a stage prior) s result) ∙ h in
        (
          reuse_or_execute-Left (input_sha e a stage prior) (put s).1
              (λ t' n v i o q.
                solid t' n v i o (cache_lookup_cong t' n v i s (put s).1 (sym same) ∙ q))
              rest,
          (g, x, refl),
        )

    pub run_stage-Left :
        (s : Db) {out : String} {t : Db}
        → Solid s
        → run_stage e a stage prior s ≡ (ok out, t)
        → Left (input_sha e a stage prior) out t
          × Admits (validate_or_error_artifact e.digest a.registry (stage_input a stage prior))
    unfolding run_stage
    run_stage-Left s solid h = check_input-Left _ s solid h

  -- With the input admitted and its memo there, a stage returns the memo. It starts no stage run,
  -- and the memo stays as it was.
  pub run_stage-hit :
      (a : RunArgs) (stage : StageSpec) (prior : List String) (s : Db) {out h : String} {x : Fields}
      → validate_or_error_artifact e.digest a.registry (stage_input a stage prior) ≡ ok (true, h, x)
      → cache_lookup e.tenant stage.name stage.schema_version (input_sha e a stage prior) s
        ≡ some out
      → nonempty out ≡ true
      → (t : Db) × (run_stage e a stage prior s ≡ (ok out, t))
        × (t.cache ≡ s.cache)
        × (t.stage_runs ≡ s.stage_runs)
  unfolding run_stage check_input record_edge
  run_stage-hit a stage prior s {out} valid found full =
      let k : String = concat "pipeline/stage/" (concat (e.format_02d stage.index) "/input-v1") in
      let obj : Fields = stage_input a stage prior in
      let inp : String = input_sha e a stage prior in
      let put : Exec Db String = put_json e k (some "stage_input-v1") obj in
      let (same, result) = put_json-cache k (some "stage_input-v1") obj s in
      (
        (record_edge e.tenant inp out "produces" none (put s).1).1,
        rw (valid, check_input)
            (bind-ok put (reuse_or_execute e a stage prior) s result
              ∙ reuse_or_execute-hit a stage prior inp (put s).1
                  (cache_lookup_cong e.tenant stage.name stage.schema_version inp (put s).1 s same
                    ∙ found)
                  full),
        same,
        put_json-stage_runs k (some "stage_input-v1") obj s,
      )
