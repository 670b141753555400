-- ===== src/Orchestrator/Replay.antt =====
-- A pipeline that succeeded can be replayed from the memo.
use dadi_runtime.Base.{
  bind-eq-ok, bind-ok, ℕ, ◌+◌, String, some, List, [], ◌∷◌, insert, ◌≡◌, refl, sym, ap, ◌∙◌, arith,
  All, Fields, ok, nonempty, length, length-append, true, Result,
}
use dadi_runtime.Tables.{Db}
use dadi_runtime.Store.{Meta}
use dadi_runtime.Adapter.{
  put_artifact, record_edge, cache_lookup, insert_stage_run, finalize_stage_run_success,
  finalize_stage_run_fail_closed,
}
use dadi_runtime.Adapter.Refines.{cache_lookup-cache_record}
use dadi_runtime.Orchestrator.{Env, RunArgs, StageSpec, input_sha, run_stage, run_stages, run}
use dadi_runtime.Orchestrator.Steps.{IsStep, HandlerSteps, run_stage-step, run_stages-step}
use dadi_runtime.Orchestrator.Memoized.{Solid, cache_lookup_cong, run_stage-Left, run_stage-hit}

-- Every memo of `s` is found in `t`.
abbrev pub Grows : Db → Db → Type 0
Grows s t =
    (tenant n v i out : String)
    → cache_lookup tenant n v i s ≡ some out
    → cache_lookup tenant n v i t ≡ some out

-- The handler of the stage leaves the memo alone.
abbrev pub Quiet : StageSpec → Type 0
Quiet stage = (input : Fields) (s : Db) → (stage.handler input s).1.cache ≡ s.cache

abbrev pub HasDigests : Env → Type 0
HasDigests e = (bytes : List ℕ) → nonempty (e.digest.sha256_hex bytes) ≡ true

put_artifact-cache :
    (e : Env) (m : Meta) (c : List ℕ) (s : Db)
    → (put_artifact e.digest.sha256_hex e.tenant m c s).1.cache ≡ s.cache
unfolding put_artifact
put_artifact-cache e m c s = ground arith

module _ (e : Env) where
  same-Grows : (s t : Db) → t.cache ≡ s.cache → Grows s t
  same-Grows s t h tenant n v i out found = cache_lookup_cong e tenant n v i t s h ∙ found

  IsStep-Grows : IsStep e Grows
  unfolding record_edge insert_stage_run finalize_stage_run_success finalize_stage_run_fail_closed
  IsStep-Grows = record {
    stay = λ s tenant n v i out h. h;
    chain = λ s t u h k tenant n v i out q. k tenant n v i out (h tenant n v i out q);
    put = λ m c s. same-Grows s _ (put_artifact-cache e m c s);
    edge = λ a b k r s. same-Grows s _ refl;
    start = λ run i n v tool p inp s. same-Grows s _ refl;
    memo = λ n v i c s tenant n' v' i' out h. ground (
      arith,
      h,
      cache_lookup-cache_record e.tenant n v i (e.digest.sha256_hex c) tenant n' v' i' s,
    );
    success = λ id o s. same-Grows s _ refl;
    close = λ id o s. same-Grows s _ refl;
  }

  abbrev SolidStep : Db → Db → Type 0
  SolidStep s t = Solid s → Solid t

  same-Solid : (s t : Db) → t.cache ≡ s.cache → SolidStep s t
  same-Solid s t h solid tenant n v i out found =
      solid tenant n v i out (cache_lookup_cong e tenant n v i s t (sym h) ∙ found)

  IsStep-Solid : HasDigests e → IsStep e SolidStep
  unfolding record_edge insert_stage_run finalize_stage_run_success finalize_stage_run_fail_closed
  IsStep-Solid digest = record {
    stay = λ s h. h;
    chain = λ s t u h k q. k (h q);
    put = λ m c s. same-Solid s _ (put_artifact-cache e m c s);
    edge = λ a b k r s. same-Solid s _ refl;
    start = λ run i n v tool p inp s. same-Solid s _ refl;
    memo = λ n v i c s solid tenant n' v' i' out h. ground (
      arith,
      h,
      digest c,
      solid tenant n' v' i' out,
      cache_lookup-cache_record e.tenant n v i (e.digest.sha256_hex c) tenant n' v' i' s,
    );
    success = λ id o s. same-Solid s _ refl;
    close = λ id o s. same-Solid s _ refl;
  }

  Quiet-Solid : (stage : StageSpec) → Quiet stage → HandlerSteps SolidStep stage
  Quiet-Solid stage quiet input s = same-Solid s _ (quiet input s)

  All-Quiet-Grows : (stages : List StageSpec) → All Quiet stages → All (HandlerSteps Grows) stages
  All-Quiet-Grows [] h = tt
  All-Quiet-Grows (stage ∷ stages) h =
      (λ input s. same-Grows s _ (h.0 input s), All-Quiet-Grows stages h.1)

  module _ (digest : HasDigests e) (a : RunArgs) where
    run_stages-replay :
        (stages : List StageSpec) (outputs : List String) (s : Db) {outs : List String} {t : Db}
        → All Quiet stages
        → Solid s
        → run_stages e a stages outputs s ≡ (ok outs, t)
        → (u : Db) → Grows t u
        → (w : Db) × (run_stages e a stages outputs u ≡ (ok outs, w))
          × (w.cache ≡ u.cache)
          × (w.stage_runs ≡ u.stage_runs)
    unfolding run_stages
    run_stages-replay [] outputs s quiet solid h u grows = (u, ground (arith, h), refl, refl)
    run_stages-replay (stage ∷ stages) outputs s {outs} {t} quiet solid h u grows =
        let (out, result, rest) = bind-eq-ok (run_stage e a stage outputs) _ s h in
        let s1 : Db = (run_stage e a stage outputs s).1 in
        let ran : run_stage e a stage outputs s ≡ (ok out, s1) = λ i. (result i, s1) in
        let (left, (g, x, valid)) = run_stage-Left e digest a stage outputs quiet.0 s solid ran in
        let solid1 : Solid s1 =
          run_stage-step (IsStep-Solid digest) a stage outputs s (Quiet-Solid stage quiet.0)
            solid in
        let grown : Grows s1 t = rw (ap (λ (p : Result (List String) × Db). p.1) rest) at (
          run_stages-step IsStep-Grows a stages (insert outputs out) s1
            (All-Quiet-Grows stages quiet.1)) in
        let found : cache_lookup e.tenant stage.name stage.schema_version
              (input_sha e a stage outputs) u
            ≡ some out =
          grows _ _ _ _ _ (grown _ _ _ _ _ left.0) in
        let (u1, hit, same, runs) = run_stage-hit e a stage outputs u valid found left.1 in
        let (w, again, same_w, runs_w) =
          run_stages-replay stages (insert outputs out) s1 quiet.1 solid1 rest u1
            (λ tenant n v i o q. same-Grows u u1 same tenant n v i o (grows tenant n v i o q)) in
        (
          w,
          bind-ok (run_stage e a stage outputs) _ u (ap (λ (p : Result String × Db). p.0) hit)
              ∙ rw (ap (λ (p : Result String × Db). p.1) hit) again,
          same_w ∙ same,
          runs_w ∙ runs,
        )

  -- A run that succeeded can be replayed from any later database that still finds its memos: the
  -- replay succeeds with the same outputs, starts no stage run and leaves the memo as it was. It
  -- needs digests that are not empty, handlers that leave the memo alone, and no empty memo before.
  pub run-replay :
      (a : RunArgs) (stages : List StageSpec) (s : Db) {outs : List String} {t : Db} (u : Db)
      → HasDigests e
      → All Quiet stages
      → Solid s
      → run e a stages s ≡ (ok outs, t)
      → Grows t u
      → (w : Db) × (run e a stages u ≡ (ok outs, w))
        × (w.cache ≡ u.cache)
        × (w.stage_runs ≡ u.stage_runs)
  unfolding run
  run-replay a stages s u digest quiet solid h grows =
      run_stages-replay digest a stages [] s quiet solid h u grows

  length-run_stages :
      (a : RunArgs) (stages : List StageSpec) (outputs : List String) (s : Db) {outs : List String}
      {t : Db}
      → run_stages e a stages outputs s ≡ (ok outs, t)
      → length outs ≡ length outputs + length stages
  unfolding run_stages
  length-run_stages a [] outputs s {outs} h =
      let same : outputs ≡ outs = ground (arith, h) in omega (arith, ap (λ l. length l) same)
  length-run_stages a (stage ∷ stages) outputs s h =
      let (out, result, rest) = bind-eq-ok (run_stage e a stage outputs) _ s h in
      omega (
        arith,
        length-run_stages a stages (insert outputs out) _ rest,
        length-append outputs (out ∷ []),
      )
