-- ===== src/Orchestrator/Steps.antt =====
-- Whatever relation between databases every operation of the store and every handler respects, a
-- whole run respects, on every branch and however it ends.
use dadi_runtime.Base.{
  ℕ, String, Bool, true, false, Option, List, [], ◌∷◌, insert, All, Fields, Result, ok, raised,
  Exec, Exc, continue, ◌>>=◌, ◌≡◌, refl, arith, truthy, Bool-cases, inl, inr,
}
use mathlib.Core.Path.{subst}
use dadi_runtime.Tables.{Db}
use dadi_runtime.Store.{Meta}
use dadi_runtime.Adapter.{
  put_artifact, record_edge, cache_lookup, cache_record, insert_stage_run,
  finalize_stage_run_success, finalize_stage_run_fail_closed,
}
use dadi_runtime.Orchestrator.{
  Env, RunArgs, StageSpec, put_json, reject_input, reject_output, handler_failed, call_handler,
  consume_all, accept_output, check_output, execute_stage, reuse, reuse_or_execute, check_input,
  run_stage, run_stages,
}

pub record IsStep (e : Env) (R : Db → Db → Type 0) : Type 0 where
  pub stay : (s : Db) → R s s
  pub chain : (s t u : Db) → R s t → R t u → R s u
  pub put :
      (m : Meta) (c : List ℕ) (s : Db) → R s (put_artifact e.digest.sha256_hex e.tenant m c s).1
  pub edge : (a b k : String) (r : Option String) (s : Db) → R s (record_edge e.tenant a b k r s).1
  pub start :
      (run : String) (i : ℕ) (n v tool : String) (p : Option String) (inp : String) (s : Db)
      → R s (insert_stage_run e.uuid4 e.tenant run i n v tool p inp s).1
  pub memo :
      (n v i : String) (c : List ℕ) (s : Db)
      → R s (cache_record e.tenant n v i (e.digest.sha256_hex c) s).1
  pub success : (id o : String) (s : Db) → R s (finalize_stage_run_success e.tenant id o s).1
  pub close : (id o : String) (s : Db) → R s (finalize_stage_run_fail_closed e.tenant id o s).1

abbrev pub HandlerSteps : (Db → Db → Type 0) → StageSpec → Type 0
HandlerSteps R stage = (input : Fields) (s : Db) → R s (stage.handler input s).1

put_json-ok :
    (e : Env) (k : String) (v : Option String) (c : Fields) (s : Db) {o : String}
    → (put_json e k v c s).0 ≡ ok o
    → e.digest.sha256_hex (e.digest.canonical_json_bytes c) ≡ o
unfolding put_json put_artifact
put_json-ok e k v c s h = ground arith

module _ {e : Env} {R : Db → Db → Type 0} (st : IsStep e R) where
  step-continue :
      {A B : Type 0} (r : Result A) (f : A → Exec Db B) (s t : Db)
      → R s t
      → ((a : A) → r ≡ ok a → R t (f a t).1)
      → R s (continue r f t).1
  step-continue (ok a) f s t h k = st.chain s t _ h (k a refl)
  step-continue (raised x) f s t h k = h

  step-bind :
      {A B : Type 0} (m : Exec Db A) (f : A → Exec Db B) (s : Db)
      → R s (m s).1
      → ((a : A) (t : Db) → R t (f a t).1)
      → R s ((m >>= f) s).1
  step-bind m f s h k = step-continue (m s).0 f s (m s).1 h (λ a _. k a (m s).1)

  put_json-step :
      (k : String) (v : Option String) (c : Fields) (s : Db) → R s (put_json e k v c s).1
  unfolding put_json
  put_json-step k v c s = st.put _ _ s

  reject_input-step : (err : Fields) (s : Db) → R s (reject_input e err s).1
  unfolding reject_input
  reject_input-step err s =
      step-bind (put_json e _ _ err) _ s (put_json-step _ _ err s) (λ a t. st.stay t)

  reject_output-step :
      (stage : StageSpec) (id : String) (err : Fields) (s : Db)
      → R s (reject_output e stage id err s).1
  unfolding reject_output
  reject_output-step stage id err s =
      step-bind (put_json e _ _ err) _ s (put_json-step _ _ err s) λ a t.
        step-bind (finalize_stage_run_fail_closed e.tenant id a) _ t (st.close id a t)
          (λ _ u. st.stay u)

  handler_failed-step :
      (stage : StageSpec) (id : String) (x : Exc) (s : Db) → R s (handler_failed e stage id x s).1
  unfolding handler_failed
  handler_failed-step stage id x s = step-bind (put_json e _ _ _) _ s (put_json-step _ _ _ s) λ a t.
      step-bind (finalize_stage_run_fail_closed e.tenant id a) _ t (st.close id a t)
        (λ _ u. st.stay u)

  after_handler-step :
      (stage : StageSpec) (id : String) (r : Result Fields) (s t : Db)
      → R s t
      → R s
          (let res : Result Fields × Db = elim r [
            | ok out ↦ (ok out, t)
            | raised x ↦ handler_failed e stage id x t
          ] in
            res).1
  after_handler-step stage id (ok out) s t h = h
  after_handler-step stage id (raised x) s t h = st.chain s t _ h (handler_failed-step stage id x t)

  call_handler-step :
      (stage : StageSpec) (id : String) (input : Fields) (s : Db)
      → HandlerSteps R stage
      → R s (call_handler e stage id input s).1
  unfolding call_handler
  call_handler-step stage id input s h =
      after_handler-step stage id (stage.handler input s).0 s (stage.handler input s).1 (h input s)

  consume_all-step :
      (prior : List String) (inp id : String) (s : Db) → R s (consume_all e prior inp id s).1
  unfolding consume_all
  consume_all-step [] inp id s = st.stay s
  consume_all-step (po ∷ prior) inp id s =
      st.chain s _ _ (st.edge po inp _ _ s) (consume_all-step prior inp id _)

  accept_output-step :
      (a : RunArgs) (stage : StageSpec) (prior : List String) (inp id : String) (out : Fields)
      (s : Db)
      → R s (accept_output e a stage prior inp id out s).1
  unfolding accept_output
  accept_output-step a stage prior inp id out s =
      step-continue (put_json e _ _ out s).0 _ s (put_json e _ _ out s).1 (put_json-step _ _ out s)
        λ o made.
          let t : Db = (put_json e _ _ out s).1 in
          step-bind (record_edge e.tenant _ inp _ _) _ t (st.edge _ inp _ _ t) λ _ u.
            step-bind (consume_all e prior inp id) _ u (consume_all-step prior inp id u) λ _ v.
              step-bind (record_edge e.tenant inp o _ _) _ v (st.edge inp o _ _ v) λ _ w.
                step-bind (cache_record e.tenant _ _ inp o) _ w
                  (subst
                    (λ d. R w (cache_record e.tenant stage.name stage.schema_version inp d w).1)
                    (put_json-ok e _ _ out s made)
                    (st.memo _ _ inp (e.digest.canonical_json_bytes out) w))
                  λ _ x.
                    step-bind (finalize_stage_run_success e.tenant id o) _ x (st.success id o x)
                      (λ _ y. st.stay y)

  check_output-step :
      (a : RunArgs) (stage : StageSpec) (prior : List String) (inp id : String) (out : Fields)
      (v : Result (Bool × String × Fields)) (s : Db)
      → R s (check_output e a stage prior inp id out v s).1
  unfolding check_output
  check_output-step a stage prior inp id out (raised x) s = st.stay s
  check_output-step a stage prior inp id out (ok (true, _, _)) s =
      accept_output-step a stage prior inp id out s
  check_output-step a stage prior inp id out (ok (false, _, err)) s =
      reject_output-step stage id err s

  execute_stage-step :
      (a : RunArgs) (stage : StageSpec) (prior : List String) (inp : String) (s : Db)
      → HandlerSteps R stage
      → R s (execute_stage e a stage prior inp s).1
  unfolding execute_stage
  execute_stage-step a stage prior inp s h =
      step-bind (insert_stage_run e.uuid4 e.tenant _ _ _ _ _ _ inp) _ s (st.start _ _ _ _ _ _ inp s)
        λ id t.
          step-bind (call_handler e stage id _) _ t (call_handler-step stage id _ t h)
            (λ out u. check_output-step a stage prior inp id out _ u)

  reuse_or_execute-step :
      (a : RunArgs) (stage : StageSpec) (prior : List String) (inp : String) (s : Db)
      → HandlerSteps R stage
      → R s (reuse_or_execute e a stage prior inp s).1
  unfolding reuse_or_execute reuse
  reuse_or_execute-step a stage prior inp s h =
      elim (Bool-cases (truthy (cache_lookup e.tenant stage.name stage.schema_version inp s))) [
        | inl hit ↦
            rw (hit, reuse_or_execute)
              (step-bind (record_edge e.tenant inp _ _ _) _ s (st.edge inp _ _ _ s)
                (λ _ t. st.stay t))
        | inr miss ↦ rw (miss, reuse_or_execute) (execute_stage-step a stage prior inp s h)
      ]

  check_input-step :
      (a : RunArgs) (stage : StageSpec) (prior : List String) (v : Result (Bool × String × Fields))
      (s : Db)
      → HandlerSteps R stage
      → R s (check_input e a stage prior v s).1
  unfolding check_input
  check_input-step a stage prior (raised x) s h = st.stay s
  check_input-step a stage prior (ok (false, _, err)) s h = reject_input-step err s
  check_input-step a stage prior (ok (true, _, _)) s h =
      step-bind (put_json e _ _ _) _ s (put_json-step _ _ _ s)
        (λ inp t. reuse_or_execute-step a stage prior inp t h)

  pub run_stage-step :
      (a : RunArgs) (stage : StageSpec) (prior : List String) (s : Db)
      → HandlerSteps R stage
      → R s (run_stage e a stage prior s).1
  unfolding run_stage
  run_stage-step a stage prior s h = check_input-step a stage prior _ s h

  pub run_stages-step :
      (a : RunArgs) (stages : List StageSpec) (outputs : List String) (s : Db)
      → All (HandlerSteps R) stages
      → R s (run_stages e a stages outputs s).1
  unfolding run_stages
  run_stages-step a [] outputs s h = st.stay s
  run_stages-step a (stage ∷ stages) outputs s h =
      step-bind (run_stage e a stage outputs) _ s (run_stage-step a stage outputs s h.0)
        (λ out t. run_stages-step a stages (insert outputs out) t h.1)
