-- ===== src/Planner/Regen.antt =====
-- services/regen-planner/dadi_regen/planner.py: the planner of the service, which knows no tenants.
use dadi_runtime.Base.{
  ℕ, ◌+◌, String, Bool, true, none, some, List, [], ◌∷◌, ◌++◌, ◌≡◌, refl, arith, ◌&&◌, ◌||◌, ◌==◌,
  if◌then◌else◌, truthy, or_default, is_text, select, select_one, update, insert, map, Exec, ok,
  raised, key_error, value_error, Bool-cases, inl, inr,
}
use dadi_runtime.Tables.{StageRun, PipelineRun}
use dadi_runtime.Audit.{zeros}
use dadi_runtime.Planner.Query.{
  RegenerateRequest, Cond, pipeline_is, created_after_is, created_before_is, prompt_is,
  toolchain_is, Casts, Hit, Joined, Bound, answer, bind_params, any_holds, all_hold, join, pass,
  group_hits, given,
}
use dadi_runtime.Planner.Items.{PlanItem, by_index, plan_item}
use dadi_runtime.Planner.Gateway.{
  PlanDb, Plan, has_pair, new_plan, find_matches, ExplainItem, match_conds,
}
use dadi_runtime.Planner.Gateway.Misbound.{Unfiltered}

unfoldable pub filter_conds : RegenerateRequest → List Cond
filter_conds q =
    given q.pipeline_id (λ _. pipeline_is)
    ++ (given q.created_after (λ _. created_after_is)
        ++ given q.created_before (λ _. created_before_is))

unfoldable pub regen_params : RegenerateRequest → List String
regen_params q =
    or_default q.old_prompt_sha256 zeros
    ∷ or_default q.old_toolchain_sha256 zeros
    ∷ (given q.pipeline_id (λ p. p)
        ++ (given q.created_after (λ p. p)
            ++ (given q.created_before (λ p. p)
                ++ (given q.old_prompt_sha256 (λ p. p) ++ given q.old_toolchain_sha256 (λ p. p)))))

abbrev pub in_run : String → StageRun → Bool
in_run run r = r.pipeline_run_id == run

unfoldable pub regen_items : List StageRun → List Hit → List PlanItem
regen_items srs [] = []
regen_items srs (h ∷ hits) =
    plan_item h (by_index (select (in_run h.pipeline_run_id) srs)) ∷ regen_items srs hits

-- A plan of this service has no tenant: the field of the plan is empty.
unfoldable pub plan_regeneration : Casts → (ℕ → String) → RegenerateRequest → Exec PlanDb Plan
plan_regeneration c uuid4 q s =
    if has_pair q
    then elim (answer c (match_conds q) (filter_conds q) (regen_params q) s.db.stage_runs
        s.db.pipeline_runs) [
          | raised e ↦ (raised e, record s { db = record s.db { drawn = s.db.drawn + 1 } })
          | ok hits ↦
              let plan = new_plan (uuid4 s.db.drawn) "" q (regen_items s.db.stage_runs hits) in
              (
                ok plan,
                record { db = record s.db { drawn = s.db.drawn + 1 }; plans = insert s.plans plan },
              )
        ]
    else (
      raised (
          value_error
            "Must provide either old/new prompt SHA256 or old/new toolchain SHA256 (or both)."),
      s,
    )

-- WHERE plan_id=…
abbrev pub has_id : String → Plan → Bool
has_id id p = p.plan_id == id

unfoldable pub get_plan : String → Exec PlanDb Plan
get_plan id s = elim (select_one (has_id id) s.plans) [
  | none ↦ (raised (key_error "Plan not found"), s)
  | some p ↦ (ok p, s)
]

unfoldable pub mark_executed : String → Exec PlanDb Unit
mark_executed id s =
    (ok tt, record s { plans = update (has_id id) (λ p. record p { status = "executed" }) s.plans })

unfoldable pub explain_regen : RegenerateRequest → List StageRun → List PlanItem → List ExplainItem
explain_regen q srs [] = []
explain_regen q srs (i ∷ items) =
    let found = find_matches q (by_index (select (in_run i.pipeline_run_id) srs)) in
    (record {
      pipeline_run_id = i.pipeline_run_id;
      reason = i.reason;
      start_stage_index = i.start_stage_index;
      found = found;
      earliest_match = elim found [ [] ↦ none | m ∷ ms ↦ some m ];
    })
    ∷ explain_regen q srs items

unfoldable pub get_plan_explain : String → Exec PlanDb (Plan × List ExplainItem)
unfolding get_plan explain_regen
get_plan_explain id s =
    let (r, s') = get_plan id s in
    elim r [
      | raised e ↦ (raised e, s')
      | ok p ↦ (ok (p, explain_regen p.request s'.db.stage_runs p.items), s')
    ]

-- What a request with no filter asks for: the stage runs that used the old prompt or toolchain.
abbrev pub affected : RegenerateRequest → StageRun → Bool
affected q sr =
    (truthy q.old_prompt_sha256
      && is_text sr.prompt_bundle_sha256 (or_default q.old_prompt_sha256 ""))
    || (truthy q.old_toolchain_sha256
        && (sr.toolchain_manifest_sha256 == or_default q.old_toolchain_sha256 ""))

module _ (c : Casts) (q : RegenerateRequest) where
  pass-affected :
      (ms : Bound) (rows : List Joined)
      → ((row : Joined) → any_holds c ms row ≡ some (affected q row.0))
      → pass c ms [] rows ≡ ok (select (affected q) (map (λ (row : Joined). row.0) rows))
  unfolding pass all_hold select
  pass-affected ms [] h = refl
  pass-affected ms (row ∷ rows) h = ground (arith, h row, pass-affected ms rows h)

  abbrev affected_hits : List StageRun → List PipelineRun → List Hit
  affected_hits srs prs =
      group_hits (or_default q.old_prompt_sha256 zeros) (or_default q.old_toolchain_sha256 zeros)
        (select (affected q) (map (λ (row : Joined). row.0) (join srs prs)))

  answer-bound :
      (ks : List Cond) (ms : Bound) (ps : List String) (srs : List StageRun)
      (prs : List PipelineRun)
      → bind_params ks ps ≡ some (ms, [])
      → ((row : Joined) → any_holds c ms row ≡ some (affected q row.0))
      → answer c ks []
          (or_default q.old_prompt_sha256 zeros ∷ or_default q.old_toolchain_sha256 zeros ∷ ps)
          srs
          prs
        ≡ ok (affected_hits srs prs)
  unfolding answer
  answer-bound ks ms ps srs prs bound holds_affected =
      rw (bound, answer) (rw (pass-affected ms (join srs prs) holds_affected, answer))

  answer-affected :
      (srs : List StageRun) (prs : List PipelineRun)
      → has_pair q ≡ true
      → Unfiltered q
      → answer c (match_conds q) (filter_conds q) (regen_params q) srs prs
        ≡ ok (affected_hits srs prs)
  unfolding match_conds filter_conds regen_params any_holds bind_params
  answer-affected srs prs pair u =
      let op : String = or_default q.old_prompt_sha256 "" in
      let ot : String = or_default q.old_toolchain_sha256 "" in
      elim (Bool-cases (truthy q.old_prompt_sha256)) [
        | inl p ↦ elim (Bool-cases (truthy q.old_toolchain_sha256)) [
          | inl t ↦
              rw (p, t, u.pipeline, u.after, u.before)
                (answer-bound (prompt_is ∷ toolchain_is ∷ [])
                  ((prompt_is, op) ∷ (toolchain_is, ot) ∷ []) (op ∷ ot ∷ []) srs prs refl
                  (λ row. ground (arith, p, t)))
          | inr t ↦
              rw (p, t, u.pipeline, u.after, u.before)
                (answer-bound (prompt_is ∷ []) ((prompt_is, op) ∷ []) (op ∷ []) srs prs refl
                  (λ row. ground (arith, p, t)))
        ]
        | inr p ↦
            let t : truthy q.old_toolchain_sha256 ≡ true = ground (arith, pair, p) in
            rw (p, t, u.pipeline, u.after, u.before)
              (answer-bound (toolchain_is ∷ []) ((toolchain_is, ot) ∷ []) (ot ∷ []) srs prs refl
                (λ row. ground (arith, p, t)))
      ]

  -- The service's planner, asked with no filter, answers with the groups of exactly the stage runs
  -- that used the old prompt or the old toolchain and have a pipeline run, with the plan of their
  -- items.
  pub plan_regeneration-Unfiltered :
      (uuid4 : ℕ → String) (s : PlanDb)
      → has_pair q ≡ true
      → Unfiltered q
      → (plan_regeneration c uuid4 q s).0
        ≡ ok (
            new_plan (uuid4 s.db.drawn) "" q (
              regen_items s.db.stage_runs (
                group_hits
                  (or_default q.old_prompt_sha256 zeros)
                  (or_default q.old_toolchain_sha256 zeros)
                  (select
                    (affected q)
                    (map (λ (row : Joined). row.0) (join s.db.stage_runs s.db.pipeline_runs))))))
  unfolding plan_regeneration
  plan_regeneration-Unfiltered uuid4 s pair u =
      rw (pair, answer-affected s.db.stage_runs s.db.pipeline_runs pair u)
