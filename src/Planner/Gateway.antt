-- ===== src/Planner/Gateway.antt =====
-- services/gateway/dadi_gateway/planner.py
pub mod Misbound
pub mod Plans
use dadi_runtime.Base.{
  ℕ, ◌+◌, String, Bool, true, false, Option, none, some, List, [], ◌∷◌, ◌++◌, ◌&&◌, ◌||◌, ◌==◌, not,
  if◌then◌else◌, truthy, or_default, is_text, select, select_one, update, insert, Result, ok,
  raised, Exec, key_error, value_error, map, Exc,
}
use dadi_runtime.Tables.{StageRun, PipelineRun, Db}
use dadi_runtime.Audit.{zeros}
use dadi_runtime.Planner.Query.{
  RegenerateRequest, Cond, sr_tenant, pr_tenant, pipeline_is, created_after_is, created_before_is,
  prompt_is, toolchain_is, Casts, Hit, answer, given,
}
use dadi_runtime.Planner.Items.{PlanItem, Reason, by_index, plan_item}

pub record Plan : Type 0 where
  pub plan_id : String
  pub tenant_id : String
  pub status : String
  pub request : RegenerateRequest
  pub items : List PlanItem

-- The database, with the table `regeneration_plans`. A row's `status` column is the plan's.
pub record PlanDb : Type 0 where
  pub db : Db
  pub plans : List Plan

-- `(old_prompt and new_prompt) or (old_toolchain and new_toolchain)`
abbrev pub has_pair : RegenerateRequest → Bool
has_pair q =
    (truthy q.old_prompt_sha256 && truthy q.new_prompt_sha256)
    || (truthy q.old_toolchain_sha256 && truthy q.new_toolchain_sha256)

unfoldable pub where_conds : RegenerateRequest → List Cond
where_conds q =
    sr_tenant
    ∷ pr_tenant
    ∷ (given q.pipeline_id (λ _. pipeline_is)
        ++ (given q.created_after (λ _. created_after_is)
            ++ given q.created_before (λ _. created_before_is)))

unfoldable pub match_conds : RegenerateRequest → List Cond
match_conds q =
    given q.old_prompt_sha256 (λ _. prompt_is) ++ given q.old_toolchain_sha256 (λ _. toolchain_is)

-- `[prompt_cmp, toolchain_cmp] + params`, where `params` was filled with the filter first
unfoldable pub query_params : String → RegenerateRequest → List String
query_params tenant q =
    or_default q.old_prompt_sha256 zeros
    ∷ or_default q.old_toolchain_sha256 zeros
    ∷ tenant
    ∷ tenant
    ∷ (given q.pipeline_id (λ p. p)
        ++ (given q.created_after (λ p. p)
            ++ (given q.created_before (λ p. p)
                ++ (given q.old_prompt_sha256 (λ p. p) ++ given q.old_toolchain_sha256 (λ p. p)))))

-- WHERE tenant_id=… AND pipeline_run_id=…
abbrev pub of_run : String → String → StageRun → Bool
of_run tenant run r = r.tenant_id == tenant && r.pipeline_run_id == run

unfoldable pub plan_items : String → List StageRun → List Hit → List PlanItem
plan_items tenant srs [] = []
plan_items tenant srs (h ∷ hits) =
    plan_item h (by_index (select (of_run tenant h.pipeline_run_id) srs))
    ∷ plan_items tenant srs hits

abbrev pub new_plan : String → String → RegenerateRequest → List PlanItem → Plan
new_plan plan_id tenant q items = record {
  plan_id = plan_id;
  tenant_id = tenant;
  status = "planned";
  request = q;
  items = items;
}

unfoldable pub create_plan : Casts → (ℕ → String) → String → RegenerateRequest → Exec PlanDb Plan
create_plan c uuid4 tenant q s =
    if has_pair q
    then elim (answer c (match_conds q) (where_conds q) (query_params tenant q) s.db.stage_runs
        s.db.pipeline_runs) [
          | raised e ↦ (raised e, record s { db = record s.db { drawn = s.db.drawn + 1 } })
          | ok hits ↦
              let plan =
                new_plan (uuid4 s.db.drawn) tenant q (plan_items tenant s.db.stage_runs hits) in
              (
                ok plan,
                record { db = record s.db { drawn = s.db.drawn + 1 }; plans = insert s.plans plan },
              )
        ]
    else (
      raised (
          value_error
            "Must provide either old/new prompt SHA256 or old/new toolchain SHA256 (or both)."),
      s,
    )

-- WHERE tenant_id=… AND plan_id=…
abbrev pub is_plan : String → String → Plan → Bool
is_plan tenant id p = p.tenant_id == tenant && p.plan_id == id

unfoldable pub get_plan : String → String → Exec PlanDb Plan
get_plan tenant id s = elim (select_one (is_plan tenant id) s.plans) [
  | none ↦ (raised (key_error "Plan not found"), s)
  | some p ↦ (ok p, s)
]

unfoldable pub mark_executed : String → String → Exec PlanDb Unit
mark_executed tenant id s = (
  ok tt,
  record s { plans = update (is_plan tenant id) (λ p. record p { status = "executed" }) s.plans },
)

-- A stage run that used the old prompt or the old toolchain.
pub record Match : Type 0 where
  pub stage_run : StageRun
  pub prompt_hit : Bool
  pub toolchain_hit : Bool

-- `bool(old and sha == old)`
abbrev pub hits_old : Option String → Option String → Bool
hits_old old sha = truthy old && is_text sha (or_default old "")

unfoldable pub find_matches : RegenerateRequest → List StageRun → List Match
find_matches q [] = []
find_matches q (r ∷ rows) =
    let rest = find_matches q rows in
    let p = hits_old q.old_prompt_sha256 r.prompt_bundle_sha256 in
    let t = hits_old q.old_toolchain_sha256 (some r.toolchain_manifest_sha256) in
    if p || t then (record { stage_run = r; prompt_hit = p; toolchain_hit = t }) ∷ rest else rest

pub record ExplainItem : Type 0 where
  pub pipeline_run_id : String
  pub reason : Reason
  pub start_stage_index : ℕ
  pub found : List Match
  pub earliest_match : Option Match

abbrev first_match : List Match → Option Match
first_match [] = none
first_match (m ∷ ms) = some m

unfoldable pub explain_items :
    String → RegenerateRequest → List StageRun → List PlanItem → List ExplainItem
unfolding find_matches
explain_items tenant q srs [] = []
explain_items tenant q srs (i ∷ items) =
    let found = find_matches q (by_index (select (of_run tenant i.pipeline_run_id) srs)) in
    (record {
      pipeline_run_id = i.pipeline_run_id;
      reason = i.reason;
      start_stage_index = i.start_stage_index;
      found = found;
      earliest_match = first_match found;
    })
    ∷ explain_items tenant q srs items

unfoldable pub explain_plan : String → String → Exec PlanDb (Plan × List ExplainItem)
unfolding get_plan explain_items
explain_plan tenant id s =
    let (r, s') = get_plan tenant id s in
    elim r [
      | raised e ↦ (raised e, s')
      | ok p ↦ (ok (p, explain_items tenant p.request s'.db.stage_runs p.items), s')
    ]
