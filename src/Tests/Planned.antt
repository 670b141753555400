-- ===== src/Tests/Planned.antt =====
-- Witnesses for the planners.
use dadi_runtime.Base.{
  ◌+◌, insert, select_one, ◌≤◌, ◌<◌, String, true, none, some, List, [], ◌∷◌, ◌≡◌, ◌≢◌, refl, arith,
  All, ok, eq_iff,
}
use dadi_runtime.Tables.{StageRun}
use dadi_runtime.Planner.Query.{RegenerateRequest, Casts, Hit}
use dadi_runtime.Planner.Items.{plan_item, Member, plan_item-stages}
use dadi_runtime.Planner.Gateway.{PlanDb, Plan, new_plan, create_plan, get_plan, mark_executed}
use dadi_runtime.Planner.Gateway.Plans.{get_plan-mark_executed}
use dadi_runtime.Planner.Gateway.Misbound.{Unfiltered, create_plan_empty}
use dadi_runtime.Tests.{ids, run_db, stage_row}

abbrev casts : Casts
casts = record { is_uuid = λ s. true; timestamp = λ s. some 0 }

abbrev new_prompt : RegenerateRequest
new_prompt = record {
  old_prompt_sha256 = some "prompt";
  new_prompt_sha256 = some "prompt2";
  old_toolchain_sha256 = none;
  new_toolchain_sha256 = none;
  pipeline_id = none;
  created_after = none;
  created_before = none;
}

unfiltered : Unfiltered new_prompt
unfiltered = record { pipeline = refl; after = refl; before = refl }

abbrev plan_db : PlanDb
plan_db = record { db = run_db; plans = [] }

not_prompt : ◌≢◌ {A = String} "acme" "prompt"
not_prompt h = ground (arith, (eq_iff "acme" "prompt").1 h)

create_plan_empty_example : create_plan casts ids "acme" new_prompt plan_db ≡ (
  ok (new_plan "id0" "acme" new_prompt []),
  record {
    db = record plan_db.db { drawn = plan_db.db.drawn + 1 };
    plans = insert plan_db.plans (new_plan "id0" "acme" new_prompt []);
  },
)
create_plan_empty_example =
    create_plan_empty casts ids "acme" new_prompt plan_db refl unfiltered (not_prompt, tt)

abbrev hit : Hit
hit = record {
  pipeline_run_id = "r1";
  min_stage_index = 1;
  prompt_hits = 1;
  toolchain_hits = 0;
  affected_stage_runs = 1;
}

abbrev rows : List StageRun
rows = stage_row "r1" 0 "o0" ∷ stage_row "r1" 1 "o1" ∷ stage_row "r1" 2 "o2" ∷ []

plan_item-stages_example :
    All (λ i. i < 1) (plan_item hit rows).reuse_stages
    × All (λ i. 1 ≤ i) (plan_item hit rows).recompute_stages
    × All (λ r. 1 ≤ r.stage_index → Member r.stage_index (plan_item hit rows).recompute_stages) rows
plan_item-stages_example = plan_item-stages hit rows

abbrev empty_plan : Plan
empty_plan = new_plan "id0" "acme" new_prompt []

abbrev planned_db : PlanDb
planned_db = record plan_db { plans = empty_plan ∷ [] }

get_plan-mark_executed_example :
    (get_plan "acme" "id0" (mark_executed "acme" "id0" planned_db).1).0
    ≡ ok (record empty_plan { status = "executed" })
unfolding get_plan select_one
get_plan-mark_executed_example = get_plan-mark_executed "acme" "id0" "acme" "id0" planned_db
