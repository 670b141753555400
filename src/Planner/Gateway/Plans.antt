-- ===== src/Planner/Gateway/Plans.antt =====
-- A stored plan can be read back, and executing it changes its status alone.
use dadi_runtime.Base.{
  ℕ, String, none, ◌≡◌, ◌≢◌, refl, arith, eq_iff, eq_refl, ok, raised, select_one, select_one-holds,
  insert, Option-cases, inl, inr, select_one-insert, select_one-update, ◌==◌, ◌&&◌, if◌then◌else◌,
}
use dadi_runtime.Planner.Query.{RegenerateRequest, Casts}
use dadi_runtime.Planner.Gateway.{PlanDb, Plan, create_plan, get_plan, is_plan, mark_executed}

create_plan-stored :
    (c : Casts) (uuid4 : ℕ → String) (tenant : String) (q : RegenerateRequest) (s s' : PlanDb)
    (p : Plan)
    → create_plan c uuid4 tenant q s ≡ (ok p, s')
    → (p.plan_id ≡ uuid4 s.db.drawn) × (p.tenant_id ≡ tenant) × (s'.plans ≡ insert s.plans p)
unfolding create_plan
create_plan-stored c uuid4 tenant q s s' p h = ground arith

-- A plan that was created under an id that was not in use is found under that id, as it was
-- returned; no other plan is changed.
pub get_plan-create_plan :
    (c : Casts) (uuid4 : ℕ → String) (tenant t id : String) (q : RegenerateRequest) (s s' : PlanDb)
    (p : Plan)
    → create_plan c uuid4 tenant q s ≡ (ok p, s')
    → select_one (is_plan tenant (uuid4 s.db.drawn)) s.plans ≡ none
    → (get_plan tenant p.plan_id s' ≡ (ok p, s'))
      × (t ≢ tenant → (get_plan t id s').0 ≡ (get_plan t id s).0)
unfolding create_plan get_plan
get_plan-create_plan c uuid4 tenant t id q s s' p h fresh =
    let (id_eq, owner, stored) = create_plan-stored c uuid4 tenant q s s' p h in
    (
      ground (
        arith,
        fresh,
        id_eq,
        owner,
        stored,
        eq_refl tenant,
        eq_refl p.plan_id,
        select_one-insert (is_plan tenant p.plan_id) s.plans p,
      ),
      λ other.
          ground
            (arith, owner, stored, eq_iff tenant t, select_one-insert (is_plan t id) s.plans p),
    )

-- After `mark_executed` the plan reads as executed and is otherwise the same, a plan of another
-- tenant or id reads as before, and a missing plan stays missing.
pub get_plan-mark_executed :
    (tenant id t i : String) (s : PlanDb)
    → (get_plan t i (mark_executed tenant id s).1).0 ≡ elim (get_plan t i s).0 [
      | raised e ↦ raised e
      | ok p ↦ ok (if tenant == t && id == i then record p { status = "executed" } else p)
    ]
unfolding get_plan mark_executed
get_plan-mark_executed tenant id t i s = elim (Option-cases (select_one (is_plan t i) s.plans)) [
  | inl missing ↦ ground (
    arith,
    missing,
    select_one-update (is_plan t i) (is_plan tenant id) execute s.plans (λ r. refl),
  )
  | inr (r, found) ↦ ground (
    arith,
    found,
    select_one-update (is_plan t i) (is_plan tenant id) execute s.plans (λ r. refl),
    select_one-holds (is_plan t i) s.plans found,
    eq_iff r.tenant_id t,
    eq_iff r.plan_id i,
    eq_iff r.tenant_id tenant,
    eq_iff r.plan_id id,
    eq_iff tenant t,
    eq_iff id i,
  )
]
  where
    execute : Plan → Plan
    execute p = record p { status = "executed" }
