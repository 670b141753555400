-- ===== src/Planner/Gateway/Misbound.antt =====
-- The gateway's planner gathers the parameters of the filter before those of the match, and the
-- query names them the other way round.
use dadi_runtime.Base.{
  ℕ, ◌+◌, insert, String, Bool, true, false, some, List, [], ◌∷◌, ◌≡◌, ◌≢◌, refl, arith, All, ◌==◌,
  eq_iff, truthy, or_default, ok, Bool-cases, inl, inr, All-append,
}
use dadi_runtime.Tables.{StageRun, PipelineRun}
use dadi_runtime.Planner.Query.{
  RegenerateRequest, Casts, Joined, Bound, answer, bind_params, any_holds, all_hold, join,
  join_runs, pass, sr_tenant, pr_tenant, Cond, prompt_is, toolchain_is,
}
use dadi_runtime.Planner.Gateway.{
  PlanDb, create_plan, has_pair, where_conds, match_conds, query_params, plan_items, new_plan,
}

-- The request gives no filter.
pub record Unfiltered (q : RegenerateRequest) : Type 0 where
  pub pipeline : truthy q.pipeline_id ≡ false
  pub after : truthy q.created_after ≡ false
  pub before : truthy q.created_before ≡ false

-- The last parameter: the old toolchain, or else the old prompt.
abbrev pub last_param : RegenerateRequest → String
last_param q = or_default q.old_toolchain_sha256 (or_default q.old_prompt_sha256 "")

join_runs-All :
    (P : PipelineRun → Type 0) (prs : List PipelineRun) (sr : StageRun)
    → All P prs
    → All (λ (row : Joined). P row.1) (join_runs prs sr)
unfolding join_runs
join_runs-All P [] sr h = tt
join_runs-All P (pr ∷ prs) sr h = elim (Bool-cases (pr.pipeline_run_id == sr.pipeline_run_id)) [
  | inl same ↦ rw (same, join_runs) (h.0, join_runs-All P prs sr h.1)
  | inr other ↦ rw (other, join_runs) (join_runs-All P prs sr h.1)
]

join-All :
    (P : PipelineRun → Type 0) (srs : List StageRun) (prs : List PipelineRun)
    → All P prs
    → All (λ (row : Joined). P row.1) (join srs prs)
unfolding join
join-All P [] prs h = tt
join-All P (sr ∷ srs) prs h =
    All-append (λ (row : Joined). P row.1) (join_runs prs sr) (join srs prs)
      (join_runs-All P prs sr h) (join-All P srs prs h)

module _ (c : Casts) where
  -- conditions on texts never make the database raise
  abbrev Answers : Bound → Type 0
  Answers ms = (row : Joined) → (b : Bool) × (any_holds c ms row ≡ some b)

  pass-nothing :
      (ms : Bound) (a b : String) (rows : List Joined)
      → Answers ms
      → All (λ (row : Joined). row.1.tenant_id ≢ b) rows
      → pass c ms ((sr_tenant, a) ∷ (pr_tenant, b) ∷ []) rows ≡ ok []
  unfolding pass all_hold
  pass-nothing ms a b [] answers h = refl
  pass-nothing ms a b (row ∷ rows) answers h =
      ground (
        arith,
        (answers row).1,
        eq_iff row.1.tenant_id b,
        h.0,
        pass-nothing ms a b rows answers h.1,
      )

  where_conds-Unfiltered :
      (q : RegenerateRequest) → Unfiltered q → where_conds q ≡ sr_tenant ∷ pr_tenant ∷ []
  unfolding where_conds
  where_conds-Unfiltered q u = rw (u.pipeline, u.after, u.before)

  -- The query's answer, where the match has the given conditions and the filter ends in `b`.
  answer-misbound :
      (q : RegenerateRequest) (srs : List StageRun) (prs : List PipelineRun) (x y a b : String)
      (ks : List Cond) (ms : Bound) (ps : List String)
      → Unfiltered q
      → bind_params ks ps ≡ some (ms, a ∷ b ∷ [])
      → Answers ms
      → All (λ pr. pr.tenant_id ≢ b) prs
      → answer c ks (where_conds q) (x ∷ y ∷ ps) srs prs ≡ ok []
  unfolding answer
  answer-misbound q srs prs x y a b ks ms ps u bound answers h = rw (where_conds-Unfiltered q u) (
      rw (bound, answer)
        (rw (
          pass-nothing ms a b (join srs prs) answers (join-All (λ pr. pr.tenant_id ≢ b) srs prs h),
          answer,
        )))

  -- the answer of the gateway's query
  answer-nothing :
      (tenant : String) (q : RegenerateRequest) (srs : List StageRun) (prs : List PipelineRun)
      → has_pair q ≡ true
      → Unfiltered q
      → All (λ pr. pr.tenant_id ≢ last_param q) prs
      → answer c (match_conds q) (where_conds q) (query_params tenant q) srs prs ≡ ok []
  unfolding match_conds query_params any_holds bind_params
  answer-nothing tenant q srs prs pair u h =
      let op : String = or_default q.old_prompt_sha256 "" in
      let ot : String = or_default q.old_toolchain_sha256 "" in
      elim (Bool-cases (truthy q.old_prompt_sha256)) [
        | inl p ↦ elim (Bool-cases (truthy q.old_toolchain_sha256)) [
          | inl t ↦
              let last : last_param q ≡ ot = ground (arith, t) in
              rw (p, t, u.pipeline, u.after, u.before)
                (answer-misbound q srs prs _ _ op ot (prompt_is ∷ toolchain_is ∷ [])
                  ((prompt_is, tenant) ∷ (toolchain_is, tenant) ∷ [])
                  (tenant ∷ tenant ∷ op ∷ ot ∷ []) u refl (λ row. (_, refl)) (rw last at h))
          | inr t ↦
              let last : last_param q ≡ op = ground (arith, p, t) in
              rw (p, t, u.pipeline, u.after, u.before)
                (answer-misbound q srs prs _ _ tenant op (prompt_is ∷ []) ((prompt_is, tenant) ∷ [])
                  (tenant ∷ tenant ∷ op ∷ []) u refl (λ row. (_, refl)) (rw last at h))
        ]
        | inr p ↦
            let t : truthy q.old_toolchain_sha256 ≡ true = ground (arith, pair, p) in
            let last : last_param q ≡ ot = ground (arith, t) in
            rw (p, t, u.pipeline, u.after, u.before)
              (answer-misbound q srs prs _ _ tenant ot (toolchain_is ∷ [])
                ((toolchain_is, tenant) ∷ []) (tenant ∷ tenant ∷ ot ∷ []) u refl (λ row. (_, refl))
                (rw last at h))
      ]

  -- The gateway's planner finds nothing to regenerate, whatever the stage runs are: for a request
  -- with no filter, if no pipeline run belongs to a tenant that is named like the old hash, it
  -- stores and returns a plan with no item.
  pub create_plan_empty :
      (uuid4 : ℕ → String) (tenant : String) (q : RegenerateRequest) (s : PlanDb)
      → has_pair q ≡ true
      → Unfiltered q
      → All (λ pr. pr.tenant_id ≢ last_param q) s.db.pipeline_runs
      → let plan = new_plan (uuid4 s.db.drawn) tenant q [] in
        create_plan c uuid4 tenant q s ≡ (
          ok plan,
          record { db = record s.db { drawn = s.db.drawn + 1 }; plans = insert s.plans plan },
        )
  unfolding create_plan plan_items
  create_plan_empty uuid4 tenant q s pair u h =
      rw (pair, answer-nothing tenant q s.db.stage_runs s.db.pipeline_runs pair u h)
