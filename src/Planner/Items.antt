-- ===== src/Planner/Items.antt =====
-- The items of a plan: from the answer of the query and the stage runs of each run.
use dadi_runtime.Base.{
  ℕ, zero, suc, ◌+◌, ◌-◌, ◌≤◌, ◌<◌, String, Bool, List, [], ◌∷◌, ◌≡◌, ◌&&◌, ◌==◌, if◌then◌else◌,
  leb, ltb, nat_eq, truthy, or_default, arith, All, ◌⊎◌, inl, inr, Bool-cases,
}
use dadi_runtime.Tables.{StageRun}
use dadi_runtime.Planner.Query.{Hit}

pub data Reason : Type 0 where
  mixed_change prompt_change toolchain_change : Reason

unfoldable pub det_reason : Bool → Bool → Reason
det_reason prompt_hit toolchain_hit =
    if prompt_hit && toolchain_hit
    then mixed_change
    else if prompt_hit
    then prompt_change
    else toolchain_change

pub record PlanItem : Type 0 where
  pub pipeline_run_id : String
  pub start_stage_index : ℕ
  pub reason : Reason
  pub affected_stage_runs : ℕ
  pub reuse_stages : List ℕ
  pub recompute_stages : List ℕ
  pub current_stage_outputs : List (ℕ × String)

-- ORDER BY stage_index ASC
unfoldable pub insert_by_index : StageRun → List StageRun → List StageRun
insert_by_index r [] = r ∷ []
insert_by_index r (q ∷ rows) =
    if leb r.stage_index q.stage_index then r ∷ q ∷ rows else q ∷ insert_by_index r rows

unfoldable pub by_index : List StageRun → List StageRun
unfolding insert_by_index
by_index [] = []
by_index (r ∷ rows) = insert_by_index r (by_index rows)

abbrev greater : ℕ → ℕ → ℕ
greater a b = if leb a b then b else a

-- `max(existing_indices) if existing_indices else int(min_stage_index)`
unfoldable pub max_index : ℕ → List StageRun → ℕ
max_index start [] = start
max_index start (r ∷ []) = r.stage_index
max_index start (r ∷ q ∷ rows) = greater r.stage_index (max_index start (q ∷ rows))

-- `list(range(start, start + n))`
abbrev pub range_from : ℕ → ℕ → List ℕ
range_from start zero = []
range_from start (suc n) = start ∷ range_from (suc start) n

abbrev pub has_output : StageRun → Bool
has_output r = r.status == "success" && truthy r.output_artifact_sha256

unfoldable pub reuse_stages : ℕ → List StageRun → List ℕ
reuse_stages start [] = []
reuse_stages start (r ∷ rows) =
    let rest = reuse_stages start rows in
    if ltb r.stage_index start && has_output r then r.stage_index ∷ rest else rest

-- `current_outputs[str(int(stage_index))] = out_sha`: a later row replaces an earlier one.
unfoldable pub put_output : ℕ → String → List (ℕ × String) → List (ℕ × String)
put_output i sha [] = (i, sha) ∷ []
put_output i sha ((j, old) ∷ rest) =
    if nat_eq j i then (j, sha) ∷ rest else (j, old) ∷ put_output i sha rest

unfoldable pub current_outputs : List (ℕ × String) → List StageRun → List (ℕ × String)
unfolding put_output
current_outputs outs [] = outs
current_outputs outs (r ∷ rows) =
    current_outputs
      (if has_output r
        then put_output r.stage_index (or_default r.output_artifact_sha256 "") outs
        else outs)
      rows

-- `rows` are the stage runs of the run, in order.
unfoldable pub plan_item : Hit → List StageRun → PlanItem
unfolding reuse_stages current_outputs det_reason
plan_item h rows = record {
  pipeline_run_id = h.pipeline_run_id;
  start_stage_index = h.min_stage_index;
  reason = det_reason (ltb 0 h.prompt_hits) (ltb 0 h.toolchain_hits);
  affected_stage_runs = h.affected_stage_runs;
  reuse_stages = reuse_stages h.min_stage_index rows;
  recompute_stages =
      range_from h.min_stage_index (max_index h.min_stage_index rows + 1 - h.min_stage_index);
  current_stage_outputs = current_outputs [] rows;
}

-- `i` is a member of the list.
abbrev pub Member : ℕ → List ℕ → Type 0
Member i [] = ⊥
Member i (j ∷ js) = (i ≡ j) ⊎ Member i js

range_from-Member : (start n i : ℕ) → start ≤ i → i < start + n → Member i (range_from start n)
range_from-Member start zero i low high = absurd (omega arith)
range_from-Member start (suc n) i low high = elim (Bool-cases (nat_eq i start)) [
  | inl here ↦ inl (ground arith)
  | inr later ↦ inr (range_from-Member (suc start) n i (ground arith) (omega arith))
]

range_from-bounds : (start n : ℕ) → All (λ i. (start ≤ i) × (i < start + n)) (range_from start n)
range_from-bounds start zero = tt
range_from-bounds start (suc n) = (
  (omega arith, omega arith),
  weaken (range_from (suc start) n) (range_from-bounds (suc start) n),
)
  where
    weaken :
        (is : List ℕ)
        → All (λ i. (suc start ≤ i) × (i < suc start + n)) is
        → All (λ i. (start ≤ i) × (i < start + suc n)) is
    weaken [] h = tt
    weaken (i ∷ is) h = (omega arith, weaken is h.1)

-- a reused stage lies before the start, and its run succeeded with an output
reuse_stages-bounds :
    (start : ℕ) (rows : List StageRun) → All (λ i. i < start) (reuse_stages start rows)
unfolding reuse_stages
reuse_stages-bounds start [] = tt
reuse_stages-bounds start (r ∷ rows) = elim (Bool-cases (ltb r.stage_index start && has_output r)) [
  | inl reused ↦ rw (reused, reuse_stages) (ground arith, reuse_stages-bounds start rows)
  | inr other ↦ rw (other, reuse_stages) (reuse_stages-bounds start rows)
]

le-max_index :
    (start : ℕ) (rows : List StageRun) → All (λ r. r.stage_index ≤ max_index start rows) rows
unfolding max_index
le-max_index start [] = tt
le-max_index start (r ∷ []) = (omega arith, tt)
le-max_index start (r ∷ q ∷ rows) =
    (ground arith, raise_all (q ∷ rows) (le-max_index start (q ∷ rows)))
  where
    raise_all :
        (rs : List StageRun)
        → All (λ x. x.stage_index ≤ max_index start (q ∷ rows)) rs
        → All (λ x. x.stage_index ≤ max_index start (r ∷ q ∷ rows)) rs
    raise_all [] h = tt
    raise_all (x ∷ rs) h = (ground (arith, h.0), raise_all rs h.1)

recompute_covers :
    (start top : ℕ) (rows : List StageRun)
    → All (λ r. r.stage_index ≤ top) rows
    → All
        (λ r. start ≤ r.stage_index → Member r.stage_index (range_from start (top + 1 - start)))
        rows
recompute_covers start top [] h = tt
recompute_covers start top (r ∷ rows) h = (
  λ low. range_from-Member start (top + 1 - start) r.stage_index low (omega arith),
  recompute_covers start top rows h.1,
)

-- In an item of a plan every reused stage lies before the start, every recomputed stage does not,
-- and each stage run of the run from the start on is recomputed.
pub plan_item-stages :
    (h : Hit) (rows : List StageRun)
    → All (λ i. i < h.min_stage_index) (plan_item h rows).reuse_stages
      × All (λ i. h.min_stage_index ≤ i) (plan_item h rows).recompute_stages
      × All
          (λ r.
            h.min_stage_index ≤ r.stage_index
            → Member r.stage_index (plan_item h rows).recompute_stages)
          rows
unfolding plan_item
plan_item-stages h rows = (
  reuse_stages-bounds h.min_stage_index rows,
  lower (range_from h.min_stage_index n) (range_from-bounds h.min_stage_index n),
  recompute_covers h.min_stage_index (max_index h.min_stage_index rows) rows
      (le-max_index h.min_stage_index rows),
)
  where
    n : ℕ
    n = max_index h.min_stage_index rows + 1 - h.min_stage_index

    lower :
        (is : List ℕ)
        → All (λ i. (h.min_stage_index ≤ i) × (i < h.min_stage_index + n)) is
        → All (λ i. h.min_stage_index ≤ i) is
    lower [] k = tt
    lower (i ∷ is) k = (k.0.0, lower is k.1)
