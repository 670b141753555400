-- ===== src/RunDiff.antt =====
-- services/gateway/dadi_gateway/diff_routes.py: two runs compared stage by stage. A `dict` of the
-- stages by index is the list of its entries; `sorted(set(…) | set(…))` is the list of the indices in
-- ascending order, each once.
pub mod First
pub mod Earliest
use dadi_runtime.Base.{
  ℕ, String, Bool, true, false, Option, none, some, List, [], ◌∷◌, ◌++◌, ◌&&◌, ◌||◌, not, ◌==◌,
  Exec, ok, raised, raise, pure, gets, http, ◌>>=◌, if◌then◌else◌, ltb, nat_eq, same_text, is_none,
  select, select_one, map,
}
use dadi_runtime.Tables.{StageRun, PipelineRun, Db}
use dadi_runtime.Planner.Items.{by_index}
use dadi_runtime.Requests.{Request, tenant_id}

abbrev pub Stages : Type 0
Stages = List (ℕ × StageRun)

-- `out[index] = …`: a later row of one index takes the place of an earlier one.
unfoldable pub put_stage : ℕ → StageRun → Stages → Stages
put_stage i r [] = (i, r) ∷ []
put_stage i r ((j, q) ∷ m) = if nat_eq i j then (i, r) ∷ m else (j, q) ∷ put_stage i r m

unfoldable pub stage_map_from : List StageRun → Stages → Stages
unfolding put_stage
stage_map_from [] out = out
stage_map_from (r ∷ rows) out = stage_map_from rows (put_stage r.stage_index r out)

abbrev pub stage_map : List StageRun → Stages
stage_map rows = stage_map_from rows []

-- `m.get(i)`
unfoldable pub get_stage : ℕ → Stages → Option StageRun
get_stage i [] = none
get_stage i ((j, q) ∷ m) = if nat_eq i j then some q else get_stage i m

unfoldable pub insert_index : ℕ → List ℕ → List ℕ
insert_index i [] = i ∷ []
insert_index i (j ∷ js) =
    let rest = insert_index i js in
    if ltb i j then i ∷ j ∷ js else if nat_eq i j then j ∷ js else j ∷ rest

unfoldable pub add_indices : Stages → List ℕ → List ℕ
unfolding insert_index
add_indices [] js = js
add_indices ((i, r) ∷ m) js = insert_index i (add_indices m js)

abbrev pub all_indices : Stages → Stages → List ℕ
all_indices ma mb = add_indices ma (add_indices mb [])

pub data Comparison : Type 0 where
  added_in_b : ℕ → Option StageRun → Comparison
  removed_in_b : ℕ → StageRun → Comparison
  same : ℕ → StageRun → StageRun → Comparison
  diff : ℕ → StageRun → StageRun → Bool → Bool → Bool → Comparison

abbrev pub same_output : StageRun → StageRun → Bool
same_output a b = same_text a.output_artifact_sha256 b.output_artifact_sha256

abbrev pub same_prompt : StageRun → StageRun → Bool
same_prompt a b = same_text a.prompt_bundle_sha256 b.prompt_bundle_sha256

abbrev pub same_toolchain : StageRun → StageRun → Bool
same_toolchain a b = a.toolchain_manifest_sha256 == b.toolchain_manifest_sha256

-- One turn of the loop, but for `first_diff`.
unfoldable pub compare_stage : ℕ → Option StageRun → Option StageRun → Comparison
compare_stage i none sb = added_in_b i sb
compare_stage i (some a) none = removed_in_b i a
compare_stage i (some a) (some b) =
    if same_output a b && same_prompt a b && same_toolchain a b
    then same i a b
    else diff i a b (same_output a b) (same_prompt a b) (same_toolchain a b)

-- The class of the first stage that is not the same.
unfoldable pub classify : Bool → Bool → Bool → String
classify false false false = "output_prompt_toolchain"
classify false false true = "output_prompt"
classify false true false = "output_toolchain"
classify false true true = "output"
classify true false true = "prompt"
classify true true false = "toolchain"
classify true _ _ = "metadata"

unfoldable pub class_of : Comparison → Option String
unfolding classify
class_of (added_in_b i sb) = some "structure"
class_of (removed_in_b i a) = some "structure"
class_of (same i a b) = none
class_of (diff i a b o p t) = some (classify o p t)

pub record Diff : Type 0 where
  pub first_diff : Option ℕ
  pub classification : Option String
  pub comparisons : List Comparison

-- `if first_diff is None:` the index and the class of this stage
unfoldable pub note : ℕ → Comparison → Diff → Diff
unfolding class_of
note i c d = record {
  first_diff =
      (if is_none d.first_diff && not (is_none (class_of c)) then some i else d.first_diff);
  classification =
      (if is_none d.first_diff && not (is_none (class_of c)) then class_of c else d.classification);
  comparisons = d.comparisons ++ c ∷ [];
}

unfoldable pub compare_stages : Stages → Stages → List ℕ → Diff → Diff
unfolding note compare_stage
compare_stages ma mb [] d = d
compare_stages ma mb (i ∷ is') d =
    compare_stages ma mb is' (note i (compare_stage i (get_stage i ma) (get_stage i mb)) d)

abbrev pub no_diff : Diff
no_diff = record { first_diff = none; classification = none; comparisons = [] }

abbrev pub rows_of : String → String → Db → List StageRun
rows_of t run db =
    by_index (select (λ r. r.tenant_id == t && r.pipeline_run_id == run) db.stage_runs)

abbrev pub diff_rows : List StageRun → List StageRun → Diff
diff_rows rows_a rows_b =
    let ma = stage_map rows_a in
    let mb = stage_map rows_b in compare_stages ma mb (all_indices ma mb) no_diff

abbrev pub find_run : String → String → Db → Option PipelineRun
find_run t run db = select_one (λ r. r.tenant_id == t && r.pipeline_run_id == run) db.pipeline_runs

unfoldable pub diff_runs : Request → String → String → Exec Db (PipelineRun × PipelineRun × Diff)
unfolding compare_stages stage_map_from add_indices
diff_runs request run_a run_b = do
  t ← tenant_id request
  ra ← gets (find_run t run_a)
  rb ← gets (find_run t run_b)
  d ← gets (λ db. diff_rows (rows_of t run_a db) (rows_of t run_b db))
  elim ra [
    | none ↦ raise (http 404 "One or both runs not found")
    | some a ↦ elim rb [
      | none ↦ raise (http 404 "One or both runs not found")
      | some b ↦ pure (a, b, d)
    ]
  ]
