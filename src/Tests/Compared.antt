-- ===== src/Tests/Compared.antt =====
-- Witnesses for the comparison of runs and for the closure check.
use dadi_runtime.Base.{
  String, true, some, List, [], ◌∷◌, ◌≡◌, ◌↔◌, nil, cons, Fields, end, field, str, arr, obj,
  get_field, select,
}
use dadi_runtime.Tables.{StageRun}
use dadi_runtime.Closure.{
  contains, listed, of_run, verify_closure_stage_runs_v1, expected_stage_runs_v1_artifacts,
}
use dadi_runtime.Closure.Laws.{any_refers, verify_closure_iff}
use dadi_runtime.RunDiff.{
  stage_map, stage_map_from, put_stage, get_stage, add_indices, insert_index, compare_stages,
  compare_stage, note, class_of, classify,
}
use dadi_runtime.RunDiff.Earliest.{Alike, IsFirst, diff_rows-IsFirst}
use dadi_runtime.Tests.{run_db, stage_row}

abbrev rows_a : List StageRun
rows_a = stage_row "r1" 0 "o0" ∷ stage_row "r1" 1 "o1" ∷ []

abbrev rows_b : List StageRun
rows_b = stage_row "r2" 0 "o0" ∷ stage_row "r2" 1 "changed" ∷ []

diff_rows-IsFirst_example :
    IsFirst (λ i. Alike (get_stage i (stage_map rows_a)) (get_stage i (stage_map rows_b))) (some 1)
unfolding stage_map_from put_stage get_stage add_indices insert_index compare_stages compare_stage
    note class_of classify
diff_rows-IsFirst_example = diff_rows-IsFirst rows_a rows_b

abbrev manifest : Fields
manifest =
    field "artifacts"
      (arr (
        cons (obj (field "sha256" (str "tool") end))
          (cons (obj (field "sha256" (str "o0") end)) nil)))
      end

verify_closure_iff_example :
    ((verify_closure_stage_runs_v1 manifest
        (expected_stage_runs_v1_artifacts run_db "acme" "r1")).closed
      ≡ true)
    ↔ ((s : String)
        → any_refers s (select (of_run "acme" "r1") run_db.stage_runs) ≡ true
        → contains s (listed (get_field manifest "artifacts")) ≡ true)
verify_closure_iff_example = verify_closure_iff run_db "acme" "r1" manifest
