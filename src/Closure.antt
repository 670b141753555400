-- ===== src/Closure.antt =====
-- services/gateway/dadi_gateway/closure_verify.py: whether a manifest lists every artifact that the
-- stage runs of its run name. A Python `set` is the list of its members in the order in which they
-- were added.
pub mod Laws
use Prim.Native.String.{compare}
use text.Mathlib.Text.{is_le}
use dadi_runtime.Base.{
  ℕ, String, Bool, true, false, Option, none, some, List, [], ◌∷◌, ◌&&◌, ◌||◌, ◌==◌, not,
  if◌then◌else◌, length, nat_eq, truthy, or_default, select, insert, Json, Items, nil, cons, Fields,
  obj, arr, get_field, as_text,
}
use dadi_runtime.Tables.{StageRun, Db}
use dadi_runtime.Planner.Items.{by_index}

unfoldable pub contains : String → List String → Bool
contains s [] = false
contains s (x ∷ xs) = s == x || contains s xs

-- `s.add(x)`
unfoldable pub add : String → List String → List String
unfolding contains
add s xs = if contains s xs then xs else insert xs s

-- `if sha: s.add(sha)`
unfoldable pub add_sha : Option String → List String → List String
unfolding add
add_sha o xs = if truthy o then add (or_default o "") xs else xs

abbrev pub of_run : String → String → StageRun → Bool
of_run tenant run r = r.tenant_id == tenant && r.pipeline_run_id == run

abbrev pub add_row : StageRun → List String → List String
add_row r xs = add_sha r.deterministic_error_artifact_sha256 (
    add_sha r.output_artifact_sha256 (
      add_sha (some r.input_artifact_sha256)
        (add_sha r.prompt_bundle_sha256 (add_sha (some r.toolchain_manifest_sha256) xs))))

unfoldable pub add_rows : List StageRun → List String → List String
unfolding add_sha
add_rows [] xs = xs
add_rows (r ∷ rows) xs = add_rows rows (add_row r xs)

unfoldable pub expected_stage_runs_v1_artifacts : Db → String → String → List String
unfolding add_rows
expected_stage_runs_v1_artifacts db tenant run =
    add_rows (select (of_run tenant run) db.stage_runs) []

pub record SourceRef : Type 0 where
  pub ref_type : String
  pub stage_run_id : String
  pub stage_index : ℕ
  pub stage_name : String

abbrev pub Sources : Type 0
Sources = List (String × List SourceRef)

-- `src.setdefault(sha, []).append(ref)`
unfoldable pub add_source : String → SourceRef → Sources → Sources
add_source sha ref [] = (sha, ref ∷ []) ∷ []
add_source sha ref ((k, refs) ∷ src) =
    if k == sha then (k, insert refs ref) ∷ src else (k, refs) ∷ add_source sha ref src

-- the local function `add`, which skips a missing digest
abbrev pub add_ref : Option String → String → StageRun → Sources → Sources
add_ref o ref_type r src =
    if truthy o
    then add_source (or_default o "")
        (record {
          ref_type = ref_type;
          stage_run_id = r.stage_run_id;
          stage_index = r.stage_index;
          stage_name = r.stage_name;
        })
        src
    else src

abbrev pub add_refs : StageRun → Sources → Sources
add_refs r src = add_ref r.deterministic_error_artifact_sha256 "error" r (
    add_ref r.output_artifact_sha256 "output" r (
      add_ref (some r.input_artifact_sha256) "input" r (
        add_ref r.prompt_bundle_sha256 "prompt" r
          (add_ref (some r.toolchain_manifest_sha256) "toolchain" r src))))

unfoldable pub add_all_refs : List StageRun → Sources → Sources
unfolding add_source
add_all_refs [] src = src
add_all_refs (r ∷ rows) src = add_all_refs rows (add_refs r src)

unfoldable pub expected_stage_runs_v1_sources : Db → String → String → Sources
unfolding add_all_refs
expected_stage_runs_v1_sources db tenant run =
    add_all_refs (by_index (select (of_run tenant run) db.stage_runs)) []

-- `sha in src`
unfoldable pub has_source : String → Sources → Bool
has_source sha [] = false
has_source sha ((k, refs) ∷ src) = sha == k || has_source sha src

-- `a["sha256"]` where `a` is a dict with a text there
abbrev pub sha_of : Json → Option String
sha_of (obj fields) = as_text (get_field fields "sha256")
sha_of _ = none

unfoldable pub listed_items : Items → List String → List String
unfolding add
listed_items nil xs = xs
listed_items (cons a as') xs =
    listed_items as' (elim (sha_of a) [ none ↦ xs | some sha ↦ add sha xs ])

-- `manifest.get("artifacts", []) or []`: the manifest was validated, so a value there is a list.
abbrev pub listed : Option Json → List String
listed (some (arr items)) = listed_items items []
listed _ = []

-- `a - b`
unfoldable pub difference : List String → List String → List String
difference [] ys = []
difference (x ∷ xs) ys = let rest = difference xs ys in if contains x ys then rest else x ∷ rest

unfoldable pub insert_sorted : String → List String → List String
insert_sorted s [] = s ∷ []
insert_sorted s (x ∷ xs) = if is_le (compare s x) then s ∷ x ∷ xs else x ∷ insert_sorted s xs

unfoldable pub sorted : List String → List String
unfolding insert_sorted
sorted [] = []
sorted (x ∷ xs) = insert_sorted x (sorted xs)

pub record ClosureReport : Type 0 where
  pub closed : Bool
  pub missing_expected_artifacts : List String
  pub extra_manifest_artifacts : List String

unfoldable pub verify_closure_stage_runs_v1 : Fields → List String → ClosureReport
unfolding listed_items difference sorted
verify_closure_stage_runs_v1 manifest expected =
    let present = listed (get_field manifest "artifacts") in
    let missing = sorted (difference expected present) in
    record {
      closed = nat_eq (length missing) 0;
      missing_expected_artifacts = missing;
      extra_manifest_artifacts = sorted (difference present expected);
    }
