-- ===== src/Regress/Drift.antt =====
-- tools/regress/dadi_regress/diff.py: two fixtures compared, by their artifacts and by the outputs at the
-- boundaries of their stages.
use dadi_runtime.Base.{
  ℕ, String, Bool, true, false, ◌&&◌, ◌||◌, Option, none, some, List, [], ◌∷◌, map, ◌≡◌, refl, ap,
  ◌==◌, if◌then◌else◌, nat_eq, same_text,
}
use dadi_runtime.Closure.{contains, difference, sorted}
use dadi_runtime.RunDiff.{insert_index}
use dadi_runtime.RunDiff.First.{same_text_self}
use dadi_runtime.Regress.{FileMeta, Boundary, Fixture}

abbrev pub names : List FileMeta → List String
names = map λ m. m.name

-- `art.get(sha)`
unfoldable pub find_meta : String → List FileMeta → Option FileMeta
find_meta sha [] = none
find_meta sha (m ∷ ms) = if m.name == sha then some m else find_meta sha ms

abbrev pub same_meta : Option FileMeta → Option FileMeta → Bool
same_meta none none = true
same_meta none (some m) = false
same_meta (some m) none = false
same_meta (some m) (some n) = nat_eq m.byte_length n.byte_length && m.sha256 == n.sha256

-- `a & b`
unfoldable pub common : List String → List String → List String
unfolding contains
common [] ys = []
common (x ∷ xs) ys = let rest = common xs ys in if contains x ys then x ∷ rest else rest

unfoldable pub changed_meta : List FileMeta → List FileMeta → List String → List String
unfolding find_meta
changed_meta as' bs [] = []
changed_meta as' bs (sha ∷ shas) =
    let rest = changed_meta as' bs shas in
    if same_meta (find_meta sha as') (find_meta sha bs) then rest else sha ∷ rest

unfoldable pub has_index : ℕ → List Boundary → Bool
has_index i [] = false
has_index i (b ∷ bs) = nat_eq b.stage_index i || has_index i bs

-- `m.get(i)` of `boundary_map`: the last boundary of an index counts
unfoldable pub output_at : ℕ → List Boundary → Option String
unfolding has_index
output_at i [] = none
output_at i (b ∷ bs) =
    let later = output_at i bs in
    if has_index i bs then later else if nat_eq b.stage_index i then b.output_sha256 else none

unfoldable pub indices : List Boundary → List ℕ → List ℕ
unfolding insert_index
indices [] is = is
indices (b ∷ bs) is = insert_index b.stage_index (indices bs is)

pub record BoundaryDiff : Type 0 where
  pub stage_index : ℕ
  pub a_output : Option String
  pub b_output : Option String

unfoldable pub boundary_diffs : List Boundary → List Boundary → List ℕ → List BoundaryDiff
unfolding output_at
boundary_diffs as' bs [] = []
boundary_diffs as' bs (i ∷ is) =
    let rest = boundary_diffs as' bs is in
    if same_text (output_at i as') (output_at i bs)
    then rest
    else record { stage_index = i; a_output = output_at i as'; b_output = output_at i bs } ∷ rest

abbrev pub first_drift : List BoundaryDiff → Option ℕ
first_drift [] = none
first_drift (d ∷ ds) = some d.stage_index

pub record DriftReport : Type 0 where
  pub a_pipeline_run_id : String
  pub b_pipeline_run_id : String
  pub added_artifacts : List String
  pub removed_artifacts : List String
  pub changed_metadata : List String
  pub diffs : List BoundaryDiff
  pub first_boundary_drift_stage_index : Option ℕ

unfoldable pub diff_fixtures : Fixture → Fixture → DriftReport
unfolding difference sorted common changed_meta indices boundary_diffs
diff_fixtures a b =
    let a_art = a.manifest.artifacts in
    let b_art = b.manifest.artifacts in
    let am = a.manifest.stage_boundaries in
    let bm = b.manifest.stage_boundaries in
    let diffs = boundary_diffs am bm (indices am (indices bm [])) in
    record {
      a_pipeline_run_id = a.manifest.pipeline_run_id;
      b_pipeline_run_id = b.manifest.pipeline_run_id;
      added_artifacts = sorted (difference (names b_art) (names a_art));
      removed_artifacts = sorted (difference (names a_art) (names b_art));
      changed_metadata = changed_meta a_art b_art (sorted (common (names a_art) (names b_art)));
      diffs = diffs;
      first_boundary_drift_stage_index = first_drift diffs;
    }

-- the boundaries agree wherever the outputs do
boundary_diffs-same :
    (as' bs : List Boundary) (is : List ℕ)
    → ((i : ℕ) → output_at i as' ≡ output_at i bs)
    → boundary_diffs as' bs is ≡ []
unfolding boundary_diffs
boundary_diffs-same as' bs [] h = refl
boundary_diffs-same as' bs (i ∷ is) h =
    rw (boundary_diffs-same as' bs is h, h i, same_text_self (output_at i bs)) refl

-- Where two fixtures have the same output at every stage index, they have no boundary diff and no first
-- drift, whatever their other artifacts are.
pub diff_fixtures-same_outputs :
    (a b : Fixture)
    → ((i : ℕ) → output_at i a.manifest.stage_boundaries ≡ output_at i b.manifest.stage_boundaries)
    → ((diff_fixtures a b).diffs ≡ [])
      × ((diff_fixtures a b).first_boundary_drift_stage_index ≡ none)
unfolding diff_fixtures
diff_fixtures-same_outputs a b h =
    let am = a.manifest.stage_boundaries in
    let bm = b.manifest.stage_boundaries in
    let e = boundary_diffs-same am bm (indices am (indices bm [])) h in (e, ap first_drift e)
