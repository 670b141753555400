-- ===== src/Planner/Query.antt =====
-- The query of the two planners: placeholders, positional parameters, the join and the groups.
use Prim.Native.String.{compare}
use text.Mathlib.Text.{is_le}
use dadi_runtime.Base.{
  ℕ, ◌+◌, String, Bool, true, false, Option, none, some, List, [], ◌∷◌, ◌++◌, ◌&&◌, ◌||◌, ◌==◌,
  if◌then◌else◌, leb, truthy, is_text, or_default, Result, ok, raised, other,
}
use dadi_runtime.Tables.{StageRun, PipelineRun}

pub record RegenerateRequest : Type 0 where
  pub old_prompt_sha256 : Option String
  pub new_prompt_sha256 : Option String
  pub old_toolchain_sha256 : Option String
  pub new_toolchain_sha256 : Option String
  pub pipeline_id : Option String
  pub created_after : Option String
  pub created_before : Option String

-- A condition of the query; each has one placeholder.
pub data Cond : Type 0 where
  sr_tenant pr_tenant pipeline_is created_after_is created_before_is prompt_is toolchain_is : Cond

-- How the database reads a text as a UUID and as a timestamp; it raises where it cannot.
pub record Casts : Type 0 where
  pub is_uuid : String → Bool
  pub timestamp : String → Option ℕ

abbrev pub Joined : Type 0
Joined = StageRun × PipelineRun

-- The condition with its parameter: `none` where the database raises.
abbrev pub holds : Casts → Cond → String → Joined → Option Bool
holds c sr_tenant p (sr, pr) = some (sr.tenant_id == p)
holds c pr_tenant p (sr, pr) = some (pr.tenant_id == p)
holds c pipeline_is p (sr, pr) = if c.is_uuid p then some (pr.pipeline_id == p) else none
holds c created_after_is p (sr, pr) = elim (c.timestamp p) [
  | none ↦ none
  | some t ↦ some (leb t pr.created_at)
]
holds c created_before_is p (sr, pr) = elim (c.timestamp p) [
  | none ↦ none
  | some t ↦ some (leb pr.created_at t)
]
holds c prompt_is p (sr, pr) = some (is_text sr.prompt_bundle_sha256 p)
holds c toolchain_is p (sr, pr) = some (sr.toolchain_manifest_sha256 == p)

-- The placeholders of a list of conditions take the first parameters; the others are left.
abbrev pub Bound : Type 0
Bound = List (Cond × String)

unfoldable pub bind_params : List Cond → List String → Option (Bound × List String)
bind_params [] ps = some ([], ps)
bind_params (c ∷ cs) [] = none
bind_params (c ∷ cs) (p ∷ ps) = elim (bind_params cs ps) [
  | none ↦ none
  | some (bs, rest) ↦ some ((c, p) ∷ bs, rest)
]

unfoldable pub any_holds : Casts → Bound → Joined → Option Bool
any_holds c [] row = some false
any_holds c ((k, p) ∷ bs) row =
    let rest = any_holds c bs row in
    elim (holds c k p row) [
      | none ↦ none
      | some b ↦ elim rest [ none ↦ none | some r ↦ some (b || r) ]
    ]

unfoldable pub all_hold : Casts → Bound → Joined → Option Bool
all_hold c [] row = some true
all_hold c ((k, p) ∷ bs) row =
    let rest = all_hold c bs row in
    elim (holds c k p row) [
      | none ↦ none
      | some b ↦ elim rest [ none ↦ none | some r ↦ some (b && r) ]
    ]

-- FROM stage_runs sr JOIN pipeline_runs pr ON pr.pipeline_run_id = sr.pipeline_run_id
unfoldable pub join_runs : List PipelineRun → StageRun → List Joined
join_runs [] sr = []
join_runs (pr ∷ prs) sr =
    let rest = join_runs prs sr in
    if pr.pipeline_run_id == sr.pipeline_run_id then (sr, pr) ∷ rest else rest

unfoldable pub join : List StageRun → List PipelineRun → List Joined
unfolding join_runs
join [] prs = []
join (sr ∷ srs) prs = join_runs prs sr ++ join srs prs

-- WHERE (match OR …) AND (where AND …): the stage runs of the rows that pass
unfoldable pub pass : Casts → Bound → Bound → List Joined → Result (List StageRun)
unfolding any_holds all_hold
pass c ms ws [] = ok []
pass c ms ws (row ∷ rows) =
    let rest = pass c ms ws rows in
    elim (any_holds c ms row) [
      | none ↦ raised (other "DataError")
      | some m ↦ elim (all_hold c ws row) [
        | none ↦ raised (other "DataError")
        | some w ↦ elim rest [
          | raised e ↦ raised e
          | ok passed ↦ ok (if m && w then row.0 ∷ passed else passed)
        ]
      ]
    ]

-- A row of the answer, for one pipeline run.
pub record Hit : Type 0 where
  pub pipeline_run_id : String
  pub min_stage_index : ℕ
  pub prompt_hits : ℕ
  pub toolchain_hits : ℕ
  pub affected_stage_runs : ℕ

abbrev pub least : ℕ → ℕ → ℕ
least a b = if leb a b then a else b

abbrev pub one_if : Bool → ℕ
one_if true = 1
one_if false = 0

-- MIN, SUM(CASE …), SUM(CASE …), COUNT(*)
abbrev pub first_hit : String → String → StageRun → Hit
first_hit prompt_cmp toolchain_cmp sr = record {
  pipeline_run_id = sr.pipeline_run_id;
  min_stage_index = sr.stage_index;
  prompt_hits = one_if (is_text sr.prompt_bundle_sha256 prompt_cmp);
  toolchain_hits = one_if (sr.toolchain_manifest_sha256 == toolchain_cmp);
  affected_stage_runs = 1;
}

abbrev pub more_hits : Hit → Hit → Hit
more_hits a b = record a {
  min_stage_index = least a.min_stage_index b.min_stage_index;
  prompt_hits = a.prompt_hits + b.prompt_hits;
  toolchain_hits = a.toolchain_hits + b.toolchain_hits;
  affected_stage_runs = a.affected_stage_runs + b.affected_stage_runs;
}

-- GROUP BY sr.pipeline_run_id ORDER BY sr.pipeline_run_id ASC: a row is put in its group, or makes
-- one in its place.
unfoldable pub add_hit : Hit → List Hit → List Hit
add_hit h [] = h ∷ []
add_hit h (g ∷ gs) =
    if h.pipeline_run_id == g.pipeline_run_id
    then more_hits h g ∷ gs
    else if is_le (compare h.pipeline_run_id g.pipeline_run_id)
    then h ∷ g ∷ gs
    else g ∷ add_hit h gs

unfoldable pub group_hits : String → String → List StageRun → List Hit
unfolding add_hit
group_hits prompt_cmp toolchain_cmp [] = []
group_hits prompt_cmp toolchain_cmp (sr ∷ srs) =
    add_hit (first_hit prompt_cmp toolchain_cmp sr) (group_hits prompt_cmp toolchain_cmp srs)

-- The answer of the query: the first two parameters go to the two CASE expressions, the next to the
-- conditions of the match, the last to those of the filter.
unfoldable pub answer :
    Casts
    → List Cond
    → List Cond
    → List String
    → List StageRun
    → List PipelineRun
    → Result (List Hit)
unfolding bind_params join pass group_hits
answer c match_conds where_conds (prompt_cmp ∷ toolchain_cmp ∷ ps) srs prs =
    elim (bind_params match_conds ps) [
      | none ↦ raised (other "ProgrammingError")
      | some (ms, rest) ↦ elim (bind_params where_conds rest) [
        | none ↦ raised (other "ProgrammingError")
        | some (ws, _) ↦ elim (pass c ms ws (join srs prs)) [
          | raised e ↦ raised e
          | ok passed ↦ ok (group_hits prompt_cmp toolchain_cmp passed)
        ]
      ]
    ]
answer c match_conds where_conds ps srs prs = raised (other "ProgrammingError")

-- What is appended to a list of conditions, or of parameters, where the request gives a value.
abbrev pub given {ℓ} : {A : Type ℓ} → Option String → (String → A) → List A
given o f = if truthy o then f (or_default o "") ∷ [] else []
