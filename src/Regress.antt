-- ===== src/Regress.antt =====
-- tools/regress/dadi_regress/record.py, fixture.py and verify.py: a pipeline run is recorded
-- as a fixture, the bytes of its artifacts beside a manifest, and a fixture is verified. A fixture is
-- written into a new directory or zip file, and read back as it was written.
pub mod Recorded
pub mod Drift
use dadi_runtime.Base.{
  ℕ, String, Bool, true, false, ◌&&◌, ◌||◌, not, Option, none, some, List, [], ◌∷◌, ◌++◌, map, ◌==◌,
  Json, Fields, obj, get_field, as_text, Result, ok, raised, key_error, runtime_error, value_error,
  other, if◌then◌else◌, nonempty, truthy, or_default, length, select_one, select, null, bool, int,
  float, str, arr,
}
use dadi_runtime.Base.Results.{◌>>=◌}
use dadi_runtime.Tables.{StageRun}
use dadi_runtime.Planner.Items.{by_index}
use dadi_runtime.Pack.{Blob, has_digest}

-- A `dict` from digests to bytes, and the directory `artifacts` of a fixture.
abbrev pub Files : Type 0
Files = List (String × List ℕ)

unfoldable pub find_file : String → Files → Option (List ℕ)
find_file sha [] = none
find_file sha ((k, bytes) ∷ files) = if k == sha then some bytes else find_file sha files

-- `artifacts[sha] = bytes`
unfoldable pub put_file : String → List ℕ → Files → Files
put_file sha bytes [] = (sha, bytes) ∷ []
put_file sha bytes ((k, old) ∷ files) =
    let rest = put_file sha bytes files in if k == sha then (k, bytes) ∷ files else (k, old) ∷ rest

abbrev pub content_of : String → Blob → Result (List ℕ)
content_of sha b = elim b.content [
  | none ↦ raised (runtime_error "Artifact content not available in postgres backend")
  | some bytes ↦
      if b.storage_backend == "postgres"
      then ok bytes
      else raised (runtime_error "Artifact content not available in postgres backend")
]

abbrev pub bytes_of_row : String → Option Blob → Result (List ℕ)
bytes_of_row sha none = raised (key_error "Artifact not found")
bytes_of_row sha (some b) = content_of sha b

-- `_fetch_artifact_bytes`
unfoldable pub fetch_artifact_bytes : List Blob → String → Result (List ℕ)
fetch_artifact_bytes blobs sha = bytes_of_row sha (select_one (has_digest sha) blobs)

abbrev pub bytes_or_fetch : List Blob → String → Option (List ℕ) → Result (List ℕ)
bytes_or_fetch blobs sha (some (b ∷ bytes)) = ok (b ∷ bytes)
bytes_or_fetch blobs sha _ = fetch_artifact_bytes blobs sha

-- `artifacts.get(sha) or _fetch_artifact_bytes(c, sha)`, stored under the digest
unfoldable pub keep_artifact : List Blob → String → Files → Result Files
unfolding find_file put_file fetch_artifact_bytes
keep_artifact blobs sha files = do
  bytes ← bytes_or_fetch blobs sha (find_file sha files)
  ok (put_file sha bytes files)

-- a round of the loop over the stage runs
unfoldable pub keep_stage : List Blob → StageRun → Files → Result Files
unfolding keep_artifact
keep_stage blobs r files = do
  with_input ← keep_artifact blobs r.input_artifact_sha256 files
  if truthy r.output_artifact_sha256
      then keep_artifact blobs (or_default r.output_artifact_sha256 "") with_input
      else ok with_input

unfoldable pub keep_stages : List Blob → List StageRun → Files → Result Files
unfolding keep_stage
keep_stages blobs [] files = ok files
keep_stages blobs (r ∷ rows) files = keep_stage blobs r files >>= keep_stages blobs rows

abbrev pub put_fetched : String → Result (List ℕ) → Files → Files
put_fetched sha (raised e) files = files
put_fetched sha (ok bytes) files = put_file sha bytes files

-- the bytes of toolchains and prompts, where they are stored
unfoldable pub keep_pointers : List Blob → List String → Files → Files
unfolding put_file fetch_artifact_bytes
keep_pointers blobs [] files = files
keep_pointers blobs (sha ∷ shas) files =
    keep_pointers blobs shas
      (if nonempty sha then put_fetched sha (fetch_artifact_bytes blobs sha) files else files)

pub record Boundary : Type 0 where
  pub stage_index : ℕ
  pub stage_name : String
  pub stage_schema_version : String
  pub status : String
  pub toolchain_manifest_sha256 : String
  pub prompt_bundle_sha256 : Option String
  pub input_sha256 : String
  pub output_sha256 : Option String

abbrev pub boundary_of : StageRun → Boundary
boundary_of r = record {
  stage_index = r.stage_index;
  stage_name = r.stage_name;
  stage_schema_version = r.stage_schema_version;
  status = r.status;
  toolchain_manifest_sha256 = r.toolchain_manifest_sha256;
  prompt_bundle_sha256 = r.prompt_bundle_sha256;
  input_sha256 = r.input_artifact_sha256;
  output_sha256 = if truthy r.output_artifact_sha256 then r.output_artifact_sha256 else none;
}

pub record FileMeta : Type 0 where
  pub name : String
  pub byte_length : ℕ
  pub sha256 : String

pub record Manifest : Type 0 where
  pub pipeline_run_id : String
  pub docpack_sha256 : String
  pub artifacts : List FileMeta
  pub stage_boundaries : List Boundary

unfoldable pub metas : (List ℕ → String) → Files → List FileMeta
metas sha256_hex [] = []
metas sha256_hex ((sha, bytes) ∷ files) =
    record { name = sha; byte_length = length bytes; sha256 = sha256_hex bytes }
    ∷ metas sha256_hex files

-- `first_input.get("docpack_sha256")`, a text
abbrev pub docpack_of : Option Json → Result String
docpack_of none = raised (value_error "json")
docpack_of (some (obj d)) =
    let sha = as_text (get_field d "docpack_sha256") in
    if truthy sha
    then ok (or_default sha "")
    else raised (runtime_error "Unable to infer docpack_sha256")
docpack_of (some _) = raised (other "AttributeError")

abbrev pub toolchain_of : StageRun → String
toolchain_of r = r.toolchain_manifest_sha256

-- Missing prompts are empty here, and are left out as empty ones are.
abbrev pub prompt_of : StageRun → String
prompt_of r = or_default r.prompt_bundle_sha256 ""

module _ (sha256_hex : List ℕ → String) (loads : List ℕ → Option Json) (blobs : List Blob) where
  -- From the first stage run on: its input names the docpack.
  unfoldable pub record_rows : String → List StageRun → Result (Manifest × Files)
  unfolding metas keep_stages keep_pointers put_file fetch_artifact_bytes
  record_rows run [] = raised (key_error "No stage_runs found for pipeline_run_id")
  record_rows run (r ∷ rows) = do
    first_bytes ← fetch_artifact_bytes blobs r.input_artifact_sha256
    docpack_sha ← docpack_of (loads first_bytes)
    docpack_bytes ← fetch_artifact_bytes blobs docpack_sha
    files ←
        keep_stages blobs (r ∷ rows)
          (put_file docpack_sha docpack_bytes (put_file r.input_artifact_sha256 first_bytes []))
    let pointers = map toolchain_of (r ∷ rows) ++ map prompt_of (r ∷ rows) in
        let all = keep_pointers blobs pointers files in
        ok (
          record {
            pipeline_run_id = run;
            docpack_sha256 = docpack_sha;
            artifacts = metas sha256_hex all;
            stage_boundaries = map boundary_of (r ∷ rows);
          },
          all,
        )

  -- `record_fixture`: the stage runs of the run in order
  unfoldable pub record_fixture : List StageRun → String → Result (Manifest × Files)
  unfolding record_rows by_index
  record_fixture stage_runs run =
      record_rows run (by_index (select (λ r. r.pipeline_run_id == run) stage_runs))

pub record Fixture : Type 0 where
  pub manifest : Manifest
  pub files : Files

abbrev pub write_fixture : Manifest × Files → Fixture
write_fixture (m, files) = record { manifest = m; files = files }

pub record FileMismatch : Type 0 where
  pub sha : String
  pub computed : String

pub record FixtureReport : Type 0 where
  pub passes : Bool
  pub missing_files : List String
  pub hash_mismatches : List FileMismatch

abbrev pub passing : FixtureReport
passing = record { passes = true; missing_files = []; hash_mismatches = [] }

abbrev pub missing_file : String → FixtureReport → FixtureReport
missing_file sha report = record report {
  passes = false;
  missing_files = sha ∷ report.missing_files;
}

abbrev pub wrong_file : String → String → FixtureReport → FixtureReport
wrong_file sha h report = record report {
  passes = false;
  hash_mismatches = record { sha = sha; computed = h } ∷ report.hash_mismatches;
}

abbrev pub check_file :
    (List ℕ → String) → FileMeta → Option (List ℕ) → FixtureReport → FixtureReport
check_file sha256_hex meta none report = missing_file meta.name report
check_file sha256_hex meta (some bytes) report =
    let h = sha256_hex bytes in
    if h == meta.name && h == meta.sha256 then report else wrong_file meta.name h report

unfoldable pub check_files : (List ℕ → String) → Files → List FileMeta → FixtureReport
unfolding find_file
check_files sha256_hex files [] = passing
check_files sha256_hex files (meta ∷ rest) =
    check_file sha256_hex meta (find_file meta.name files) (check_files sha256_hex files rest)

-- `verify_fixture` without schemas
unfoldable pub verify_fixture : (List ℕ → String) → Fixture → FixtureReport
unfolding check_files
verify_fixture sha256_hex fx = check_files sha256_hex fx.files fx.manifest.artifacts
