-- ===== src/Registry.antt =====
-- services/orchestrator/dadi_orchestrator/schema_registry.py: artifacts are validated by the schema
-- that their `schema_version` names, and rejected where there is none. The JSON Schema validators
-- of the package `jsonschema` are parameters: a validator is the function that lists the errors of
-- a document, in the order of `sorted(…, key=(path, message))`.
pub mod Verdicts
use dadi_runtime.Base.{
  ℕ, String, Bool, true, false, Option, none, some, List, [], ◌∷◌, ◌==◌, ◌&&◌, if◌then◌else◌,
  nonempty, truthy, or_default, Items, nil, cons, Fields, end, field, str, arr, obj, get_field,
  as_text, texts, Result, ok, raised, other,
}

-- `e.path`, `e.schema_path` and `e.message` of a `jsonschema` error
pub record SchemaError : Type 0 where
  pub path : Items
  pub schema_path : Items
  pub message : String

abbrev pub Validator : Type 0
Validator = Fields → List SchemaError

-- `_validators`, keyed by schema version
abbrev pub Registry : Type 0
Registry = List (String × Validator)

unfoldable pub find_validator : String → Registry → Option Validator
find_validator sv [] = none
find_validator sv ((v, validator) ∷ rest) =
    if v == sv then some validator else find_validator sv rest

-- `_load`: each file that the index names is read and its schema checked; the first that fails
-- stops the construction.
unfoldable pub load : (String → Result Validator) → List (String × String) → Result Registry
load read_schema [] = ok []
load read_schema ((sv, filename) ∷ index) =
    let rest = load read_schema index in
    elim (read_schema filename) [
      | raised e ↦ raised e
      | ok validator ↦ elim rest [ raised e ↦ raised e | ok r ↦ ok ((sv, validator) ∷ r) ]
    ]

pub record ValidationResult : Type 0 where
  pub valid : Bool
  pub schema_version : String
  pub sha256 : Option String
  pub error_record : Option Fields

abbrev pub error_record : String → String → String → Items → Fields
error_record target_sv error_code message errors =
    field "schema_version" (str "validation_error-v1") (
      field "target_schema_version" (str target_sv) (
        field "error_code" (str error_code)
          (field "message" (str message) (field "errors" (arr errors) end))))

abbrev pub compact : List SchemaError → Items
compact [] = nil
compact (e ∷ es) =
    cons
      (obj (
        field "path" (arr e.path)
          (field "schema_path" (arr e.schema_path) (field "message" (str e.message) end))))
      (compact es)

abbrev pub invalid : String → Fields → ValidationResult
invalid sv err = record {
  valid = false;
  schema_version = sv;
  sha256 = none;
  error_record = some err;
}

-- `f"Unknown schema_version: {sv}"` is the parameter `unknown_text`.
pub record Digest : Type 0 where
  pub sha256_hex : List ℕ → String
  pub canonical_json_bytes : Fields → List ℕ
  pub unknown_text : String → String

abbrev pub unknown_errors : Digest → String → Items
unknown_errors d sv =
    cons
      (obj (
        field "path" (arr (texts ("schema_version" ∷ [])))
          (field "message" (str (d.unknown_text sv)) end)))
      nil

-- The errors of the validator that was found, or the digest of the canonical bytes.
unfoldable pub verdict : Digest → String → Fields → List SchemaError → ValidationResult
verdict d sv artifact [] = record {
  valid = true;
  schema_version = sv;
  sha256 = some (d.sha256_hex (d.canonical_json_bytes artifact));
  error_record = none;
}
verdict d sv artifact (e ∷ es) = invalid sv (
    error_record sv "schema_validation_failed" "Artifact failed JSON Schema validation"
      (compact (e ∷ es)))

unfoldable pub validate_version : Digest → Registry → Fields → Option String → ValidationResult
unfolding verdict find_validator
validate_version d reg artifact none = invalid "(missing)" (
    error_record "(missing)" "missing_schema_version"
      "Missing required string field: schema_version" nil)
validate_version d reg artifact (some sv) =
    if nonempty sv
    then elim (find_validator sv reg) [
      | none ↦ invalid sv (
          error_record sv "unknown_schema_version" "No schema registered for schema_version"
            (unknown_errors d sv))
      | some validator ↦ verdict d sv artifact (validator artifact)
    ]
    else invalid "(missing)" (
        error_record "(missing)" "missing_schema_version"
          "Missing required string field: schema_version" nil)

unfoldable pub validate : Digest → Registry → Fields → ValidationResult
unfolding validate_version
validate d reg artifact =
    validate_version d reg artifact (as_text (get_field artifact "schema_version"))

-- Whether the artifact is valid, a digest, and the artifact or its error record. The `assert` fails
-- where there is neither a digest nor an error record.
unfoldable pub validate_or_error_artifact :
    Digest → Registry → Fields → Result (Bool × String × Fields)
unfolding validate
validate_or_error_artifact d reg artifact =
    let res = validate d reg artifact in
    if res.valid && truthy res.sha256
    then ok (true, or_default res.sha256 "", artifact)
    else elim res.error_record [
      | none ↦ raised (other "AssertionError")
      | some err ↦ ok (false, d.sha256_hex (d.canonical_json_bytes err), err)
    ]
