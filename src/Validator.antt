-- ===== src/Validator.antt =====
-- tools/validator/validator.py: the validator that is shipped apart from the orchestrator. Its result
-- carries the canonical bytes. The validators of `jsonschema` are parameters, as in Registry.
use dadi_runtime.Base.{
  ℕ, String, Bool, true, false, Option, none, some, List, [], ◌∷◌, ◌≡◌, ◌≢◌, refl, arith, ◌&&◌,
  if◌then◌else◌, nonempty, truthy, or_default, Option-cases, inl, inr, Fields, nil, get_field,
  as_text, Result, ok, raised, other,
}
use dadi_runtime.Registry.{
  SchemaError, Registry, Digest, error_record, compact, unknown_errors, find_validator, verdict,
  validate_version, validate, validate_or_error_artifact,
}

pub record Checked : Type 0 where
  pub valid : Bool
  pub schema_version : String
  pub sha256 : Option String
  pub canonical_bytes : Option (List ℕ)
  pub error_record : Option Fields

abbrev pub checked_invalid : String → Fields → Checked
checked_invalid sv err = record {
  valid = false;
  schema_version = sv;
  sha256 = none;
  canonical_bytes = none;
  error_record = some err;
}

-- the errors of the validator that was found, or the bytes and their digest
unfoldable pub check_errors : Digest → String → Fields → List SchemaError → Checked
check_errors d sv artifact [] =
    let b = d.canonical_json_bytes artifact in
    record {
      valid = true;
      schema_version = sv;
      sha256 = some (d.sha256_hex b);
      canonical_bytes = some b;
      error_record = none;
    }
check_errors d sv artifact (e ∷ es) = checked_invalid sv (
    error_record sv "schema_validation_failed" "Artifact failed JSON Schema validation"
      (compact (e ∷ es)))

abbrev pub missing_version : Checked
missing_version = checked_invalid "(missing)" (
    error_record "(missing)" "missing_schema_version"
      "Artifact is missing required string field: schema_version" nil)

unfoldable pub check_version : Digest → Registry → Fields → Option String → Checked
unfolding check_errors
check_version d reg artifact none = missing_version
check_version d reg artifact (some sv) =
    if nonempty sv
    then elim (find_validator sv reg) [
      | none ↦ checked_invalid sv (
          error_record sv "unknown_schema_version" "No schema registered for schema_version"
            (unknown_errors d sv))
      | some validator ↦ check_errors d sv artifact (validator artifact)
    ]
    else missing_version

unfoldable pub check : Digest → Registry → Fields → Checked
unfolding check_version
check d reg artifact = check_version d reg artifact (as_text (get_field artifact "schema_version"))

-- the truth value of `Optional[bytes]`
abbrev pub has_bytes : Option (List ℕ) → Bool
has_bytes none = false
has_bytes (some []) = false
has_bytes (some (b ∷ bs)) = true

abbrev pub hash_checked : Digest → Fields → Checked → Result (Bool × String × Fields)
hash_checked d artifact res =
    if res.valid && truthy res.sha256 && has_bytes res.canonical_bytes
    then ok (true, or_default res.sha256 "", artifact)
    else elim res.error_record [
      | none ↦ raised (other "AssertionError")
      | some err ↦ ok (false, d.sha256_hex (d.canonical_json_bytes err), err)
    ]

unfoldable pub validate_and_hash : Digest → Registry → Fields → Result (Bool × String × Fields)
unfolding check
validate_and_hash d reg artifact = hash_checked d artifact (check d reg artifact)

agrees_errors :
    (d : Digest) (sv : String) (artifact : Fields) (errors : List SchemaError)
    → has_bytes (some (d.canonical_json_bytes artifact)) ≡ true
    → let res = verdict d sv artifact errors in
      let res' = check_errors d sv artifact errors in
      (res'.valid ≡ res.valid)
      × (res'.sha256 ≡ res.sha256)
      × (res'.error_record ≡ res.error_record)
      × (has_bytes res'.canonical_bytes ≡ res.valid)
unfolding verdict check_errors
agrees_errors d sv artifact [] h = (refl, refl, refl, h)
agrees_errors d sv artifact (e ∷ es) h = (refl, refl, refl, refl)

agrees_version :
    (d : Digest) (reg : Registry) (artifact : Fields) (sv : String)
    → nonempty sv ≡ true
    → has_bytes (some (d.canonical_json_bytes artifact)) ≡ true
    → let res = validate_version d reg artifact (some sv) in
      let res' = check_version d reg artifact (some sv) in
      (res'.valid ≡ res.valid)
      × (res'.sha256 ≡ res.sha256)
      × (res'.error_record ≡ res.error_record)
      × (has_bytes res'.canonical_bytes ≡ res.valid)
unfolding validate_version check_version
agrees_version d reg artifact sv full h = elim (Option-cases (find_validator sv reg)) [
  | inl unknown ↦ rw (full, unknown) (refl, refl, refl, refl)
  | inr (v, found) ↦ rw (full, found) (agrees_errors d sv artifact (v artifact) h)
]

has_bytes-some : (b : List ℕ) → b ≢ [] → has_bytes (some b) ≡ true
has_bytes-some [] h = absurd (h refl)
has_bytes-some (b ∷ bs) h = refl

-- On an artifact that names a schema version, the validator and the orchestrator's registry give the
-- same answer: the same verdict, digest and document, if the artifact's JSON is not empty.
pub validate_and_hash_agrees :
    (d : Digest) (reg : Registry) (artifact : Fields) (sv : String)
    → as_text (get_field artifact "schema_version") ≡ some sv
    → nonempty sv ≡ true
    → d.canonical_json_bytes artifact ≢ []
    → validate_and_hash d reg artifact ≡ validate_or_error_artifact d reg artifact
unfolding validate_and_hash check validate_or_error_artifact validate
validate_and_hash_agrees d reg artifact sv named full bytes =
    let (v, s, err, b) =
      agrees_version d reg artifact sv full
        (has_bytes-some (d.canonical_json_bytes artifact) bytes) in
    rw (named, v, s, err, b) (ground arith)
