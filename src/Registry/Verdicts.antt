-- ===== src/Registry/Verdicts.antt =====
-- Validation fails closed.
use dadi_runtime.Base.{
  ℕ, String, true, false, Option, none, some, List, [], ◌∷◌, ◌≡◌, refl, ◌↔◌, ◌⊎◌, inl, inr, arith,
  nonempty, Fields, str, get_field, as_text, ok, Bool-cases, Option-cases,
}
use dadi_runtime.Registry.{
  Registry, Validator, SchemaError, ValidationResult, Digest, find_validator, verdict,
  validate_version, validate, validate_or_error_artifact,
}

module _ (d : Digest) (reg : Registry) where
  -- An artifact passes exactly when it names a schema that is registered and whose validator finds
  -- no error.
  pub record Passes (artifact : Fields) : Type 0 where
    pub version : String
    pub named : as_text (get_field artifact "schema_version") ≡ some version
    pub not_empty : nonempty version ≡ true
    pub validator : Validator
    pub registered : find_validator version reg ≡ some validator
    pub clean : validator artifact ≡ []

  verdict-valid :
      (sv : String) (artifact : Fields) (errors : List SchemaError)
      → (verdict d sv artifact errors).valid ≡ true
      → errors ≡ []
  unfolding verdict
  verdict-valid sv artifact [] h = refl
  verdict-valid sv artifact (e ∷ es) h = cc

  version-Passes :
      (artifact : Fields) (sv : Option String)
      → as_text (get_field artifact "schema_version") ≡ sv
      → (validate_version d reg artifact sv).valid ≡ true
      → Passes artifact
  unfolding validate_version
  version-Passes artifact none e h = cc
  version-Passes artifact (some sv) e h = elim (Bool-cases (nonempty sv)) [
    | inr q ↦ absurd (ground arith)
    | inl q ↦ elim (Option-cases (find_validator sv reg)) [
      | inl missing ↦ absurd (ground arith)
      | inr (v, found) ↦ record {
        version = sv;
        named = e;
        not_empty = q;
        validator = v;
        registered = found;
        clean = verdict-valid sv artifact (v artifact) (ground arith);
      }
    ]
  ]

  -- Validation accepts an artifact exactly when it passes.
  pub validate_iff :
      (artifact : Fields) → ((validate d reg artifact).valid ≡ true) ↔ Passes artifact
  unfolding validate validate_version verdict
  validate_iff artifact = (
    version-Passes artifact _ refl,
    λ p. rw (p.named, validate_version) (rw (p.not_empty, p.registered, p.clean)),
  )

  abbrev Accepts : ValidationResult → Fields → Type 0
  Accepts r artifact =
      (r.valid ≡ true) × (r.sha256 ≡ some (d.sha256_hex (d.canonical_json_bytes artifact)))

  abbrev Rejects : ValidationResult → Type 0
  Rejects r =
      (r.valid ≡ false)
      × ((err : Fields) × (r.error_record ≡ some err)
          × (get_field err "schema_version" ≡ some (str "validation_error-v1")))

  verdict_cases :
      (sv : String) (artifact : Fields) (errors : List SchemaError)
      → Accepts (verdict d sv artifact errors) artifact ⊎ Rejects (verdict d sv artifact errors)
  unfolding verdict get_field
  verdict_cases sv artifact [] = inl (refl, refl)
  verdict_cases sv artifact (e ∷ es) = inr (refl, (_, refl, refl))

  validate_version_cases :
      (artifact : Fields) (sv : Option String)
      → Accepts (validate_version d reg artifact sv) artifact
        ⊎ Rejects (validate_version d reg artifact sv)
  unfolding validate_version get_field
  validate_version_cases artifact none = inr (refl, (_, refl, refl))
  validate_version_cases artifact (some sv) = elim (Bool-cases (nonempty sv)) [
    | inr q ↦ rw (q, validate_version) (inr (refl, (_, refl, refl)))
    | inl q ↦ elim (Option-cases (find_validator sv reg)) [
      | inl missing ↦ rw (q, missing, validate_version) (inr (refl, (_, refl, refl)))
      | inr (v, found) ↦ rw (q, found, validate_version) (verdict_cases sv artifact (v artifact))
    ]
  ]

  -- With digests that are not empty, the wrapper never fails its assertion: it accepts what passes,
  -- unchanged and with the digest of its canonical bytes, and turns anything else into an error
  -- record of the schema `validation_error-v1`, with the digest of that record.
  pub validate_or_error_artifact_total :
      (artifact : Fields)
      → ((bytes : List ℕ) → nonempty (d.sha256_hex bytes) ≡ true)
      → (Passes artifact
          × (validate_or_error_artifact d reg artifact
              ≡ ok (true, d.sha256_hex (d.canonical_json_bytes artifact), artifact)))
        ⊎ ((¬ Passes artifact)
            × ((err : Fields) × (validate_or_error_artifact d reg artifact
                  ≡ ok (false, d.sha256_hex (d.canonical_json_bytes err), err))
                × (get_field err "schema_version" ≡ some (str "validation_error-v1"))))
  unfolding validate_or_error_artifact
  validate_or_error_artifact_total artifact digest =
      elim (validate_version_cases artifact (as_text (get_field artifact "schema_version"))) [
        | inl (accepted, hash) ↦ inl (
          (validate_iff artifact).0 accepted,
          ground (arith, accepted, hash, digest (d.canonical_json_bytes artifact)),
        )
        | inr (refused, (err, recorded, schema)) ↦ inr (
          λ p. cc (refused, (validate_iff artifact).1 p),
          (err, ground (arith, refused, recorded), schema),
        )
      ]
