-- ===== src/Closure/Laws.antt =====
-- What the closure check decides.
use dadi_runtime.Base.{
  String, Bool, true, false, Option, some, List, [], ◌∷◌, ◌≡◌, refl, ◌∙◌, ap, ◌↔◌, arith, ◌&&◌,
  ◌||◌, ◌==◌, length, nat_eq, not, truthy, or_default, select, insert, Bool-cases, inl, inr, eq_iff,
  eq_refl, Fields, get_field,
}
use dadi_runtime.Tables.{StageRun, Db}
use dadi_runtime.Closure.{
  contains, add, add_sha, add_row, add_rows, of_run, expected_stage_runs_v1_artifacts, listed,
  difference, insert_sorted, sorted, verify_closure_stage_runs_v1,
}

contains-insert :
    (s x : String) (xs : List String) → contains s (insert xs x) ≡ (contains s xs || s == x)
unfolding contains
contains-insert s x [] = ground arith
contains-insert s x (y ∷ xs) = ground (arith, contains-insert s x xs)

contains-add : (s x : String) (xs : List String) → contains s (add x xs) ≡ (contains s xs || s == x)
unfolding add
contains-add s x xs = ground (arith, contains-insert s x xs, eq_iff s x)

-- a stage run names the digest
abbrev names : String → Option String → Bool
names s o = truthy o && s == or_default o ""

abbrev pub refers : String → StageRun → Bool
refers s r =
    names s (some r.toolchain_manifest_sha256)
    || names s r.prompt_bundle_sha256
    || names s (some r.input_artifact_sha256)
    || names s r.output_artifact_sha256
    || names s r.deterministic_error_artifact_sha256

unfoldable pub any_refers : String → List StageRun → Bool
any_refers s [] = false
any_refers s (r ∷ rows) = refers s r || any_refers s rows

contains-add_sha :
    (s : String) (o : Option String) (xs : List String)
    → contains s (add_sha o xs) ≡ (contains s xs || names s o)
unfolding add_sha
contains-add_sha s o xs = ground (arith, contains-add s (or_default o "") xs)

or_row :
    (a b c d e f : Bool) → (((((a || b) || c) || d) || e) || f) ≡ (a || (b || c || d || e || f))
or_row a b c d e f = ground arith

contains-add_row :
    (s : String) (r : StageRun) (xs : List String)
    → contains s (add_row r xs) ≡ (contains s xs || refers s r)
contains-add_row s r xs = simp contains-add_sha (
    or_row (contains s xs) (names s (some r.toolchain_manifest_sha256))
      (names s r.prompt_bundle_sha256) (names s (some r.input_artifact_sha256))
      (names s r.output_artifact_sha256) (names s r.deterministic_error_artifact_sha256))

contains-add_rows :
    (s : String) (rows : List StageRun) (xs : List String)
    → contains s (add_rows rows xs) ≡ (contains s xs || any_refers s rows)
unfolding add_rows any_refers
contains-add_rows s [] xs = ground arith
contains-add_rows s (r ∷ rows) xs =
    ground (arith, contains-add_rows s rows (add_row r xs), contains-add_row s r xs)

pub contains-difference :
    (s : String) (xs ys : List String)
    → contains s (difference xs ys) ≡ (contains s xs && not (contains s ys))
unfolding contains difference
contains-difference s [] ys = refl
contains-difference s (x ∷ xs) ys = ground (arith, contains-difference s xs ys, eq_iff s x)

contains-insert_sorted :
    (s x : String) (xs : List String) → contains s (insert_sorted x xs) ≡ (s == x || contains s xs)
unfolding contains insert_sorted
contains-insert_sorted s x [] = refl
contains-insert_sorted s x (y ∷ ys) = ground (arith, contains-insert_sorted s x ys)

pub contains-sorted : (s : String) (xs : List String) → contains s (sorted xs) ≡ contains s xs
unfolding contains sorted
contains-sorted s [] = refl
contains-sorted s (x ∷ xs) =
    ground (arith, contains-insert_sorted s x (sorted xs), contains-sorted s xs)

-- a list in which nothing is found has no members
pub contains-none : (xs : List String) → ((s : String) → contains s xs ≡ false) → xs ≡ []
unfolding contains
contains-none [] h = refl
contains-none (x ∷ xs) h = ground (arith, h x, eq_refl x)

closed_when_empty : (xs : List String) → nat_eq (length xs) 0 ≡ true → xs ≡ []
closed_when_empty [] h = refl
closed_when_empty (x ∷ xs) h = ground arith

contains-missing :
    (s : String) (rows : List StageRun) (present : List String)
    → contains s (sorted (difference (add_rows rows []) present))
      ≡ (any_refers s rows && not (contains s present))
unfolding contains
contains-missing s rows present = ground (
  arith,
  contains-sorted s (difference (add_rows rows []) present),
  contains-difference s (add_rows rows []) present,
  contains-add_rows s rows [],
)

nothing_missing :
    (rows : List StageRun) (present : List String)
    → nat_eq (length (sorted (difference (add_rows rows []) present))) 0 ≡ true
    → (s : String) → any_refers s rows ≡ true
    → contains s present ≡ true
unfolding contains
nothing_missing rows present h s k =
    let missing = sorted (difference (add_rows rows []) present) in
    let e : contains s missing ≡ false = ap (contains s) (closed_when_empty missing h) in
    ground (arith, contains-missing s rows present)

-- The manifest is closed exactly where it lists every digest that the run's stage runs name.
pub verify_closure_iff :
    (db : Db) (tenant run : String) (m : Fields)
    → ((verify_closure_stage_runs_v1 m (expected_stage_runs_v1_artifacts db tenant run)).closed
        ≡ true)
      ↔ ((s : String)
          → any_refers s (select (of_run tenant run) db.stage_runs) ≡ true
          → contains s (listed (get_field m "artifacts")) ≡ true)
unfolding verify_closure_stage_runs_v1 expected_stage_runs_v1_artifacts
verify_closure_iff db tenant run m =
    let rows = select (of_run tenant run) db.stage_runs in
    let present = listed (get_field m "artifacts") in
    let missing = sorted (difference (add_rows rows []) present) in
    (
      nothing_missing rows present,
      λ h.
          ap (λ xs. nat_eq (length xs) 0)
            (contains-none missing (λ s. elim (Bool-cases (any_refers s rows)) [
              | inl hit ↦ ground (arith, contains-missing s rows present, h s hit)
              | inr miss ↦ ground (arith, contains-missing s rows present)
            ])),
    )

-- The report lists as missing the expected digests that the manifest does not list, and as extra
-- those that it lists and that are not expected.
pub verify_closure-lists :
    (m : Fields) (expected : List String) (s : String)
    → let r = verify_closure_stage_runs_v1 m expected in
      let present = listed (get_field m "artifacts") in
      (contains s r.missing_expected_artifacts ≡ (contains s expected && not (contains s present)))
      × (contains s r.extra_manifest_artifacts ≡ (contains s present && not (contains s expected)))
unfolding verify_closure_stage_runs_v1
verify_closure-lists m expected s =
    let present = listed (get_field m "artifacts") in
    (
      contains-sorted s (difference expected present) ∙ contains-difference s expected present,
      contains-sorted s (difference present expected) ∙ contains-difference s present expected,
    )
