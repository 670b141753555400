-- ===== src/BundleVerify.antt =====
-- tools/bundle-verify/bundle_verify.py: a bundle is checked away from the gateway: its manifest and
-- its files against each other, the signature, and, where the gateway answers, the closure. The functions of
-- packages are those of `Signing.Packages`; a zip file is the list of its entries.
mod Signature
pub mod Complete
pub mod Agreement
unfoldable pub use Signature.*
use Prim.Native.Char.{Char, code}
use Prim.Native.String.{◌++◌ as concat}
use text.Mathlib.Text.{starts_with}
use dadi_runtime.Base.{
  ℕ, String, Bool, true, false, ◌&&◌, ◌||◌, not, Option, none, some, List, [], ◌∷◌, map, ◌==◌, Json,
  Items, null, int, float, arr, Fields, end, field, str, bool, obj, get_field, pop_field, as_text,
  texts, Result, ok, raised, other, value_error, if◌then◌else◌, nonempty, truthy, or_default,
  nat_eq, length, strip, bytes_eq,
}
use dadi_runtime.Base.Results.{◌>>=◌}
use dadi_runtime.Signing.{Packages, env_or, items_of, b64url_decode}
use dadi_runtime.Closure.{contains, listed, difference, sorted}

-- What the gateway answers to `GET /runs/{run_id}/artifacts`: an exception, an error with its text, or
-- digests.
pub data GatewayReply : Type 0 where
  unreachable : String → GatewayReply
  refused_with : String → GatewayReply
  run_artifacts : List String → GatewayReply

abbrev pub skipped : String → Fields
skipped reason =
    field "ok" (bool true) (field "skipped" (bool true) (field "reason" (str reason) end))

abbrev pub is_empty {ℓ} : {A : Type ℓ} → List A → Bool
is_empty [] = true
is_empty (x ∷ xs) = false

unfoldable pub compare_closure : String → List String → GatewayReply → Fields
unfolding difference sorted
compare_closure mode present (unreachable e) = skipped e
compare_closure mode present (refused_with status) =
    skipped (concat "gateway artifacts lookup failed: " status)
compare_closure mode present (run_artifacts expected) =
    let missing = sorted (difference expected present) in
    field "ok" (bool (is_empty missing)) (
      field "closure_mode" (str mode) (
        field "missing_expected_artifacts" (arr (texts missing)) (
          field "extra_manifest_artifacts" (arr (texts (sorted (difference present expected))))
            end)))

-- `verify_closure_via_gateway`; the mode and the run are texts where they are given
unfoldable pub check_closure : (String → GatewayReply) → Fields → Fields
unfolding compare_closure
check_closure gateway manifest =
    let mode = as_text (get_field manifest "closure_mode") in
    let run = as_text (get_field manifest "pipeline_run_id") in
    if truthy mode && truthy run
    then compare_closure (or_default mode "") (listed (get_field manifest "artifacts"))
        (gateway (or_default run ""))
    else skipped "missing closure_mode or pipeline_run_id"

abbrev pub Zip : Type 0
Zip = List (String × List ℕ)

abbrev pub name_of : String × List ℕ → String
name_of entry = entry.0

-- `zf.read(name)`: the last entry of that name
unfoldable pub read : String → Zip → List ℕ
read name [] = []
read name ((n, bytes) ∷ zip) =
    let later = read name zip in
    if contains name (map name_of zip) then later else if n == name then bytes else later

abbrev pub in_artifacts : String → Bool
in_artifacts name = starts_with name "artifacts/"

-- `name.split("/", 1)[1]`
unfoldable pub after_slash : String → String
after_slash String.[] = ""
after_slash (String.◌∷◌ c s) = let rest = after_slash s in if nat_eq (code c) b'/' then s else rest

pub record Mismatch : Type 0 where
  pub entry : String
  pub computed : String
  pub expected : String

module _ (sha256_hex : List ℕ → String) (zip : Zip) (expected : List String) where
  abbrev pub digest : String → String
  digest name = sha256_hex (read name zip)

  -- the names of the files under `artifacts/`
  unfoldable pub zip_artifacts : List String → List String
  unfolding after_slash
  zip_artifacts [] = []
  zip_artifacts (n ∷ names) =
      let rest = zip_artifacts names in if in_artifacts n then after_slash n ∷ rest else rest

  unfoldable pub mismatches : List String → List Mismatch
  unfolding after_slash read
  mismatches [] = []
  mismatches (n ∷ names) =
      let rest = mismatches names in
      if in_artifacts n && not (digest n == after_slash n)
      then record { entry = n; computed = digest n; expected = after_slash n } ∷ rest
      else rest

  unfoldable pub missing_in_manifest : List String → List String
  unfolding after_slash contains
  missing_in_manifest [] = []
  missing_in_manifest (n ∷ names) =
      let rest = missing_in_manifest names in
      if in_artifacts n && not (contains (after_slash n) expected)
      then after_slash n ∷ rest
      else rest

-- `set(names)`, as a list
unfoldable pub distinct : List String → List String
unfolding contains
distinct [] = []
distinct (x ∷ xs) = let rest = distinct xs in if contains x xs then rest else x ∷ rest

pub record Report : Type 0 where
  pub passes : Bool
  pub signature : Fields
  pub closure : Fields
  pub missing_files : List String
  pub unlisted : List String
  pub wrong : List Mismatch

-- A zip file without a manifest, or the report of one with a manifest.
pub data Verdict : Type 0 where
  no_manifest : Verdict
  reported : Report → Verdict

unfoldable pub make_report : (List ℕ → String) → Zip → List String → Fields → Fields → Report
unfolding zip_artifacts mismatches missing_in_manifest difference sorted distinct
make_report sha256_hex zip expected sig closure =
    let names = map name_of zip in
    let missing = sorted (difference expected (zip_artifacts sha256_hex zip expected names)) in
    let wrong = mismatches sha256_hex zip expected names in
    let unlisted = missing_in_manifest sha256_hex zip expected names in
    record {
      passes =
          is_empty wrong && is_empty unlisted && is_empty missing && is_ok sig && is_ok closure;
      signature = sig;
      closure = closure;
      missing_files = missing;
      unlisted = sorted (distinct unlisted);
      wrong = wrong;
    }

-- `json.loads(zf.read("manifest.json").decode("utf-8"))`
abbrev pub load_manifest : Packages → Option String → Result Fields
load_manifest p none = raised (value_error "utf-8")
load_manifest p (some s) = do json ← p.loads s; items_of json

-- `for a in manifest.get("artifacts", []) or []`: a number or `true` cannot be iterated over, and the
-- letters of a text or the keys of an object are no artifacts.
unfoldable pub artifacts_of : Option Json → Result (List String)
artifacts_of none = ok []
artifacts_of (some (bool true)) = raised (other "TypeError")
artifacts_of (some (int n)) = if is_truthy (int n) then raised (other "TypeError") else ok []
artifacts_of (some (float s)) = if is_truthy (float s) then raised (other "TypeError") else ok []
artifacts_of (some v) = ok (listed (some v))

unfoldable pub verify_zip :
    Packages → (List ℕ → String) → (String → GatewayReply) → Zip → Result Verdict
unfolding make_report check_signature check_closure read artifacts_of is_truthy
verify_zip p sha256_hex gateway zip =
    if contains "manifest.json" (map name_of zip)
    then (do
      manifest ← load_manifest p (p.decode (read "manifest.json" zip))
      expected ← artifacts_of (get_field manifest "artifacts")
      sig ← check_signature p manifest
      ok (reported (make_report sha256_hex zip expected sig (check_closure gateway manifest))))
    else ok no_manifest
