-- ===== src/BundleVerify/Complete.antt =====
-- When a bundle passes.
use dadi_runtime.Base.{
  ℕ, String, true, false, Option, none, some, Json, null, bool, int, float, str, arr, obj, List, [],
  ◌∷◌, map, ◌≡◌, ◌↔◌, refl, ap, inl, inr, arith, eq_iff, Bool-cases, Fields, if◌then◌else◌, All, ok,
  get_field,
}
use dadi_runtime.Base.Results.{bind-eq-ok}
use dadi_runtime.Signing.{Packages}
use dadi_runtime.Closure.{listed, contains, difference, sorted}
use dadi_runtime.Closure.Laws.{contains-difference, contains-sorted, contains-none}
use dadi_runtime.BundleVerify.{
  artifacts_of, Zip, name_of, in_artifacts, after_slash, digest, zip_artifacts, mismatches,
  missing_in_manifest, is_empty, is_ok, Report, make_report, read, load_manifest, check_signature,
  GatewayReply, check_closure, reported, verify_zip,
}

nil_of_empty : {A : Type 0} (xs : List A) → is_empty xs ≡ true → xs ≡ []
nil_of_empty [] h = refl
nil_of_empty (x ∷ xs) h = absurd (ground (arith, h))

missing-none :
    (xs ys : List String)
    → (is_empty (sorted (difference xs ys)) ≡ true)
      ↔ ((s : String) → contains s xs ≡ true → contains s ys ≡ true)
unfolding contains
missing-none xs ys =
    let missing = sorted (difference xs ys) in
    (
      λ h s k.
          let e : contains s missing ≡ false = ap (contains s) (nil_of_empty missing h) in
          ground (arith, e, k, contains-sorted s (difference xs ys), contains-difference s xs ys),
      λ h. ap is_empty (
          contains-none missing (λ s. elim (Bool-cases (contains s xs)) [
            | inl there ↦ ground (
              arith,
              h s there,
              there,
              contains-sorted s (difference xs ys),
              contains-difference s xs ys,
            )
            | inr gone ↦
                ground
                  (arith, gone, contains-sorted s (difference xs ys), contains-difference s xs ys)
          ])),
    )

module _ (sha256_hex : List ℕ → String) (zip : Zip) (expected : List String) where
  -- A file under `artifacts/` is named by its digest, and the manifest lists it.
  abbrev pub IsRight : String → Type 0
  IsRight name =
      in_artifacts name ≡ true
      → (digest sha256_hex zip expected name ≡ after_slash name)
        × (contains (after_slash name) expected ≡ true)

  files-IsRight :
      (names : List String)
      → is_empty (mismatches sha256_hex zip expected names) ≡ true
      → is_empty (missing_in_manifest sha256_hex zip expected names) ≡ true
      → All IsRight names
  unfolding mismatches missing_in_manifest
  files-IsRight [] h k = tt
  files-IsRight (n ∷ names) h k = (
    λ inside. (
      ground (arith, h, inside, eq_iff (digest sha256_hex zip expected n) (after_slash n)),
      ground (arith, k, inside),
    ),
    files-IsRight names (ground (arith, h)) (ground (arith, k)),
  )

  right_named :
      (names : List String)
      → All IsRight names
      → is_empty (mismatches sha256_hex zip expected names) ≡ true
  unfolding mismatches
  right_named [] g = refl
  right_named (n ∷ names) g = elim (Bool-cases (in_artifacts n)) [
    | inl inside ↦ ground (
      arith,
      inside,
      (g.0 inside).0,
      eq_iff (digest sha256_hex zip expected n) (after_slash n),
      right_named names g.1,
    )
    | inr outside ↦ ground (arith, outside, right_named names g.1)
  ]

  right_listed :
      (names : List String)
      → All IsRight names
      → is_empty (missing_in_manifest sha256_hex zip expected names) ≡ true
  unfolding missing_in_manifest
  right_listed [] g = refl
  right_listed (n ∷ names) g = elim (Bool-cases (in_artifacts n)) [
    | inl inside ↦ ground (arith, inside, (g.0 inside).1, right_listed names g.1)
    | inr outside ↦ ground (arith, outside, right_listed names g.1)
  ]

  -- A report passes exactly where each file under `artifacts/` is named by its digest and listed, each
  -- digest that the manifest lists has a file, and the checks of the signature and of the closure are ok.
  pub make_report_iff :
      (sig closure : Fields)
      → ((make_report sha256_hex zip expected sig closure).passes ≡ true) ↔ (
          All IsRight (map name_of zip)
          × ((s : String)
              → contains s expected ≡ true
              → contains s (zip_artifacts sha256_hex zip expected (map name_of zip)) ≡ true)
          × (is_ok sig ≡ true)
          × (is_ok closure ≡ true))
  unfolding make_report
  make_report_iff sig closure =
      let names = map name_of zip in
      let all_there = missing-none expected (zip_artifacts sha256_hex zip expected names) in
      (
        λ h. (
          files-IsRight names (ground (arith, h)) (ground (arith, h)),
          all_there.0 (ground (arith, h)),
          ground (arith, h),
          ground (arith, h),
        ),
        λ g.
            let wrong = right_named names g.0 in
            let unlisted = right_listed names g.0 in
            let missing = all_there.1 g.1 in rw (wrong, unlisted, missing, g.2, g.3) refl,
      )

-- What a bundle that passes is: a manifest whose signature is ok, a closure check that is ok, and, in
-- `artifacts/`, the files that the manifest lists, all of them and no other, each named by its digest.
pub record Complete (p : Packages) (sha256_hex : List ℕ → String) (gateway : String → GatewayReply)
    (zip : Zip) : Type 0 where
  pub manifest : Fields
  pub signature : Fields
  pub loads : load_manifest p (p.decode (read "manifest.json" zip)) ≡ ok manifest
  pub checks : check_signature p manifest ≡ ok signature
  pub signed : is_ok signature ≡ true
  pub closed : is_ok (check_closure gateway manifest) ≡ true
  pub files :
      All (IsRight sha256_hex zip (listed (get_field manifest "artifacts"))) (map name_of zip)
  pub none_missing :
      (s : String)
      → contains s (listed (get_field manifest "artifacts")) ≡ true
      → contains s
          (zip_artifacts sha256_hex zip (listed (get_field manifest "artifacts")) (map name_of zip))
        ≡ true

artifacts_of-listed : (o : Option Json) (xs : List String) → artifacts_of o ≡ ok xs → xs ≡ listed o
unfolding artifacts_of
artifacts_of-listed none xs h = ground (arith, h)
artifacts_of-listed (some null) xs h = ground (arith, h)
artifacts_of-listed (some (bool true)) xs h = absurd (ground (arith, h))
artifacts_of-listed (some (bool false)) xs h = ground (arith, h)
artifacts_of-listed (some (int n)) xs h = ground (arith, h)
artifacts_of-listed (some (float s)) xs h = ground (arith, h)
artifacts_of-listed (some (str s)) xs h = ground (arith, h)
artifacts_of-listed (some (arr items)) xs h = ground (arith, h)
artifacts_of-listed (some (obj fields)) xs h = ground (arith, h)

-- A bundle whose verification ends with a report that passes is complete.
pub verify_zip-Complete :
    (p : Packages) (sha256_hex : List ℕ → String) (gateway : String → GatewayReply) (zip : Zip)
    (r : Report)
    → verify_zip p sha256_hex gateway zip ≡ ok (reported r)
    → r.passes ≡ true
    → Complete p sha256_hex gateway zip
unfolding verify_zip
verify_zip-Complete p sha256_hex gateway zip r h passes =
    elim (Bool-cases (contains "manifest.json" (map name_of zip))) [
      | inr absent ↦
          let k = rw (absent, verify_zip, if◌then◌else◌) at h in absurd (ground (arith, k))
      | inl there ↦
          let (m, loads, k) =
            bind-eq-ok (load_manifest p (p.decode (read "manifest.json" zip))) _
              (rw (there, verify_zip, if◌then◌else◌) at h) in
          let (expected, reads, k') = bind-eq-ok (artifacts_of (get_field m "artifacts")) _ k in
          let (sig, checks, q) = bind-eq-ok (check_signature p m) _ k' in
          let present = listed (get_field m "artifacts") in
          let is_present = artifacts_of-listed (get_field m "artifacts") expected reads in
          let report = make_report sha256_hex zip present sig (check_closure gateway m) in
          let q' = rw is_present at q in
          let same : report ≡ r = ground (arith, q') in
          let all =
            (make_report_iff sha256_hex zip present sig (check_closure gateway m)).0
              (rw (← same) at passes) in
          record {
            manifest = m;
            signature = sig;
            loads = loads;
            checks = checks;
            signed = all.2;
            closed = all.3;
            files = all.0;
            none_missing = all.1;
          }
    ]
