-- ===== src/Regress/Recorded.antt =====
-- What is recorded verifies.
use dadi_runtime.Base.{
  ℕ, String, Option, none, some, List, [], ◌∷◌, ◌++◌, map, ◌≡◌, refl, sym, ap, ◌∙◌, inl, inr, arith,
  eq_iff, eq_refl, Bool-cases, Option-cases, ◌==◌, Json, Result, ok, raised, if◌then◌else◌, All,
  All-select_one, All-map_rule, select_one, select_one-holds, truthy, or_default, nonempty,
}
use dadi_runtime.Base.Results.{bind-eq-ok}
use dadi_runtime.Tables.{StageRun}
use dadi_runtime.Pack.{Blob, has_digest}
use dadi_runtime.Regress.{
  Files, find_file, put_file, fetch_artifact_bytes, bytes_or_fetch, keep_artifact, keep_stage,
  keep_stages, put_fetched, keep_pointers, Manifest, metas, docpack_of, record_rows, record_fixture,
  write_fixture, passing, check_files, verify_fixture, toolchain_of, prompt_of,
}

module _ (sha256_hex : List ℕ → String) where
  abbrev pub Named : String × List ℕ → Type 0
  Named file = sha256_hex file.1 ≡ file.0

  -- The content of a row, where it has some, has the digest that names the row.
  abbrev pub IsDigested : Blob → Type 0
  IsDigested b = (bytes : List ℕ) → b.content ≡ some bytes → sha256_hex bytes ≡ b.sha256

  put_file-Named :
      (sha : String) (bytes : List ℕ) (files : Files)
      → sha256_hex bytes ≡ sha
      → All Named files
      → All Named (put_file sha bytes files)
  unfolding put_file
  put_file-Named sha bytes [] h g = (h, tt)
  put_file-Named sha bytes ((k, old) ∷ files) h g = elim (Bool-cases (k == sha)) [
    | inl hit ↦ rw (hit, put_file) (h ∙ sym ((eq_iff k sha).0 hit), g.1)
    | inr miss ↦ rw (miss, put_file) (g.0, put_file-Named sha bytes files h g.1)
  ]

  find_file-Named :
      (sha : String) (files : Files) {bytes : List ℕ}
      → All Named files
      → find_file sha files ≡ some bytes
      → sha256_hex bytes ≡ sha
  unfolding find_file
  find_file-Named sha [] g e = absurd (ground (arith, e))
  find_file-Named sha ((k, old) ∷ files) {bytes} g e = elim (Bool-cases (k == sha)) [
    | inl hit ↦
        let q : old ≡ bytes = ground (arith, e, hit) in rw (← q) (g.0 ∙ (eq_iff k sha).0 hit)
    | inr miss ↦ find_file-Named sha files {bytes = bytes} g.1 (ground (arith, e, miss))
  ]

  module _ (blobs : List Blob) (digested : All IsDigested blobs) where
    fetch-Named :
        (sha : String) (bytes : List ℕ)
        → fetch_artifact_bytes blobs sha ≡ ok bytes
        → sha256_hex bytes ≡ sha
    unfolding fetch_artifact_bytes
    fetch-Named sha bytes h = elim (Option-cases (select_one (has_digest sha) blobs)) [
      | inl absent ↦ let k = rw (absent, fetch_artifact_bytes) at h in absurd (ground (arith, k))
      | inr (b, there) ↦
          let k = rw (there, fetch_artifact_bytes) at h in
          let holds : b.content ≡ some bytes = ground arith in
          All-select_one IsDigested (has_digest sha) blobs digested there bytes holds
          ∙ (eq_iff b.sha256 sha).0 (select_one-holds (has_digest sha) blobs there)
    ]

    bytes_or_fetch-Named :
        (sha : String) (files : Files) (o : Option (List ℕ)) (bytes : List ℕ)
        → All Named files
        → find_file sha files ≡ o
        → bytes_or_fetch blobs sha o ≡ ok bytes
        → sha256_hex bytes ≡ sha
    bytes_or_fetch-Named sha files none bytes g e h = fetch-Named sha bytes h
    bytes_or_fetch-Named sha files (some []) bytes g e h = fetch-Named sha bytes h
    bytes_or_fetch-Named sha files (some (b ∷ bs)) bytes g e h =
        let q : b ∷ bs ≡ bytes = ground arith in
        rw (← q) (find_file-Named sha files {bytes = b ∷ bs} g e)

    keep_artifact-Named :
        (sha : String) (files after : Files)
        → All Named files
        → keep_artifact blobs sha files ≡ ok after
        → All Named after
    unfolding keep_artifact
    keep_artifact-Named sha files after g h =
        let (bytes, fetched, k) = bind-eq-ok (bytes_or_fetch blobs sha (find_file sha files)) _ h in
        let q : put_file sha bytes files ≡ after = ground arith in
        rw (← q)
          (put_file-Named sha bytes files (bytes_or_fetch-Named sha files _ bytes g refl fetched) g)

    keep_stage-Named :
        (r : StageRun) (files after : Files)
        → All Named files
        → keep_stage blobs r files ≡ ok after
        → All Named after
    unfolding keep_stage
    keep_stage-Named r files after g h =
        let (mid, kept, k) = bind-eq-ok (keep_artifact blobs r.input_artifact_sha256 files) _ h in
        let g' = keep_artifact-Named r.input_artifact_sha256 files mid g kept in
        elim (Bool-cases (truthy r.output_artifact_sha256)) [
          | inl out ↦
              keep_artifact-Named (or_default r.output_artifact_sha256 "") mid after g'
                (rw (out, if◌then◌else◌) at k)
          | inr open_stage ↦ let q : mid ≡ after = ground (arith, open_stage, k) in rw (← q) g'
        ]

    keep_stages-Named :
        (rows : List StageRun) (files after : Files)
        → All Named files
        → keep_stages blobs rows files ≡ ok after
        → All Named after
    unfolding keep_stages
    keep_stages-Named [] files after g h = let q : files ≡ after = ground arith in rw (← q) g
    keep_stages-Named (r ∷ rows) files after g h =
        let (more, kept, k) = bind-eq-ok (keep_stage blobs r files) (keep_stages blobs rows) h in
        keep_stages-Named rows more after (keep_stage-Named r files more g kept) k

    put_fetched-Named :
        (sha : String) (o : Result (List ℕ)) (files : Files)
        → fetch_artifact_bytes blobs sha ≡ o
        → All Named files
        → All Named (put_fetched sha o files)
    put_fetched-Named sha (raised e) files h g = g
    put_fetched-Named sha (ok bytes) files h g =
        put_file-Named sha bytes files (fetch-Named sha bytes h) g

    keep_pointers-Named :
        (shas : List String) (files : Files)
        → All Named files
        → All Named (keep_pointers blobs shas files)
    unfolding keep_pointers
    keep_pointers-Named [] files g = g
    keep_pointers-Named (sha ∷ shas) files g = elim (Bool-cases (nonempty sha)) [
      | inl full ↦
          rw (full, keep_pointers)
            (keep_pointers-Named shas _ (put_fetched-Named sha _ files refl g))
      | inr empty ↦ rw (empty, keep_pointers) (keep_pointers-Named shas files g)
    ]

    record_rows-Named :
        (loads : List ℕ → Option Json) (run : String) (rows : List StageRun) (m : Manifest)
        (files : Files)
        → record_rows sha256_hex loads blobs run rows ≡ ok (m, files)
        → All Named files × (m.artifacts ≡ metas sha256_hex files)
    unfolding record_rows
    record_rows-Named loads run [] m files h = absurd (ground (arith, h))
    record_rows-Named loads run (r ∷ rows) m files h =
        let (first, e1, k1) = bind-eq-ok (fetch_artifact_bytes blobs r.input_artifact_sha256) _ h in
        let (docpack, e2, k2) = bind-eq-ok (docpack_of (loads first)) _ k1 in
        let (bytes, e3, k3) = bind-eq-ok (fetch_artifact_bytes blobs docpack) _ k2 in
        let begun = put_file docpack bytes (put_file r.input_artifact_sha256 first []) in
        let (kept, e4, k4) = bind-eq-ok (keep_stages blobs (r ∷ rows) begun) _ k3 in
        let g =
          put_file-Named docpack bytes (put_file r.input_artifact_sha256 first [])
            (fetch-Named docpack bytes e3)
            (put_file-Named r.input_artifact_sha256 first []
              (fetch-Named r.input_artifact_sha256 first e1) tt) in
        let pointers = map toolchain_of (r ∷ rows) ++ map prompt_of (r ∷ rows) in
        let all = keep_pointers blobs pointers kept in
        let same : all ≡ files = ground (arith, k4) in
        let listed : metas sha256_hex all ≡ m.artifacts = ground (arith, k4) in
        (
          rw (← same)
              (keep_pointers-Named pointers kept (keep_stages-Named (r ∷ rows) begun kept g e4)),
          sym listed ∙ ap (metas sha256_hex) same,
        )

  -- There is a file of the name.
  abbrev HasFile : Files → String × List ℕ → Type 0
  HasFile files file = (bytes : List ℕ) × (find_file file.0 files ≡ some bytes)

  HasFile-cons :
      (entry : String × List ℕ) (files : Files) (file : String × List ℕ)
      → HasFile files file
      → HasFile (entry ∷ files) file
  unfolding find_file
  HasFile-cons entry files file (bytes, e) = elim (Bool-cases (entry.0 == file.0)) [
    | inl hit ↦ (entry.1, ground (arith, hit))
    | inr miss ↦ (bytes, ground (arith, miss, e))
  ]

  files-HasFile : (files : Files) → All (HasFile files) files
  unfolding find_file
  files-HasFile [] = tt
  files-HasFile ((k, bytes) ∷ files) = (
    (bytes, ground (arith, eq_refl k)),
    All-map_rule {Q = HasFile ((k, bytes) ∷ files)} {P = HasFile files}
        (HasFile-cons (k, bytes) files) files (files-HasFile files),
  )

  check_files-passing :
      (files some_files : Files)
      → All Named files
      → All Named some_files
      → All (HasFile files) some_files
      → check_files sha256_hex files (metas sha256_hex some_files) ≡ passing
  unfolding check_files metas
  check_files-passing files [] g k has = refl
  check_files-passing files ((sha, bytes) ∷ rest) g k has =
      let (found, e) = has.0 in
      let named : sha256_hex found ≡ sha = find_file-Named sha files {bytes = found} g e in
      rw (check_files-passing files rest g k.1 has.1, e, named, k.0, eq_refl sha) refl

-- Where the rows of the artifact store hold content under its digest, a run that is recorded and
-- written as a fixture verifies: no file is missing and every digest is right.
pub verify_fixture-record_fixture :
    (sha256_hex : List ℕ → String) (loads : List ℕ → Option Json) (blobs : List Blob)
    (stage_runs : List StageRun) (run : String) (m : Manifest) (files : Files)
    → All (IsDigested sha256_hex) blobs
    → record_fixture sha256_hex loads blobs stage_runs run ≡ ok (m, files)
    → verify_fixture sha256_hex (write_fixture (m, files)) ≡ passing
unfolding record_fixture verify_fixture
verify_fixture-record_fixture sha256_hex loads blobs stage_runs run m files digested h =
    let (g, listed) = record_rows-Named sha256_hex blobs digested loads run _ m files h in
    rw listed (check_files-passing sha256_hex files files g g (files-HasFile sha256_hex files))
