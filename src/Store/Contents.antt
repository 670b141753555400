-- ===== src/Store/Contents.antt =====
-- What the artifact table promises: an artifact is stored under its digest, once for each tenant,
-- and one tenant's writes change nothing that another can read.
use dadi_runtime.Base.{
  ℕ, ◌≤◌, String, none, some, List, ◌≡◌, refl, sym, ◌∙◌, eq_iff, eq_refl, arith, All, All-append,
  select_one, select, select_one-insert, select_one-holds, select-insert, select-eq-nil, length, ok,
  All-select_one, Option-cases, inl, inr,
}
use dadi_runtime.Tables.{Artifact, Db}
use dadi_runtime.Store.{
  Meta, ArtifactRecord, is_artifact, record_of, new_artifact, put_artifact, get_artifact_meta,
  get_artifact_content,
}

module _ (sha256_hex : List ℕ → String) where
  -- A row whose bytes are in the table has their digest for its key and their length.
  pub record IsAddressed (a : Artifact) : Type 0 where
    pub inline : a.storage_backend ≡ "postgres"
    pub bytes : List ℕ
    pub stored : a.content ≡ some bytes
    pub key : a.sha256 ≡ sha256_hex bytes
    pub size : a.byte_length ≡ length bytes

  new_artifact-IsAddressed :
      (tenant : String) (m : Meta) (content : List ℕ)
      → IsAddressed (new_artifact tenant (sha256_hex content) m content)
  new_artifact-IsAddressed tenant m content = record {
    inline = refl;
    bytes = content;
    stored = refl;
    key = refl;
    size = refl;
  }

  module _ (tenant : String) (m : Meta) (content : List ℕ) (db : Db) where
    -- Every row of the artifact table stays stored under the digest of its bytes.
    pub put_artifact-IsAddressed :
        All IsAddressed db.artifacts
        → All IsAddressed (put_artifact sha256_hex tenant m content db).1.artifacts
    unfolding put_artifact
    put_artifact-IsAddressed h =
        elim (Option-cases (select_one (is_artifact tenant (sha256_hex content)) db.artifacts)) [
          | inl e ↦
              rw (e, put_artifact)
                (All-append IsAddressed db.artifacts _ h
                  (new_artifact-IsAddressed tenant m content, tt))
          | inr (r, e) ↦ rw (e, put_artifact) h
        ]

    -- The row that a put leaves under the digest.
    stored_row : Artifact
    stored_row = elim (select_one (is_artifact tenant (sha256_hex content)) db.artifacts) [
      | none ↦ new_artifact tenant (sha256_hex content) m content
      | some r ↦ r
    ]

    put_artifact-stored_row :
        ((put_artifact sha256_hex tenant m content db).0 ≡ ok (record_of stored_row))
        × (select_one
              (is_artifact tenant (sha256_hex content))
              (put_artifact sha256_hex tenant m content db).1.artifacts
            ≡ some stored_row)
        × (stored_row.tenant_id ≡ tenant)
        × (stored_row.sha256 ≡ sha256_hex content)
    unfolding put_artifact stored_row
    put_artifact-stored_row =
        let h : String = sha256_hex content in
        ground (
          arith,
          select_one-insert (is_artifact tenant h) db.artifacts (new_artifact tenant h m content),
          select_one-holds (is_artifact tenant h) db.artifacts {r = stored_row},
          eq_refl tenant,
          eq_refl h,
          eq_iff stored_row.tenant_id tenant,
          eq_iff stored_row.sha256 h,
        )

    -- A put never fails. It returns the row of the digest, and the metadata of that digest can be
    -- read from then on.
    pub get_artifact_meta-put_artifact :
        (rec : ArtifactRecord) × ((put_artifact sha256_hex tenant m content db).0 ≡ ok rec)
        × (get_artifact_meta
              (put_artifact sha256_hex tenant m content db).1
              tenant
              (sha256_hex content)
            ≡ some rec)
        × (rec.sha256 ≡ sha256_hex content)
        × (rec.tenant_id ≡ tenant)
    unfolding get_artifact_meta
    get_artifact_meta-put_artifact =
        let (result, found, owner, key) = put_artifact-stored_row in
        (record_of stored_row, result, rw (found, get_artifact_meta), key, owner)

    -- After a put the content can be read under its digest: bytes with that very digest.
    pub get_artifact_content-put_artifact :
        All IsAddressed db.artifacts
        → (c : List ℕ) × (get_artifact_content
              (put_artifact sha256_hex tenant m content db).1
              tenant
              (sha256_hex content)
            ≡ some c)
          × (sha256_hex c ≡ sha256_hex content)
    unfolding get_artifact_content
    get_artifact_content-put_artifact h =
        let (result, found, owner, key) = put_artifact-stored_row in
        let row : IsAddressed stored_row =
          All-select_one IsAddressed _ _ (put_artifact-IsAddressed h) found in
        (
          row.bytes,
          rw (found, get_artifact_content) (rw (row.inline, row.stored)),
          sym row.key ∙ key,
        )

    -- To put the same bytes again, whatever the metadata, returns the first row and changes nothing.
    pub put_artifact_idempotent :
        (m' : Meta)
        → put_artifact sha256_hex tenant m' content (put_artifact sha256_hex tenant m content db).1
          ≡ put_artifact sha256_hex tenant m content db
    unfolding put_artifact
    put_artifact_idempotent m' = ground (
      arith,
      select_one-insert (is_artifact tenant h) db.artifacts (new_artifact tenant h m content),
      eq_refl tenant,
      eq_refl h,
    )
      where
        h : String
        h = sha256_hex content

    -- Only the key of the stored bytes is written: any other key reads as before.
    pub get_artifact_content-put_artifact_ne :
        (t sha : String)
        → ((t ≡ tenant) × (sha ≡ sha256_hex content) → ⊥)
        → get_artifact_content (put_artifact sha256_hex tenant m content db).1 t sha
          ≡ get_artifact_content db t sha
    unfolding put_artifact get_artifact_content
    get_artifact_content-put_artifact_ne t sha h =
        let d : String = sha256_hex content in
        ground (
          arith,
          select_one-insert (is_artifact t sha) db.artifacts (new_artifact tenant d m content),
          eq_iff tenant t,
          eq_iff d sha,
        )

  -- No tenant has two rows of one digest.
  abbrev pub HasUniqueKeys : List Artifact → Type 0
  HasUniqueKeys rows = (t sha : String) → length (select (is_artifact t sha) rows) ≤ 1

  -- A put leaves at most one row for each tenant and digest, if there was at most one before.
  pub put_artifact-HasUniqueKeys :
      (tenant : String) (m : Meta) (content : List ℕ) (db : Db)
      → HasUniqueKeys db.artifacts
      → HasUniqueKeys (put_artifact sha256_hex tenant m content db).1.artifacts
  unfolding put_artifact
  put_artifact-HasUniqueKeys tenant m content db h t sha =
      let d : String = sha256_hex content in
      ground (
        arith,
        h t sha,
        select-insert (is_artifact t sha) db.artifacts (new_artifact tenant d m content),
        select-eq-nil (is_artifact t sha) db.artifacts,
        eq_iff tenant t,
        eq_iff d sha,
      )
