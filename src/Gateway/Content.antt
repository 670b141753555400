-- ===== src/Gateway/Content.antt =====
-- What the direct download of content gives out.
use dadi_runtime.Base.{
  ℕ, ◌≤◌, String, true, false, Option, none, some, List, ◌≡◌, refl, sym, ap, ◌∙◌, inl, inr, arith,
  Bool-cases, Fields, ok, if◌then◌else◌, bind-eq-ok, truthy, or_default, length,
}
use dadi_runtime.Tables.{Db}
use dadi_runtime.Requests.{Request, tenant_id}
use dadi_runtime.Store.{get_artifact_meta, get_artifact_content}
use dadi_runtime.Bundles.{StreamLimits, stream_bytes, has_scope}
use dadi_runtime.Bundles.Chunks.{concat_all}
use dadi_runtime.Bundles.Revoked.{stream_bytes-ok}
use dadi_runtime.Deliverables.Replies.{bind-tenant}
use dadi_runtime.Planner.Gateway.{PlanDb}
use dadi_runtime.Auth.{require_scope}
use dadi_runtime.Gateway.{
  content, is_bundle_meta, stream_content, direct_content, content_for, get_content,
}

-- What a request that is given content has: the scope, a tenant, and an artifact of the tenant that is
-- no bundle, whose content it gets whole.
pub record Sent (scope : String) (request : Request) (sha : String) (s : Db) (n : ℕ)
    (chunks : List (List ℕ)) : Type 0 where
  pub scoped : has_scope scope request.scopes ≡ true
  pub known : truthy request.tenant_id ≡ true
  pub no_bundle : is_bundle_meta (get_artifact_meta s (or_default request.tenant_id "") sha) ≡ false
  pub bytes : List ℕ
  pub stored : get_artifact_content s (or_default request.tenant_id "") sha ≡ some bytes
  pub whole : concat_all chunks ≡ bytes
  pub counted : n ≡ length bytes

module _ (limits : StreamLimits) (size : 1 ≤ limits.chunk_size) where
  stream_content-ok :
      (o : Option (List ℕ)) (s s' : Db) (n : ℕ) (chunks : List (List ℕ))
      → stream_content limits o s ≡ (ok (content (n, chunks)), s')
      → (bytes : List ℕ) × (o ≡ some bytes) × (concat_all chunks ≡ bytes) × (n ≡ length bytes)
  unfolding stream_content
  stream_content-ok none s s' n chunks h = absurd (ground (arith, h))
  stream_content-ok (some bytes) s s' n chunks h =
      let run = stream_bytes limits bytes in
      let (reply, e, k) = bind-eq-ok run _ s h in
      let q : reply ≡ (n, chunks) = ground arith in
      let (w, c) =
        stream_bytes-ok limits bytes s (run s).1 n chunks size
          (ap (λ r. (r, (run s).1)) (e ∙ ap ok q)) in
      (bytes, refl, w, c)

  direct_content-ok :
      (t sha : String) (s s' : Db) (n : ℕ) (chunks : List (List ℕ))
      → direct_content limits t sha s ≡ (ok (content (n, chunks)), s')
      → (is_bundle_meta (get_artifact_meta s t sha) ≡ false)
        × (bytes : List ℕ) × (get_artifact_content s t sha ≡ some bytes)
        × (concat_all chunks ≡ bytes)
        × (n ≡ length bytes)
  unfolding direct_content
  direct_content-ok t sha s s' n chunks h =
      elim (Bool-cases (is_bundle_meta (get_artifact_meta s t sha))) [
        | inl bundle ↦
            let k = rw (bundle, direct_content, if◌then◌else◌) at h in absurd (ground (arith, k))
        | inr plain ↦
            let k = rw (plain, direct_content, if◌then◌else◌) at h in
            let (bytes, stored, whole, counted) =
              stream_content-ok (get_artifact_content s t sha) s s' n chunks k in
            (plain, bytes, stored, whole, counted)
      ]

  content_for-ok :
      (request : Request) (sha : String) (s s' : Db) (n : ℕ) (chunks : List (List ℕ))
      → (o : Option (ℕ × Fields))
      → content_for limits request sha o s ≡ (ok (content (n, chunks)), s')
      → (o ≡ none)
        × (truthy request.tenant_id ≡ true)
        × (direct_content limits (or_default request.tenant_id "") sha s
            ≡ (ok (content (n, chunks)), s'))
  unfolding content_for tenant_id
  content_for-ok request sha s s' n chunks (some deny) h = absurd (ground (arith, h))
  content_for-ok request sha s s' n chunks none h = elim (Bool-cases (truthy request.tenant_id)) [
    | inl known ↦
        (refl, known, sym (bind-tenant request (λ t. direct_content limits t sha) s known) ∙ h)
    | inr unknown ↦ absurd (ground (arith, unknown, h))
  ]

  -- A request for content that is given some has the scope, a tenant, and an artifact of that tenant
  -- that is no bundle; it gets the stored bytes whole, in order, with their number, if the chunks are
  -- not empty.
  pub get_content-Sent :
      (scope : String) (request : Request) (sha : String) (s s' : PlanDb) (n : ℕ)
      (chunks : List (List ℕ))
      → get_content limits scope request sha s ≡ (ok (content (n, chunks)), s')
      → Sent scope request sha s.db n chunks
  unfolding get_content require_scope
  get_content-Sent scope request sha s s' n chunks h =
      let (unrefused, known, k) =
        content_for-ok request sha s.db s'.db n chunks _ (ap (λ q. (q.0, q.1.db)) h) in
      let (plain, bytes, stored, whole, counted) =
        direct_content-ok (or_default request.tenant_id "") sha s.db s'.db n chunks k in
      record {
        scoped = ground (arith, unrefused);
        known = known;
        no_bundle = plain;
        bytes = bytes;
        stored = stored;
        whole = whole;
        counted = counted;
      }
