-- ===== src/Gateway.antt =====
-- services/gateway/dadi_gateway/app.py: the routes of artifacts, edges, memos and plans, and the
-- middlewares in the order in which a request meets them. FastAPI checks the parameters and bodies.
pub mod Content
pub mod Stack
use dadi_runtime.Base.{
  ℕ, String, Bool, true, false, ◌&&◌, ◌||◌, Option, none, some, List, [], ◌∷◌, ◌==◌, Json, Fields,
  end, field, str, bool, Exec, Exc, Result, ok, raised, raise, pure, http, value_error, key_error,
  ◌>>=◌, ◌>>◌, gets, if◌then◌else◌, truthy, or_default, strip, lower,
}
use dadi_runtime.Tables.{Edge, Db}
use dadi_runtime.Requests.{Request, tenant_id}
use dadi_runtime.Store.{
  Meta, ArtifactRecord, put_artifact, get_artifact_meta, get_artifact_content, record_edge,
  lineage_upstream, lineage_downstream, cache_lookup, cache_record,
}
use dadi_runtime.Bundles.{StreamLimits, stream_bytes}
use dadi_runtime.Planner.Query.{Casts, RegenerateRequest}
use dadi_runtime.Planner.Gateway.{
  Plan, PlanDb, ExplainItem, create_plan, get_plan, explain_plan, mark_executed,
}
use dadi_runtime.Signing.{Packages}
use dadi_runtime.Auth.{
  HttpRequest, Outcome, passed, answered, failed, JwtConfig, jwt_dispatch, require_scope,
}
use dadi_runtime.Auth.Oidc.{PyJwt, OidcConfig, JwksCache, oidc_dispatch}
use dadi_runtime.Limits.{Floats, Buckets, limit_dispatch}
use dadi_runtime.Limits.Redis.{RedisStore, redis_dispatch}

-- Code that uses the tables other than the plans.
abbrev pub with_db : {A : Type 0} → Exec Db A → Exec PlanDb A
with_db m s = let (r, db) = m s.db in (r, record s { db = db })

abbrev tenant_of : Request → Exec PlanDb String
tenant_of request = with_db (tenant_id request)

unfoldable pub decoded_content : Option (List ℕ) → Exec PlanDb (List ℕ)
decoded_content none = raise (http 400 "Invalid base64 content")
decoded_content (some content) = pure content

-- `base64.b64decode(content_b64, validate=True)` and `hashlib.sha256` are parameters.
unfoldable pub post_artifact :
    (String → Option (List ℕ))
    → (List ℕ → String)
    → Request
    → Meta
    → String
    → Exec PlanDb ArtifactRecord
unfolding decoded_content
post_artifact b64decode sha256_hex request meta content_b64 = do
  t ← tenant_of request
  content ← decoded_content (b64decode content_b64)
  with_db (put_artifact sha256_hex t meta content)

-- a missing row is 404
abbrev pub found_or : {A : Type 0} → String → Option A → Exec PlanDb A
found_or missing none = raise (http 404 missing)
found_or missing (some a) = pure a

unfoldable pub get_artifact : Request → String → Exec PlanDb ArtifactRecord
get_artifact request sha256 = do
  t ← tenant_of request
  rec ← gets (λ s. get_artifact_meta s.db t sha256)
  found_or "Artifact not found" rec

-- The refusal that is returned, or the length and the chunks of the content.
pub data ContentReply : Type 0 where
  denied : ℕ → Fields → ContentReply
  content : ℕ × List (List ℕ) → ContentReply

-- The types of bundles.
abbrev pub is_bundle_type : String → Bool
is_bundle_type t = t == "deliverable/bundle/zip-v1" || t == "deliverable/evidence/bundle-zip-v1"

abbrev pub is_bundle_meta : Option ArtifactRecord → Bool
is_bundle_meta none = false
is_bundle_meta (some m) = is_bundle_type m.artifact_type

unfoldable pub stream_content : StreamLimits → Option (List ℕ) → Exec Db ContentReply
stream_content limits none = raise (http 404 "Artifact content not available")
stream_content limits (some bytes) = do reply ← stream_bytes limits bytes; pure (content reply)

unfoldable pub direct_content : StreamLimits → String → String → Exec Db ContentReply
unfolding stream_content
direct_content limits t sha256 db =
    if is_bundle_meta (get_artifact_meta db t sha256)
    then (
      raised (
          http 403
            "Direct bundle download is disabled. Use /deliverables/{deliverable_id}/bundles/{bundle_id}/download"),
      db,
    )
    else stream_content limits (get_artifact_content db t sha256) db

unfoldable pub content_for :
    StreamLimits → Request → String → Option (ℕ × Fields) → Exec Db ContentReply
unfolding direct_content
content_for limits request sha256 (some (status, body)) = pure (denied status body)
content_for limits request sha256 none = do t ← tenant_id request; direct_content limits t sha256

-- `get_artifact_content` of the routes; the scope is `DADI_CONTENT_SCOPE`
unfoldable pub get_content : StreamLimits → String → Request → String → Exec PlanDb ContentReply
unfolding content_for
get_content limits content_scope request sha256 =
    with_db (content_for limits request sha256 (require_scope request content_scope))

abbrev pub ok_reply : Fields
ok_reply = field "ok" (bool true) end

unfoldable pub post_edge : Request → String → String → String → Option String → Exec PlanDb Fields
post_edge request from_sha256 to_sha256 edge_type stage_run_id = do
  t ← tenant_of request
  with_db (record_edge t from_sha256 to_sha256 edge_type stage_run_id)
  pure ok_reply

unfoldable pub get_upstream : Request → String → Exec PlanDb (List Edge)
get_upstream request sha256 = do t ← tenant_of request; gets (λ s. lineage_upstream s.db t sha256)

unfoldable pub get_downstream : Request → String → Exec PlanDb (List Edge)
get_downstream request sha256 = do
  t ← tenant_of request
  gets (λ s. lineage_downstream s.db t sha256)

abbrev hit_reply : Option String → Fields
hit_reply none = field "hit" (bool false) end
hit_reply (some out) = field "hit" (bool true) (field "output_sha256" (str out) end)

unfoldable pub lookup_cache : Request → String → String → String → Exec PlanDb Fields
lookup_cache request stage_name stage_schema_version input_sha256 = do
  t ← tenant_of request
  gets (λ s. hit_reply (cache_lookup s.db t stage_name stage_schema_version input_sha256))

unfoldable pub record_cache : Request → String → String → String → String → Exec PlanDb Fields
record_cache request stage_name stage_schema_version input_sha256 output_sha256 = do
  t ← tenant_of request
  with_db (cache_record t stage_name stage_schema_version input_sha256 output_sha256)
  pure ok_reply

-- `except ValueError as e: raise HTTPException(400, …)`
abbrev pub bad_request : Exc → Exc
bad_request (value_error e) = http 400 e
bad_request e = e

-- `except KeyError: raise HTTPException(404, …)`
abbrev pub plan_missing : Exc → Exc
plan_missing (key_error e) = http 404 "Plan not found"
plan_missing e = e

abbrev pub map_error : {A : Type 0} → (Exc → Exc) → Result A → Result A
map_error f (ok a) = ok a
map_error f (raised e) = raised (f e)

-- `try: … except …: raise …`
abbrev pub excepting : {A : Type 0} → (Exc → Exc) → Exec PlanDb A → Exec PlanDb A
excepting f m s = let (r, after) = m s in (map_error f r, after)

unfoldable pub plan_regenerate :
    Casts → (ℕ → String) → Request → RegenerateRequest → Exec PlanDb Plan
plan_regenerate c uuid4 request req = do
  t ← tenant_of request
  excepting bad_request (create_plan c uuid4 t req)

unfoldable pub plan_get : Request → String → Exec PlanDb Plan
plan_get request plan_id = do t ← tenant_of request; excepting plan_missing (get_plan t plan_id)

unfoldable pub plan_explain : Request → String → Exec PlanDb (Plan × List ExplainItem)
plan_explain request plan_id = do
  t ← tenant_of request
  excepting plan_missing (explain_plan t plan_id)

abbrev executed_reply : String → Fields
executed_reply plan_id =
    field "ok" (bool true) (field "plan_id" (str plan_id) (field "status" (str "executed") end))

-- `payload.get("plan_id")`, a text where it is given
unfoldable pub plan_execute : Request → Option String → Exec PlanDb Fields
plan_execute request plan_id = do
  t ← tenant_of request
  if truthy plan_id
      then (do
        mark_executed t (or_default plan_id "")
        pure (executed_reply (or_default plan_id "")))
      else raise (http 400 "Missing plan_id")

-- `add_middleware` puts each middleware outside of those before it: a request meets the limiter in
-- Redis, then the limiter in memory, then the authentication.
abbrev pub then_pass : Outcome → (HttpRequest → Outcome) → Outcome
then_pass (passed request) next = next request
then_pass (answered status body) next = answered status body
then_pass (failed e) next = failed e

-- What the middlewares read of the environment.
pub record Settings : Type 0 where
  pub auth_mode : String
  pub jwt : JwtConfig
  pub oidc : OidcConfig
  pub rate_limit_enabled : Bool
  pub rate_limit_backend : String
  pub fail_closed : Bool

-- `oidc`, or else the middleware for `jwt`, which lets all pass in other modes. That the client in the
-- cache may be renewed on the way is said by `oidc_dispatch` and left out here.
unfoldable pub authenticate : Packages → PyJwt → Settings → ℕ → JwksCache → HttpRequest → Outcome
authenticate p j cfg now cache request =
    if cfg.auth_mode == "oidc"
    then (oidc_dispatch p j "oidc" cfg.oidc now request cache).0
    else jwt_dispatch p cfg.jwt now request

module _ (F : Floats) (to_text : F.Float → String) where
  unfoldable pub limit_then_authenticate :
      Packages
      → PyJwt
      → Settings
      → F.Float
      → ℕ
      → JwksCache
      → Outcome
      → Buckets F
      → Outcome × Buckets F
  unfolding authenticate
  limit_then_authenticate p j cfg time now cache (answered status body) buckets =
      (answered status body, buckets)
  limit_then_authenticate p j cfg time now cache (failed e) buckets = (failed e, buckets)
  limit_then_authenticate p j cfg time now cache (passed request) buckets =
      let (outcome, after) = limit_dispatch F p cfg.rate_limit_enabled time request buckets in
      (then_pass outcome (authenticate p j cfg now cache), after)

  -- `none` as long as the limiter in Redis has not returned
  unfoldable pub dispatch :
      Packages
      → PyJwt
      → Settings
      → F.Float
      → ℕ
      → JwksCache
      → List (Option RedisStore)
      → HttpRequest
      → Buckets F
      → Option (Outcome × Buckets F)
  unfolding limit_then_authenticate
  dispatch p j cfg time now cache rounds request buckets =
      elim (redis_dispatch F to_text p cfg.rate_limit_enabled cfg.rate_limit_backend cfg.fail_closed
        time request rounds) [
          | none ↦ none
          | some outcome ↦ some (limit_then_authenticate p j cfg time now cache outcome buckets)
        ]
