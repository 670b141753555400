-- ===== src/Limits.antt =====
-- services/gateway/dadi_gateway/rate_limit.py: a token bucket for each tenant and lane of requests.
-- Python's floats are the carrier of `Floats`.
pub mod Redis
pub mod Buckets
pub mod Sizes
use dadi_runtime.Base.{
  ℕ, ℤ, pos, negsuc, suc, String, Bool, true, false, ◌&&◌, ◌||◌, Option, none, some, List, [], ◌∷◌,
  ◌==◌, Fields, end, field, str, int, Result, ok, raised, value_error, if◌then◌else◌, truthy,
  or_default, ltb, strip, lower, ends_with, contains_text,
}
use dadi_runtime.Base.Results.{◌>>=◌}
use dadi_runtime.Requests.{Request}
use dadi_runtime.Signing.{Packages, env_or}
use dadi_runtime.Auth.{HttpRequest, Outcome, passed, answered, failed, detail}

pub record Floats : Type 1 where
  pub Float : Type 0
  pub zero : Float
  pub one : Float
  -- `float(n)`
  pub of_int : ℤ → Float
  -- `float(s)`, `none` where it raises
  pub of_text : String → Option Float
  pub add : Float → Float → Float
  pub sub : Float → Float → Float
  pub mul : Float → Float → Float
  pub min : Float → Float → Float
  pub max : Float → Float → Float
  -- `a <= b`
  pub le : Float → Float → Bool

pub record Bucket (F : Floats) : Type 0 where
  pub tenant : String
  pub lane : String
  pub capacity : ℤ
  pub refill_per_sec : F.Float
  pub tokens : F.Float
  pub updated_at : F.Float

module _ (F : Floats) where
  abbrev pub Buckets : Type 0
  Buckets = List (Bucket F)

  abbrev pub is_bucket : String → String → Bucket F → Bool
  is_bucket tenant lane b = b.tenant == tenant && b.lane == lane

  -- `self._buckets.get(key)`
  unfoldable pub find_bucket : String → String → Buckets → Option (Bucket F)
  find_bucket tenant lane [] = none
  find_bucket tenant lane (b ∷ bs) =
      if is_bucket tenant lane b then some b else find_bucket tenant lane bs

  -- The bucket with the key of `b` is `b`.
  unfoldable pub put_bucket : Bucket F → Buckets → Buckets
  put_bucket b [] = b ∷ []
  put_bucket b (c ∷ cs) =
      let rest = put_bucket b cs in if is_bucket b.tenant b.lane c then b ∷ cs else c ∷ rest

  abbrev pub new_bucket : String → String → ℤ → F.Float → F.Float → Bucket F
  new_bucket tenant lane capacity refill_per_sec now = record {
    tenant = tenant;
    lane = lane;
    capacity = capacity;
    refill_per_sec = refill_per_sec;
    tokens = F.of_int capacity;
    updated_at = now;
  }

  -- `min(float(capacity), tokens + max(0.0, now - updated_at) * refill_per_sec)`
  abbrev pub refilled : ℤ → F.Float → F.Float → F.Float → F.Float → F.Float
  refilled capacity refill_per_sec tokens updated_at now =
      F.min (F.of_int capacity)
        (F.add tokens (F.mul (F.max F.zero (F.sub now updated_at)) refill_per_sec))

  -- the tokens that are left, whether or not one is taken
  abbrev pub spend : F.Float → F.Float
  spend tokens = if F.le F.one tokens then F.sub tokens F.one else tokens

  abbrev pub refill : Bucket F → F.Float → F.Float
  refill b now = refilled b.capacity b.refill_per_sec b.tokens b.updated_at now

  unfoldable pub allow_from : Bucket F → F.Float → Buckets → Bool × Buckets
  unfolding put_bucket
  allow_from b now buckets =
      let tokens = refill b now in
      (F.le F.one tokens, put_bucket (record b { tokens = spend tokens; updated_at = now }) buckets)

  abbrev pub bucket_or_new : Option (Bucket F) → Bucket F → Bucket F
  bucket_or_new none b = b
  bucket_or_new (some c) b = c

  -- `InMemoryRateLimiter.allow`, at the time `now`
  unfoldable pub allow : String → String → ℤ → F.Float → F.Float → Buckets → Bool × Buckets
  unfolding find_bucket allow_from
  allow tenant lane capacity refill_per_sec now buckets =
      allow_from
        (bucket_or_new (find_bucket tenant lane buckets)
          (new_bucket tenant lane capacity refill_per_sec now))
        now buckets

unfoldable pub classify_lane : String → String → String
unfolding ends_with contains_text
classify_lane path method =
    if ends_with path "/content"
    then "bytes"
    else if contains_text path "/bundles/" && ends_with path "/download"
    then "bundle_download"
    else if method == "POST" && ends_with path "/bundle"
    then "bundle_create"
    else if method == "POST" && ends_with path "/evidence"
    then "evidence_create"
    else if method == "POST" && path == "/artifacts"
    then "artifact_upload"
    else "meta"

-- the two variables of a lane and their defaults
abbrev limit_names : String → (String × String) × (String × String)
limit_names lane =
    if lane == "bytes"
    then (("DADI_RL_BYTES_CAP", "30"), ("DADI_RL_BYTES_RPS", "0.5"))
    else if lane == "bundle_download"
    then (("DADI_RL_BDL_DL_CAP", "10"), ("DADI_RL_BDL_DL_RPS", "0.1"))
    else if lane == "bundle_create"
    then (("DADI_RL_BDL_CREATE_CAP", "5"), ("DADI_RL_BDL_CREATE_RPS", "0.05"))
    else if lane == "evidence_create"
    then (("DADI_RL_EVID_CREATE_CAP", "5"), ("DADI_RL_EVID_CREATE_RPS", "0.05"))
    else if lane == "artifact_upload"
    then (("DADI_RL_UPLOAD_CAP", "10"), ("DADI_RL_UPLOAD_RPS", "0.1"))
    else (("DADI_RL_META_CAP", "120"), ("DADI_RL_META_RPS", "2.0"))

abbrev parsed {ℓ} : {A : Type ℓ} → Option A → Result A
parsed none = raised (value_error "could not convert string")
parsed (some a) = ok a

unfoldable pub lane_limits : (F : Floats) → Packages → String → Result (ℤ × F.Float)
lane_limits F p lane =
    let (cap, rps) = limit_names lane in
    do
      capacity ← parsed (p.int_of_text (env_or p cap.0 cap.1))
      refill_per_sec ← parsed (F.of_text (env_or p rps.0 rps.1))
      ok (capacity, refill_per_sec)

-- `value.strip().lower() in ("1", "true", "yes")`
unfoldable pub is_enabled : String → Bool
unfolding strip lower
is_enabled value = let v = lower (strip value) in v == "1" || v == "true" || v == "yes"

-- `getattr(request.state, "tenant_id", None) or "anonymous"`
abbrev pub limited_tenant : HttpRequest → String
limited_tenant request = or_default request.state.tenant_id "anonymous"

abbrev pub lane_of : HttpRequest → String
lane_of request = classify_lane request.state.path request.state.method

abbrev pub too_many : String → String → Outcome
too_many tenant lane = answered 429 (
    field "detail" (str "Too Many Requests")
      (field "tenant" (str tenant) (field "lane" (str lane) end)))

module _ (F : Floats) where
  unfoldable pub limit_with :
      HttpRequest → F.Float → Buckets F → Result (ℤ × F.Float) → Outcome × Buckets F
  unfolding allow
  limit_with request now buckets (raised e) = (failed "ValueError", buckets)
  limit_with request now buckets (ok (capacity, refill_per_sec)) =
      let tenant = limited_tenant request in
      let lane = lane_of request in
      let (allowed, after) = allow F tenant lane capacity refill_per_sec now buckets in
      (if allowed then passed request else too_many tenant lane, after)

  -- `RateLimitMiddleware.dispatch`
  unfoldable pub limit_dispatch :
      Packages → Bool → F.Float → HttpRequest → Buckets F → Outcome × Buckets F
  unfolding limit_with lane_limits classify_lane
  limit_dispatch p enabled now request buckets =
      if enabled
      then limit_with request now buckets (lane_limits F p (lane_of request))
      else (passed request, buckets)
