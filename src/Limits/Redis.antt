-- ===== src/Limits/Redis.antt =====
-- services/gateway/dadi_gateway/rate_limit_redis.py: the token buckets of several gateways, kept in
-- Redis. Redis is a map from keys to hashes that expire, on a clock of its own in seconds.
pub mod Same
use Prim.Native.String.{◌++◌ as concat}
use dadi_runtime.Base.{
  ℕ, ◌+◌, ℤ, String, Bool, true, false, Option, none, some, List, [], ◌∷◌, ◌≡◌, ◌≢◌, refl, sym, ap,
  ◌∙◌, inl, inr, arith, eq_iff, eq_refl, Bool-cases, ◌==◌, ◌&&◌, not, Fields, end, field, str,
  Result, ok, raised, if◌then◌else◌, ltb,
}
use dadi_runtime.Signing.{Packages}
use dadi_runtime.Auth.{HttpRequest, Outcome, passed, answered, failed, detail}
use dadi_runtime.Limits.{
  Floats, Bucket, refilled, spend, refill, allow_from, new_bucket, limited_tenant, lane_of,
  lane_limits, too_many,
}

-- A hash with its time of expiry; the values are texts.
pub record Entry : Type 0 where
  pub key : String
  pub tokens : Option String
  pub updated_at : Option String
  pub expires_at : ℕ

pub record RedisStore : Type 0 where
  pub entries : List Entry
  pub server_time : ℕ

-- `p.hgetall(key)`, with `none` for a missing or expired key
unfoldable pub hgetall : String → ℕ → List Entry → Option Entry
hgetall key now [] = none
hgetall key now (e ∷ es) =
    if e.key == key then (if ltb now e.expires_at then some e else none) else hgetall key now es

-- `p.hset(key, …)` and `p.expire(key, …)`
unfoldable pub hset : Entry → List Entry → List Entry
hset e [] = e ∷ []
hset e (d ∷ ds) = let rest = hset e ds in if d.key == e.key then e ∷ ds else d ∷ rest

-- the key of a tenant and a lane
unfoldable pub limit_key : String → String → String
limit_key tenant lane = concat "dadi:rl:" (concat tenant (concat ":" lane))

module _ (F : Floats) (to_text : F.Float → String) where
  -- `float(data.get(name, default))`, `none` where it raises
  abbrev pub float_or : Option String → F.Float → Option F.Float
  float_or none default = some default
  float_or (some s) default = F.of_text s

  abbrev pub new_entry : String → F.Float → F.Float → ℕ → Entry
  new_entry key tokens now server_time = record {
    key = key;
    tokens = some (to_text tokens);
    updated_at = some (to_text now);
    expires_at = server_time + 3600;
  }

  abbrev pub stored : Entry → RedisStore → RedisStore
  stored e store = record store { entries = hset e store.entries }

  -- The tokens and the time that an attempt starts from.
  unfoldable pub read_bucket : ℤ → F.Float → Option Entry → Option F.Float × Option F.Float
  read_bucket capacity now none = (some (F.of_int capacity), some now)
  read_bucket capacity now (some e) =
      (float_or e.tokens (F.of_int capacity), float_or e.updated_at now)

  unfoldable pub write_bucket :
      String
      → ℤ
      → F.Float
      → F.Float
      → Option F.Float × Option F.Float
      → RedisStore
      → Option (Bool × RedisStore)
  unfolding hset
  write_bucket key capacity refill_per_sec now (some old, some updated_at) store =
      let tokens = refilled F capacity refill_per_sec old updated_at now in
      some (F.le F.one tokens, stored (new_entry key (spend F tokens) now store.server_time) store)
  write_bucket key capacity refill_per_sec now _ store = none

  -- One round of the loop, on the store that it meets; `none` where it raises.
  unfoldable pub attempt : String → ℤ → F.Float → F.Float → RedisStore → Option (Bool × RedisStore)
  unfolding read_bucket write_bucket hgetall
  attempt key capacity refill_per_sec now store =
      write_bucket key capacity refill_per_sec now
        (read_bucket capacity now (hgetall key store.server_time store.entries)) store

  -- `RedisRateLimiter.allow`: the stores that the rounds meet, `none` for a round in which Redis raises
  -- or another client writes first. The result is `none` as long as the loop has not ended.
  unfoldable pub allow_rounds :
      String → ℤ → F.Float → F.Float → List (Option RedisStore) → Option (Bool × RedisStore)
  unfolding attempt
  allow_rounds key capacity refill_per_sec now [] = none
  allow_rounds key capacity refill_per_sec now (none ∷ rounds) =
      allow_rounds key capacity refill_per_sec now rounds
  allow_rounds key capacity refill_per_sec now (some store ∷ rounds) =
      elim (attempt key capacity refill_per_sec now store) [
        | none ↦ allow_rounds key capacity refill_per_sec now rounds
        | some r ↦ some r
      ]

  -- the loop returns, and raises nothing
  abbrev pub returned : Option (Bool × RedisStore) → Option (Result (Bool × RedisStore))
  returned none = none
  returned (some r) = some (ok r)

  unfoldable pub redis_allow :
      String
      → String
      → ℤ
      → F.Float
      → F.Float
      → List (Option RedisStore)
      → Option (Result (Bool × RedisStore))
  unfolding allow_rounds limit_key
  redis_allow tenant lane capacity refill_per_sec now rounds =
      returned (allow_rounds (limit_key tenant lane) capacity refill_per_sec now rounds)

  -- What the middleware makes of the limiter; `none` as long as the limiter has not returned.
  unfoldable pub answer_allowed :
      Bool → HttpRequest → Option (Result (Bool × RedisStore)) → Option Outcome
  answer_allowed fail_closed request none = none
  answer_allowed fail_closed request (some (raised e)) =
      if fail_closed
      then some (answered 503 (detail "Rate limiter unavailable"))
      else some (passed request)
  answer_allowed fail_closed request (some (ok (allowed, store))) =
      if allowed
      then some (passed request)
      else some (too_many (limited_tenant request) (lane_of request))

  unfoldable pub redis_limit :
      Bool
      → HttpRequest
      → F.Float
      → List (Option RedisStore)
      → Result (ℤ × F.Float)
      → Option Outcome
  unfolding answer_allowed redis_allow
  redis_limit fail_closed request now rounds (raised e) = some (failed "ValueError")
  redis_limit fail_closed request now rounds (ok (capacity, refill_per_sec)) =
      answer_allowed fail_closed request
        (redis_allow (limited_tenant request) (lane_of request) capacity refill_per_sec now rounds)

  -- `RateLimitRedisMiddleware.dispatch`
  unfoldable pub redis_dispatch :
      Packages
      → Bool
      → String
      → Bool
      → F.Float
      → HttpRequest
      → List (Option RedisStore)
      → Option Outcome
  unfolding redis_limit
  redis_dispatch p enabled backend fail_closed now request rounds =
      if enabled && backend == "redis"
      then redis_limit fail_closed request now rounds (lane_limits F p (lane_of request))
      else some (passed request)
