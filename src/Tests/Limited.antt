-- ===== src/Tests/Limited.antt =====
-- Witnesses for the limits, and a request with a token.
use Prim.Native.String.{char_at}
use dadi_runtime.Base.{
  ℕ, zero, suc, ◌+◌, ◌-◌, ◌*◌, ◌<◌, ℤ, pos, negsuc, String, true, false, none, some, [], ◌∷◌, ◌≡◌,
  refl, inl, arith, ◌==◌, Fields, end, field, str, obj, nat, ok, if◌then◌else◌, leb, bytes_eq,
  ends_with, count, All, ap,
}
use dadi_runtime.Requests.{Request}
use dadi_runtime.Signing.{Packages}
use dadi_runtime.Auth.{HttpRequest}
use dadi_runtime.Limits.{
  Floats, Bucket, new_bucket, find_bucket, allow_from, allow, classify_lane, lane_limits,
}
use dadi_runtime.Limits.Buckets.{IsOrdered, IsBounded, HasLimits, allow-IsBounded, allow-later}
use dadi_runtime.Limits.Redis.{
  RedisStore, redis_allow, limit_key, hgetall, redis_dispatch, new_entry,
}
use dadi_runtime.Limits.Redis.Same.{
  IsStored, IsExact, used, store_after, redis_allow-same, redis_dispatch-unavailable,
}

abbrev pub payload : Fields
payload =
    field "tenant_id" (str "acme")
      (field "scope" (str "artifact:read_bytes") (field "exp" (nat 100) end))

-- The token h.p.s: a header, the payload, and the one signature that there is.
abbrev pub packages : Packages
packages = record {
  getenv = λ name. none;
  canonical_json_bytes = λ d. [];
  loads = λ s. if s == "header" then ok (obj (field "alg" (str "HS256") end)) else ok (obj payload);
  repr = λ v. "?";
  encode = λ s. [];
  decode = λ bytes. if bytes_eq bytes (1 ∷ []) then some "header" else some "payload";
  int_of_text = λ s. if s == "many" then none else some (pos 5);
  int_of_float = λ s. none;
  urlsafe_b64encode = λ bytes. "s";
  urlsafe_b64decode = λ s. if s == "h===" then some (1 ∷ []) else some (2 ∷ []);
  hmac_sha256 = λ key message. [];
  has_cryptography = false;
  ed25519_sign = λ key message. [];
  ed25519_verify = λ key sig message. false;
}

-- numbers that count whole tokens and seconds
abbrev pub of_int : ℤ → ℕ
of_int (pos n) = n
of_int (negsuc n) = 0

abbrev pub nats : Floats
nats = record {
  Float = ℕ;
  zero = 0;
  one = 1;
  of_int = of_int;
  of_text = λ s. if s == "0.5" then some 7 else some 1;
  add = λ a b. a + b;
  sub = λ a b. a - b;
  mul = λ a b. a * b;
  min = λ a b. if leb a b then a else b;
  max = λ a b. if leb a b then b else a;
  le = leb;
}

leb_zero : (n : ℕ) → leb 0 n ≡ true
leb_zero n = ground arith

nats-IsOrdered : IsOrdered nats
nats-IsOrdered = record {
  le_refl = λ a. ground arith;
  min_le = λ a b. ground arith;
  le_min = λ a b c h k. ground arith;
  sub_one_le = λ a c h. ground arith;
  sub_one_nonneg = λ a h. leb_zero (a - 1);
  le_add = λ a b c h k. ground arith;
  mul_nonneg = λ a b h k. leb_zero (a * b);
  max_nonneg = λ a. leb_zero _;
}

abbrev pub bucket : Bucket nats
bucket = new_bucket nats "acme" "bytes" (pos 1) 1 10

allow-IsBounded_example :
    All (IsBounded nats nats-IsOrdered) (allow nats "acme" "bytes" (pos 1) 1 11 (bucket ∷ [])).1
allow-IsBounded_example =
    allow-IsBounded nats nats-IsOrdered "acme" "bytes" (pos 1) 1 11 (bucket ∷ []) refl refl
      ((refl, refl, refl, refl), tt)

bucket-HasLimits : HasLimits nats nats-IsOrdered "acme" "bytes" (pos 1) 1 (bucket ∷ [])
unfolding find_bucket
bucket-HasLimits b e = (ground (arith, e), ground (arith, e))

allow-later_example :
    (allow nats "acme" "bytes"
      (pos 1)
      1
      12
      (allow nats "acme" "bytes" (pos 1) 1 11 (bucket ∷ [])).1).0
    ≡ true
allow-later_example =
    allow-later nats nats-IsOrdered "acme" "bytes" (pos 1) 1 11 12 (bucket ∷ []) refl refl refl
      ((refl, refl, refl, refl), tt) bucket-HasLimits refl

-- Numbers as texts: of each, as many letters.
unfoldable pub letters : ℕ → String
letters zero = ""
letters (suc n) = String.◌∷◌ (char_at "I" 0) (letters n)

count-letters : (n : ℕ) → count (letters n) ≡ n
unfolding count letters
count-letters zero = refl
count-letters (suc n) = ap suc (count-letters n)

abbrev tallies : Floats
tallies = record nats { of_text = λ s. some (count s) }

tallies-IsExact : IsExact tallies letters
tallies-IsExact n = ap some (count-letters n)

abbrev tally : Bucket tallies
tally = new_bucket tallies "acme" "bytes" (pos 1) 1 10

abbrev redis : RedisStore
redis = record {
  entries = new_entry tallies letters "dadi:rl:acme:bytes" 1 10 0 ∷ [];
  server_time = 5;
}

redis_allow-same_example :
    (redis_allow tallies letters "acme" "bytes" (pos 1) 1 11 (none ∷ some redis ∷ [])
      ≡ some (
          ok (
            (allow_from tallies tally 11 []).0,
            store_after tallies letters (limit_key "acme" "bytes") tally 11 redis,
          )))
    × ((t : ℕ)
        → t < redis.server_time + 3600
        → IsStored tallies letters
            (limit_key "acme" "bytes")
            t
            (store_after tallies letters (limit_key "acme" "bytes") tally 11 redis).entries
            (used tallies letters tally 11))
unfolding hgetall limit_key
redis_allow-same_example =
    redis_allow-same tallies letters tallies-IsExact "acme" "bytes" tally 11 [] 1 redis []
      (inl (new_entry tallies letters "dadi:rl:acme:bytes" 1 10 0, refl, refl, refl))

abbrev pub coming_in : Request
coming_in = record {
  tenant_id = none;
  scopes = [];
  subject = none;
  idempotency_key = none;
  method = "GET";
  path = "/artifacts/a/content";
}

abbrev pub request : HttpRequest
request = record {
  authorization = some "Bearer h.p.s";
  content_length = some "5";
  state = coming_in;
}

limits_load : lane_limits nats packages "bytes" ≡ ok (pos 5, 7)
unfolding lane_limits
limits_load = refl

redis_dispatch-unavailable_example :
    redis_dispatch nats letters packages true "redis" true 11 request (none ∷ none ∷ []) ≡ none
unfolding classify_lane ends_with
redis_dispatch-unavailable_example =
    redis_dispatch-unavailable nats letters packages true 11 request 2 (pos 5, 7) limits_load
