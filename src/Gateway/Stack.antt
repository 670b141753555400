-- ===== src/Gateway/Stack.antt =====
-- The middlewares together: what the limiter knows of a request, and what a request has passed.
use dadi_runtime.Base.{
  ℕ, ℤ, String, Bool, true, false, Option, none, some, List, ◌≡◌, refl, ap, ◌∙◌, inl, inr, arith,
  [], ◌&&◌, ◌==◌, Bool-cases, Result, ok, raised, if◌then◌else◌,
}
use dadi_runtime.Signing.{Packages}
use dadi_runtime.Auth.{HttpRequest, Outcome, passed, answered, failed}
use dadi_runtime.Auth.Passed.{IsAuthenticated, jwt_dispatch-passed}
use dadi_runtime.Auth.Oidc.{PyJwt, JwksCache}
use dadi_runtime.Limits.{
  Floats, Buckets, allow, lane_limits, limit_with, limit_dispatch, too_many, limited_tenant,
  lane_of, classify_lane,
}
use dadi_runtime.Limits.Redis.{RedisStore, answer_allowed, redis_limit, redis_dispatch}
use dadi_runtime.Gateway.{Settings, then_pass, authenticate, limit_then_authenticate, dispatch}

module _ (F : Floats) where
  limit_with-passed :
      (r next : HttpRequest) (now : F.Float) (bs : Buckets F) (limits : Result (ℤ × F.Float))
      → (limit_with F r now bs limits).0 ≡ passed next
      → r ≡ next
  unfolding limit_with
  limit_with-passed r next now bs (raised e) h = absurd (ground (arith, h))
  limit_with-passed r next now bs (ok (cap, rps)) h =
      passed_if (limited_tenant r) (lane_of r) (allow F _ _ cap rps now bs).0 h
    where
      passed_if :
          (tenant lane : String) (b : Bool)
          → (if b then passed r else too_many tenant lane) ≡ passed next
          → r ≡ next
      passed_if tenant lane true e = ground arith
      passed_if tenant lane false e = absurd (ground (arith, e))

  limit_dispatch-passed :
      (p : Packages) (enabled : Bool) (now : F.Float) (r next : HttpRequest) (bs : Buckets F)
      → (limit_dispatch F p enabled now r bs).0 ≡ passed next
      → r ≡ next
  unfolding limit_dispatch
  limit_dispatch-passed p false now r next bs h = ground arith
  limit_dispatch-passed p true now r next bs h =
      limit_with-passed r next now bs (lane_limits F p (lane_of r)) h

module _ (F : Floats) (to_text : F.Float → String) where
  answer_allowed-passed :
      (fail_closed : Bool) (r next : HttpRequest) (o : Option (Result (Bool × RedisStore)))
      → answer_allowed F to_text fail_closed r o ≡ some (passed next)
      → r ≡ next
  unfolding answer_allowed
  answer_allowed-passed fail_closed r next none h = absurd (ground (arith, h))
  answer_allowed-passed true r next (some (raised e)) h = absurd (ground (arith, h))
  answer_allowed-passed false r next (some (raised e)) h = ground arith
  answer_allowed-passed fail_closed r next (some (ok (true, store))) h = ground arith
  answer_allowed-passed fail_closed r next (some (ok (false, store))) h = absurd (ground (arith, h))

  redis_dispatch-passed :
      (p : Packages) (enabled : Bool) (backend : String) (fail_closed : Bool) (now : F.Float)
      (r next : HttpRequest) (rounds : List (Option RedisStore))
      → redis_dispatch F to_text p enabled backend fail_closed now r rounds ≡ some (passed next)
      → r ≡ next
  unfolding redis_dispatch redis_limit
  redis_dispatch-passed p enabled backend fail_closed now r next rounds h =
      elim (Bool-cases (enabled && backend == "redis")) [
        | inl on ↦
            limited (lane_limits F p (lane_of r)) (rw (on, redis_dispatch, if◌then◌else◌) at h)
        | inr off ↦ let k = rw (off, redis_dispatch, if◌then◌else◌) at h in ground arith
      ]
    where
      limited :
          (limits : Result (ℤ × F.Float))
          → redis_limit F to_text fail_closed r now rounds limits ≡ some (passed next)
          → r ≡ next
      limited (raised e) k = absurd (ground (arith, k))
      limited (ok (cap, rps)) k = answer_allowed-passed fail_closed r next _ k

  module _ (p : Packages) (j : PyJwt) (cfg : Settings) (time : F.Float) (now : ℕ)
      (cache : JwksCache) where
    limited-passed :
        (outcome : Outcome) (request next : HttpRequest) (bs after : Buckets F)
        → cfg.auth_mode ≡ "jwt"
        → cfg.jwt.mode ≡ "jwt"
        → ((r : HttpRequest) → outcome ≡ passed r → request ≡ r)
        → limit_then_authenticate F to_text p j cfg time now cache outcome bs ≡ (passed next, after)
        → IsAuthenticated p cfg.jwt now request next
    unfolding limit_then_authenticate authenticate
    limited-passed (answered status body) request next bs after auth mode same h =
        absurd (ground (arith, ap (λ x. x.0) h))
    limited-passed (failed e) request next bs after auth mode same h =
        absurd (ground (arith, ap (λ x. x.0) h))
    limited-passed (passed r) request next bs after auth mode same h =
        through (limit_dispatch F p cfg.rate_limit_enabled time r bs).0 refl (ap (λ x. x.0) h)
      where
        through :
            (o : Outcome)
            → (limit_dispatch F p cfg.rate_limit_enabled time r bs).0 ≡ o
            → then_pass o (authenticate p j cfg now cache) ≡ passed next
            → IsAuthenticated p cfg.jwt now request next
        through (answered status body) e k = absurd (ground (arith, k))
        through (failed x) e k = absurd (ground (arith, k))
        through (passed q) e k =
            let is_q : request ≡ q =
              same r refl ∙ limit_dispatch-passed F p cfg.rate_limit_enabled time r q bs e in
            jwt_dispatch-passed p cfg.jwt now request next mode
              (rw (← is_q) at (rw (auth, authenticate, if◌then◌else◌) at k))

    -- With the authentication by `jwt` on, a request that gets past all middlewares carries a valid
    -- bearer token, and reaches the routes with the tenant of the token's claims and their scopes,
    -- whatever the limiters do.
    pub dispatch-passed :
        (rounds : List (Option RedisStore)) (request next : HttpRequest) (bs after : Buckets F)
        → cfg.auth_mode ≡ "jwt"
        → cfg.jwt.mode ≡ "jwt"
        → dispatch F to_text p j cfg time now cache rounds request bs ≡ some (passed next, after)
        → IsAuthenticated p cfg.jwt now request next
    unfolding dispatch
    dispatch-passed rounds request next bs after auth mode h =
        met
          (redis_dispatch F to_text p cfg.rate_limit_enabled cfg.rate_limit_backend cfg.fail_closed
            time request rounds)
          refl h
      where
        met :
            (o : Option Outcome)
            → redis_dispatch F to_text p cfg.rate_limit_enabled cfg.rate_limit_backend
                cfg.fail_closed time request rounds
              ≡ o
            → elim o [
              | none ↦ none
              | some outcome ↦
                  some (limit_then_authenticate F to_text p j cfg time now cache outcome bs)
            ]
              ≡ some (passed next, after)
            → IsAuthenticated p cfg.jwt now request next
        met none e k = absurd (ground (arith, k))
        met (some outcome) e k =
            limited-passed outcome request next bs after auth mode
              (λ r is_r. redis_dispatch-passed p _ _ _ time request r rounds (e ∙ ap some is_r))
              (ground arith)

-- A request as it comes in: no middleware has written to its state.
abbrev pub incoming : Option String → Option String → Option String → String → String → HttpRequest
incoming authorization content_length key method path = record {
  authorization = authorization;
  content_length = content_length;
  state = record {
    tenant_id = none;
    scopes = [];
    subject = none;
    idempotency_key = key;
    method = method;
    path = path;
  };
}

module _ (F : Floats) (to_text : F.Float → String) where
  redis_dispatch-memory :
      (p : Packages) (enabled : Bool) (backend : String) (fail_closed : Bool) (now : F.Float)
      (r : HttpRequest) (rounds : List (Option RedisStore))
      → (backend == "redis") ≡ false
      → redis_dispatch F to_text p enabled backend fail_closed now r rounds ≡ some (passed r)
  unfolding redis_dispatch
  redis_dispatch-memory p enabled backend fail_closed now r rounds h = ground (arith, h)

  limit_dispatch-loaded :
      (p : Packages) (enabled : Bool) (now : F.Float) (r : HttpRequest) (bs : Buckets F)
      (limits : ℤ × F.Float)
      → enabled ≡ true
      → lane_limits F p (lane_of r) ≡ ok limits
      → limit_dispatch F p enabled now r bs ≡ limit_with F r now bs (ok limits)
  unfolding limit_dispatch
  limit_dispatch-loaded p enabled now r bs limits on loads =
      ap (λ b. limit_dispatch F p b now r bs) on ∙ ap (limit_with F r now bs) loads

  -- With the limiter in memory on, a request that comes in draws on the bucket of `anonymous` and its
  -- lane, whatever token it carries: the answer is 429 where that bucket refuses, and only where it
  -- allows does the authentication decide.
  pub dispatch-incoming :
      (p : Packages) (j : PyJwt) (cfg : Settings) (time : F.Float) (now : ℕ) (cache : JwksCache)
      (rounds : List (Option RedisStore)) (bs : Buckets F)
      (authorization content_length key : Option String) (method path : String) (capacity : ℤ)
      (refill_per_sec : F.Float)
      → cfg.rate_limit_enabled ≡ true
      → (cfg.rate_limit_backend == "redis") ≡ false
      → lane_limits F p (classify_lane path method) ≡ ok (capacity, refill_per_sec)
      → let r = incoming authorization content_length key method path in
        let lane = classify_lane path method in
        let drawn = allow F "anonymous" lane capacity refill_per_sec time bs in
        dispatch F to_text p j cfg time now cache rounds r bs
        ≡ some (
          if drawn.0 then authenticate p j cfg now cache r else too_many "anonymous" lane,
          drawn.1,
        )
  unfolding dispatch limit_then_authenticate limit_with
  dispatch-incoming p j cfg time now cache rounds bs authorization content_length key method path
        capacity refill_per_sec on memory loads =
      let r = incoming authorization content_length key method path in
      let lane = classify_lane path method in
      let admit : Option Outcome → Option (Outcome × Buckets F) = λ o. elim o [
        | none ↦ none
        | some outcome ↦ some (limit_then_authenticate F to_text p j cfg time now cache outcome bs)
      ] in
      let finish : Outcome × Buckets F → Option (Outcome × Buckets F) =
        λ x. some (then_pass x.0 (authenticate p j cfg now cache), x.1) in
      ap admit (
        redis_dispatch-memory p cfg.rate_limit_enabled cfg.rate_limit_backend cfg.fail_closed time r
          rounds memory)
      ∙ ap finish (
          limit_dispatch-loaded p cfg.rate_limit_enabled time r bs (capacity, refill_per_sec) on
            loads)
      ∙ decided r lane (allow F "anonymous" lane capacity refill_per_sec time bs)
    where
      decided :
          (r : HttpRequest) (lane : String) (drawn : Bool × Buckets F)
          → ◌≡◌ {A = Option (Outcome × Buckets F)}
              (some (
                then_pass
                    (if drawn.0 then passed r else too_many "anonymous" lane)
                    (authenticate p j cfg now cache),
                drawn.1,
              ))
              (some (
                if drawn.0 then authenticate p j cfg now cache r else too_many "anonymous" lane,
                drawn.1,
              ))
      decided r lane (true, after) = refl
      decided r lane (false, after) = refl
