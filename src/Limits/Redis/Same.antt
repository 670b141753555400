-- ===== src/Limits/Redis/Same.antt =====
-- The limiter in Redis against the limiter in memory, and what it does while Redis fails.
use dadi_runtime.Base.{
  ℕ, zero, suc, ◌+◌, ◌<◌, ℤ, String, Bool, true, Option, none, some, List, [], ◌∷◌, ◌≡◌, refl, ap,
  ◌∙◌, ◌⊎◌, inl, inr, arith, eq_iff, eq_refl, ok,
}
use dadi_runtime.Signing.{Packages}
use dadi_runtime.Auth.{HttpRequest}
use dadi_runtime.Limits.{
  Floats, Bucket, Buckets, spend, refill, allow_from, lane_limits, lane_of, limited_tenant,
}
use dadi_runtime.Limits.Redis.{
  Entry, RedisStore, hgetall, hset, new_entry, stored, read_bucket, write_bucket, attempt,
  limit_key, returned, allow_rounds, redis_allow, answer_allowed, redis_limit, redis_dispatch,
}

-- Rounds in which Redis raises, then the others.
abbrev pub after_failures : ℕ → List (Option RedisStore) → List (Option RedisStore)
after_failures zero rounds = rounds
after_failures (suc n) rounds = none ∷ after_failures n rounds

hgetall-hset :
    (e : Entry) (es : List Entry) (now : ℕ)
    → now < e.expires_at
    → hgetall e.key now (hset e es) ≡ some e
unfolding hgetall hset
hgetall-hset e [] now h = ground (arith, eq_refl e.key)
hgetall-hset e (d ∷ ds) now h =
    ground (arith, eq_refl e.key, eq_iff d.key e.key, hgetall-hset e ds now h)

module _ (F : Floats) (to_text : F.Float → String) where
  -- The hash under the key is live and holds the tokens and the time of the bucket.
  abbrev pub IsStored : String → ℕ → List Entry → Bucket F → Type 0
  IsStored key now entries b =
      (e : Entry) × (hgetall key now entries ≡ some e)
      × (e.tokens ≡ some (to_text b.tokens))
      × (e.updated_at ≡ some (to_text b.updated_at))

  -- `float(repr(a))` is `a`.
  abbrev pub IsExact : Type 0
  IsExact = (a : F.Float) → F.of_text (to_text a) ≡ some a

  abbrev pub used : Bucket F → F.Float → Bucket F
  used b now = record b { tokens = spend F (refill F b now); updated_at = now }

  -- the store after a round for the bucket
  abbrev pub store_after : String → Bucket F → F.Float → RedisStore → RedisStore
  store_after key b now store =
      stored F to_text (new_entry F to_text key (spend F (refill F b now)) now store.server_time)
        store

  -- What the key stands for: a live hash with the tokens and the time of the bucket, or no live hash
  -- and a bucket that is full now.
  abbrev pub StandsFor : String → ℕ → List Entry → F.Float → Bucket F → Type 0
  StandsFor key server_time entries now b =
      IsStored key server_time entries b
      ⊎ ((hgetall key server_time entries ≡ none)
          × (b.tokens ≡ F.of_int b.capacity)
          × (b.updated_at ≡ now))

  attempt-same :
      IsExact
      → (key : String) (b : Bucket F) (now : F.Float) (store : RedisStore)
      → StandsFor key store.server_time store.entries now b
      → attempt F to_text key b.capacity b.refill_per_sec now store
        ≡ some (F.le F.one (refill F b now), store_after key b now store)
  unfolding attempt read_bucket write_bucket
  attempt-same exact key b now store (inr (missing, full, fresh)) =
      rw (missing, ← full, ← fresh) refl
  attempt-same exact key b now store (inl (e, there, is_tokens, is_time)) =
      rw (there, is_tokens, is_time, exact b.tokens, exact b.updated_at) refl

  allow_rounds-failures :
      (key : String) (capacity : ℤ) (refill_per_sec now : F.Float) (n : ℕ)
      (rounds : List (Option RedisStore))
      → allow_rounds F to_text key capacity refill_per_sec now (after_failures n rounds)
        ≡ allow_rounds F to_text key capacity refill_per_sec now rounds
  unfolding allow_rounds
  allow_rounds-failures key capacity refill_per_sec now zero rounds = refl
  allow_rounds-failures key capacity refill_per_sec now (suc n) rounds =
      allow_rounds-failures key capacity refill_per_sec now n rounds

  allow_rounds-served :
      (key : String) (capacity : ℤ) (refill_per_sec now : F.Float) (store : RedisStore)
      (rest : List (Option RedisStore)) {r : Bool × RedisStore}
      → attempt F to_text key capacity refill_per_sec now store ≡ some r
      → allow_rounds F to_text key capacity refill_per_sec now (some store ∷ rest) ≡ some r
  unfolding allow_rounds
  allow_rounds-served key capacity refill_per_sec now store rest same = rw (same, allow_rounds) refl

  -- However many rounds fail before one that meets a store, the limiter in Redis answers as the limiter
  -- in memory does for the bucket that the key stands for, a full one if there is no live hash, and
  -- for an hour the store holds the bucket that the limiter in memory keeps. It needs that the text of
  -- a float is read back as that float.
  pub redis_allow-same :
      IsExact
      → (tenant lane : String) (b : Bucket F) (now : F.Float) (bs : Buckets F) (failures : ℕ)
        (store : RedisStore) (rest : List (Option RedisStore))
      → StandsFor (limit_key tenant lane) store.server_time store.entries now b
      → (redis_allow F to_text tenant lane b.capacity b.refill_per_sec now
            (after_failures failures (some store ∷ rest))
          ≡ some (ok ((allow_from F b now bs).0, store_after (limit_key tenant lane) b now store)))
        × ((t : ℕ)
            → t < store.server_time + 3600
            → IsStored
                (limit_key tenant lane)
                t
                (store_after (limit_key tenant lane) b now store).entries
                (used b now))
  unfolding redis_allow allow_rounds allow_from
  redis_allow-same exact tenant lane b now bs failures store rest is_stored =
      let key = limit_key tenant lane in
      let same = attempt-same exact key b now store is_stored in
      (
        ap (returned F to_text) (
            allow_rounds-failures key b.capacity b.refill_per_sec now failures (some store ∷ rest)
            ∙ allow_rounds-served key b.capacity b.refill_per_sec now store rest same),
        λ t early. (
          new_entry F to_text key (spend F (refill F b now)) now store.server_time,
          hgetall-hset (new_entry F to_text key (spend F (refill F b now)) now store.server_time)
              store.entries t early,
          refl,
          refl,
        ),
      )

  -- While every round fails, a request that is limited by Redis gets no answer and does not go on,
  -- whether the middleware is to fail closed or not: 503 is not reached.
  pub redis_dispatch-unavailable :
      (p : Packages) (fail_closed : Bool) (now : F.Float) (request : HttpRequest) (failures : ℕ)
      (limits : ℤ × F.Float)
      → lane_limits F p (lane_of request) ≡ ok limits
      → redis_dispatch F to_text p true "redis" fail_closed now request (after_failures failures [])
        ≡ none
  unfolding redis_dispatch redis_limit redis_allow allow_rounds answer_allowed
  redis_dispatch-unavailable p fail_closed now request failures (capacity, refill_per_sec) loads =
      let key = limit_key (limited_tenant request) (lane_of request) in
      let looping = allow_rounds-failures key capacity refill_per_sec now failures [] in
      let limit = redis_limit F to_text fail_closed request now (after_failures failures []) in
      ap limit loads
      ∙ ap (λ r. answer_allowed F to_text fail_closed request (returned F to_text r)) looping
