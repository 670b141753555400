-- ===== src/Limits/Buckets.antt =====
-- Token buckets: their bounds, their independence, and that a request is allowed in the end.
use dadi_runtime.Base.{
  ℤ, String, true, false, some, [], ◌∷◌, ◌≡◌, ◌≢◌, ◌⊎◌, refl, ◌∙◌, inl, inr, arith, eq_iff, eq_refl,
  Bool-cases, Option-cases, if◌then◌else◌, All,
}
use dadi_runtime.Limits.{
  Floats, Bucket, Buckets, is_bucket, find_bucket, put_bucket, new_bucket, spend, refill,
  allow_from, bucket_or_new, allow,
}

-- What is used of the order of floats that are no NaN: rounding is monotonic.
pub record IsOrdered (F : Floats) : Type 0 where
  pub le_refl : (a : F.Float) → F.le a a ≡ true
  pub min_le : (a b : F.Float) → F.le (F.min a b) a ≡ true
  pub le_min : (a b c : F.Float) → F.le c a ≡ true → F.le c b ≡ true → F.le c (F.min a b) ≡ true
  pub sub_one_le : (a c : F.Float) → F.le a c ≡ true → F.le (F.sub a F.one) c ≡ true
  pub sub_one_nonneg : (a : F.Float) → F.le F.one a ≡ true → F.le F.zero (F.sub a F.one) ≡ true
  pub le_add :
      (a b c : F.Float) → F.le F.zero a ≡ true → F.le c b ≡ true → F.le c (F.add a b) ≡ true
  pub mul_nonneg :
      (a b : F.Float) → F.le F.zero a ≡ true → F.le F.zero b ≡ true → F.le F.zero (F.mul a b) ≡ true
  pub max_nonneg : (a : F.Float) → F.le F.zero (F.max F.zero a) ≡ true

module _ (F : Floats) where
  find_bucket-put_bucket :
      (tenant lane : String) (b : Bucket F) (cs : Buckets F)
      → find_bucket F tenant lane (put_bucket F b cs)
        ≡ (if is_bucket F tenant lane b then some b else find_bucket F tenant lane cs)
  unfolding find_bucket put_bucket
  find_bucket-put_bucket tenant lane b [] = refl
  find_bucket-put_bucket tenant lane b (c ∷ cs) = ground (
    arith,
    eq_iff c.tenant b.tenant,
    eq_iff c.lane b.lane,
    eq_iff c.tenant tenant,
    eq_iff c.lane lane,
    eq_iff b.tenant tenant,
    eq_iff b.lane lane,
    find_bucket-put_bucket tenant lane b cs,
  )

  find_bucket-keyed :
      (tenant lane : String) (bs : Buckets F) (b : Bucket F)
      → is_bucket F tenant lane b ≡ true
      → is_bucket F tenant lane (bucket_or_new F (find_bucket F tenant lane bs) b) ≡ true
  unfolding find_bucket
  find_bucket-keyed tenant lane [] b h = h
  find_bucket-keyed tenant lane (c ∷ bs) b h = elim (Bool-cases (is_bucket F tenant lane c)) [
    | inl hit ↦ rw (hit, find_bucket) hit
    | inr miss ↦ rw (miss, find_bucket) (find_bucket-keyed tenant lane bs b h)
  ]

  -- the bucket that a request leaves
  abbrev used : String → String → ℤ → F.Float → F.Float → Buckets F → Bucket F
  used tenant lane capacity refill_per_sec now bs =
      let b =
        bucket_or_new F (find_bucket F tenant lane bs)
          (new_bucket F tenant lane capacity refill_per_sec now) in
      record b { tokens = spend F (refill F b now); updated_at = now }

  used-keyed :
      (tenant lane : String) (capacity : ℤ) (refill_per_sec now : F.Float) (bs : Buckets F)
      → is_bucket F tenant lane (used tenant lane capacity refill_per_sec now bs) ≡ true
  used-keyed tenant lane capacity refill_per_sec now bs =
      find_bucket-keyed tenant lane bs (new_bucket F tenant lane capacity refill_per_sec now)
        (ground (arith, eq_refl tenant, eq_refl lane))

  -- A request leaves the buckets of every other tenant and lane as they are.
  pub allow-others :
      (tenant lane : String) (capacity : ℤ) (refill_per_sec now : F.Float) (bs : Buckets F)
      (other_tenant other_lane : String)
      → (tenant ≢ other_tenant) ⊎ (lane ≢ other_lane)
      → find_bucket F other_tenant other_lane (allow F tenant lane capacity refill_per_sec now bs).1
        ≡ find_bucket F other_tenant other_lane bs
  unfolding allow allow_from
  allow-others tenant lane capacity refill_per_sec now bs other_tenant other_lane differs =
      let b = used tenant lane capacity refill_per_sec now bs in
      let keyed = used-keyed tenant lane capacity refill_per_sec now bs in
      let miss : is_bucket F other_tenant other_lane b ≡ false = ground (
        arith,
        keyed,
        differs,
        eq_iff b.tenant tenant,
        eq_iff b.lane lane,
        eq_iff b.tenant other_tenant,
        eq_iff b.lane other_lane,
      ) in
      find_bucket-put_bucket other_tenant other_lane b bs ∙ (rw miss refl)

module _ (F : Floats) (laws : IsOrdered F) where
  -- The tokens of a bucket lie between none and its capacity, and it is not drained as time goes by.
  abbrev pub IsBounded : Bucket F → Type 0
  IsBounded b =
      (F.le F.zero b.tokens ≡ true)
      × (F.le b.tokens (F.of_int b.capacity) ≡ true)
      × (F.le F.zero (F.of_int b.capacity) ≡ true)
      × (F.le F.zero b.refill_per_sec ≡ true)

  put_bucket-IsBounded :
      (b : Bucket F) (cs : Buckets F)
      → IsBounded b
      → All IsBounded cs
      → All IsBounded (put_bucket F b cs)
  unfolding put_bucket
  put_bucket-IsBounded b [] h g = (h, tt)
  put_bucket-IsBounded b (c ∷ cs) h g = elim (Bool-cases (is_bucket F b.tenant b.lane c)) [
    | inl hit ↦ rw (hit, put_bucket) (h, g.1)
    | inr miss ↦ rw (miss, put_bucket) (g.0, put_bucket-IsBounded b cs h g.1)
  ]

  spend-bounds :
      (t c : F.Float)
      → F.le F.zero t ≡ true
      → F.le t c ≡ true
      → (F.le F.zero (spend F t) ≡ true) × (F.le (spend F t) c ≡ true)
  spend-bounds t c low high = elim (Bool-cases (F.le F.one t)) [
    | inl enough ↦ rw enough (laws.sub_one_nonneg t enough, laws.sub_one_le t c high)
    | inr short ↦ rw short (low, high)
  ]

  refill-nonneg : (b : Bucket F) (now : F.Float) → IsBounded b → F.le F.zero (refill F b now) ≡ true
  refill-nonneg b now (low, high, room, grows) = laws.le_min _ _ F.zero room (
      laws.le_add b.tokens _ F.zero low
        (laws.mul_nonneg _ _ (laws.max_nonneg (F.sub now b.updated_at)) grows))

  find_bucket-IsBounded :
      (tenant lane : String) (b : Bucket F) (bs : Buckets F)
      → IsBounded b
      → All IsBounded bs
      → IsBounded (bucket_or_new F (find_bucket F tenant lane bs) b)
  unfolding find_bucket
  find_bucket-IsBounded tenant lane b [] h g = h
  find_bucket-IsBounded tenant lane b (c ∷ bs) h g = elim (Bool-cases (is_bucket F tenant lane c)) [
    | inl hit ↦ rw (hit, find_bucket) (g.0)
    | inr miss ↦ rw (miss, find_bucket) (find_bucket-IsBounded tenant lane b bs h g.1)
  ]

  -- A request, allowed or not, keeps the tokens of every bucket between none and its capacity, if
  -- neither the capacity nor the rate of the lane is negative.
  pub allow-IsBounded :
      (tenant lane : String) (capacity : ℤ) (refill_per_sec now : F.Float) (bs : Buckets F)
      → F.le F.zero (F.of_int capacity) ≡ true
      → F.le F.zero refill_per_sec ≡ true
      → All IsBounded bs
      → All IsBounded (allow F tenant lane capacity refill_per_sec now bs).1
  unfolding allow allow_from
  allow-IsBounded tenant lane capacity refill_per_sec now bs room grows g =
      let fresh = new_bucket F tenant lane capacity refill_per_sec now in
      let b = bucket_or_new F (find_bucket F tenant lane bs) fresh in
      let bounded =
        find_bucket-IsBounded tenant lane fresh bs (room, laws.le_refl _, room, grows) g in
      let t = refill F b now in
      let kept =
        spend-bounds t (F.of_int b.capacity) (refill-nonneg b now bounded) (laws.min_le _ _) in
      put_bucket-IsBounded (record b { tokens = spend F t; updated_at = now }) bs
        (kept.0, kept.1, bounded.2, bounded.3) g

  -- An allowance of at least one token that has come since the bucket was last asked.
  abbrev pub HasWaited : F.Float → F.Float → F.Float → Type 0
  HasWaited refill_per_sec now later =
      F.le F.one (F.mul (F.max F.zero (F.sub later now)) refill_per_sec) ≡ true

  -- The buckets of a tenant and lane were made with these limits.
  abbrev pub HasLimits : String → String → ℤ → F.Float → Buckets F → Type 0
  HasLimits tenant lane capacity refill_per_sec bs =
      (b : Bucket F)
      → find_bucket F tenant lane bs ≡ some b
      → (b.capacity ≡ capacity) × (b.refill_per_sec ≡ refill_per_sec)

  find_bucket-HasLimits :
      (tenant lane : String) (capacity : ℤ) (refill_per_sec : F.Float) (bs : Buckets F)
      (n : Bucket F)
      → HasLimits tenant lane capacity refill_per_sec bs
      → (n.capacity ≡ capacity) × (n.refill_per_sec ≡ refill_per_sec)
      → let b = bucket_or_new F (find_bucket F tenant lane bs) n in
        (b.capacity ≡ capacity) × (b.refill_per_sec ≡ refill_per_sec)
  find_bucket-HasLimits tenant lane capacity refill_per_sec bs n limits own =
      elim (Option-cases (find_bucket F tenant lane bs)) [
        | inl absent ↦ rw absent own
        | inr (b, there) ↦ rw there (limits b there)
      ]

  -- Once a tenant has been asked for in a lane, whatever the answer, it is allowed again as soon as
  -- the waiting has earned one token, if the capacity is at least one.
  pub allow-later :
      (tenant lane : String) (capacity : ℤ) (refill_per_sec now later : F.Float) (bs : Buckets F)
      → F.le F.one (F.of_int capacity) ≡ true
      → F.le F.zero (F.of_int capacity) ≡ true
      → F.le F.zero refill_per_sec ≡ true
      → All IsBounded bs
      → HasLimits tenant lane capacity refill_per_sec bs
      → HasWaited refill_per_sec now later
      → (allow F tenant lane capacity refill_per_sec later
          (allow F tenant lane capacity refill_per_sec now bs).1).0
        ≡ true
  unfolding allow allow_from
  allow-later tenant lane capacity refill_per_sec now later bs big room grows g limits waited =
      let fresh = new_bucket F tenant lane capacity refill_per_sec now in
      let b = bucket_or_new F (find_bucket F tenant lane bs) fresh in
      let (low, high, room', grows') =
        find_bucket-IsBounded tenant lane fresh bs (room, laws.le_refl _, room, grows) g in
      let (same_cap, same_rate) =
        find_bucket-HasLimits tenant lane capacity refill_per_sec bs fresh limits (refl, refl) in
      let kept =
        spend-bounds (refill F b now) (F.of_int b.capacity)
          (refill-nonneg b now (low, high, room', grows')) (laws.min_le _ _) in
      let found =
        find_bucket-put_bucket F tenant lane (used F tenant lane capacity refill_per_sec now bs)
          bs in
      let hit = used-keyed F tenant lane capacity refill_per_sec now bs in
      rw (found, hit)
        (laws.le_min _ _ F.one (rw same_cap big)
          (laws.le_add _ _ F.one kept.0 (rw same_rate waited)))
