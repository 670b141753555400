-- ===== src/Signing/Kms/Cached.antt =====
-- The cache of public keys changes no verdict.
use mathlib.Core.Path.{subst}
use dadi_runtime.Base.{
  ℕ, String, Bool, true, false, Option, none, some, List, [], ◌∷◌, ◌≡◌, refl, sym, ap, ◌⊎◌, inl,
  inr, arith, Bool-cases, Option-cases, eq_iff, Result, ok, raised, value_error, if◌then◌else◌,
  select_one, All, All-append, All-update_where, All-select_one, select_one-holds, bind-ok,
}
use dadi_runtime.Signing.{Packages, b64url_decode}
use dadi_runtime.Signing.Provider.{SignatureEnvelope}
use dadi_runtime.Signing.Kms.{
  KeyRow, CachedKey, KeyStore, is_cached_key, is_key_row, is_active_row, cache_key, cached, is_live,
  use_key, use_row, get_row, get_live, get, new_row, seen_again, upsert_row, put, Kms, verdict,
  fetch_key, check_cached, verify_decoded, kms_verify,
}

module _ (k : Kms) where
  abbrev pub Genuine : String → List ℕ → Type 0
  Genuine key_ref der = k.get_public_key key_ref ≡ some der

  abbrev pub GenuineCached : CachedKey → Type 0
  GenuineCached c = Genuine c.key_ref c.public_key_der

  abbrev pub GenuineRow : KeyRow → Type 0
  GenuineRow r = Genuine r.key_ref r.public_key_der

  -- Every cached key and every row holds the key that the service gives for its reference.
  abbrev pub IsGenuine : KeyStore → Type 0
  IsGenuine store = All GenuineCached store.cache × All GenuineRow store.signing_public_keys

  cache_key-Genuine :
      (c : CachedKey) (cs : List CachedKey)
      → GenuineCached c
      → All GenuineCached cs
      → All GenuineCached (cache_key c cs)
  unfolding cache_key
  cache_key-Genuine c [] h g = (h, tt)
  cache_key-Genuine c (d ∷ ds) h g = elim (Bool-cases (is_cached_key c.kid c.key_ref c.alg d)) [
    | inl hit ↦ rw (hit, cache_key) (h, g.1)
    | inr miss ↦ rw (miss, cache_key) (g.0, cache_key-Genuine c ds h g.1)
  ]

  -- No key or the genuine one, and a store that is genuine still.
  abbrev Answers : List ℕ → Result (Option (List ℕ)) × KeyStore → Type 0
  Answers der x = ((x.0 ≡ ok none) ⊎ (x.0 ≡ ok (some der))) × IsGenuine x.1

  if_Answers :
      (der : List ℕ) (b : Bool) (x y : Result (Option (List ℕ)) × KeyStore)
      → Answers der x
      → Answers der y
      → Answers der (if b then x else y)
  if_Answers der true x y h k = h
  if_Answers der false x y h k = k

  use_key-Genuine :
      (kid key_ref alg : String) (bytes : List ℕ) (store : KeyStore)
      → IsGenuine store
      → Genuine key_ref bytes
      → Answers bytes (use_key kid key_ref alg bytes store)
  unfolding use_key
  use_key-Genuine kid key_ref alg [] store g real = (inl refl, g)
  use_key-Genuine kid key_ref alg (b ∷ bs) store g real = (
    inr refl,
    (cache_key-Genuine (cached kid key_ref alg (b ∷ bs) store.clock) store.cache real g.0, g.1),
  )

  module _ (kid key_ref alg : String) (der : List ℕ) (real : Genuine key_ref der) where
    use_row-Genuine :
        (store : KeyStore) (o : Option KeyRow)
        → IsGenuine store
        → select_one (is_active_row kid key_ref alg) store.signing_public_keys ≡ o
        → Answers der (use_row kid key_ref alg o store)
    unfolding use_row
    use_row-Genuine store none g e = (inl refl, g)
    use_row-Genuine store (some r) g e =
        let hit = select_one-holds (is_active_row kid key_ref alg) store.signing_public_keys e in
        let same_ref : r.key_ref ≡ key_ref = ground (arith, eq_iff r.key_ref key_ref, hit) in
        let its = All-select_one GenuineRow _ store.signing_public_keys g.1 e in
        let same : r.public_key_der ≡ der = ground (arith, its, same_ref, real) in
        rw same (use_key-Genuine kid key_ref alg der store g real)

    get_row-Genuine :
        (store : KeyStore) → IsGenuine store → Answers der (get_row kid key_ref alg store)
    unfolding get_row
    get_row-Genuine store g =
        if_Answers der store.reachable _ _ (use_row-Genuine store _ g refl) (inl refl, g)

    get_live-Genuine :
        (ttl : ℕ) (store : KeyStore) (o : Option CachedKey)
        → IsGenuine store
        → select_one (is_cached_key kid key_ref alg) store.cache ≡ o
        → Answers der (get_live ttl kid key_ref alg o store)
    unfolding get_live
    get_live-Genuine ttl store none g e = get_row-Genuine store g
    get_live-Genuine ttl store (some c) g e = elim (Bool-cases (is_live ttl store.clock c)) [
      | inl live ↦
          let hit = select_one-holds (is_cached_key kid key_ref alg) store.cache e in
          let same_ref : c.key_ref ≡ key_ref = ground (arith, eq_iff c.key_ref key_ref, hit) in
          let its = All-select_one GenuineCached _ store.cache g.0 e in
          let same : c.public_key_der ≡ der = ground (arith, its, same_ref, real) in
          rw (live, get_live) (inr (ap (λ d. ok (some d)) same), g)
      | inr stale ↦ rw (stale, get_live) (get_row-Genuine store g)
    ]

    upsert_row-Genuine :
        (now : ℕ) (rows : List KeyRow)
        → All GenuineRow rows
        → All GenuineRow (upsert_row kid key_ref alg der now rows)
    unfolding upsert_row
    upsert_row-Genuine now rows g =
        elim (Option-cases (select_one (is_key_row kid key_ref alg) rows)) [
          | inl absent ↦
              rw (absent, upsert_row)
                (All-append GenuineRow rows (new_row kid key_ref alg der now ∷ []) g (real, tt))
          | inr (r, there) ↦
              rw (there, upsert_row)
                (All-update_where GenuineRow (is_key_row kid key_ref alg) (seen_again der now) rows
                  seen g)
        ]
      where
        seen :
            (r : KeyRow)
            → is_key_row kid key_ref alg r ≡ true
            → GenuineRow r
            → GenuineRow (seen_again der now r)
        seen r hit its =
            let same : key_ref ≡ r.key_ref = ground (arith, eq_iff r.key_ref key_ref, hit) in
            rw (← same) real

    put-Genuine : (store : KeyStore) → IsGenuine store → IsGenuine (put kid key_ref alg der store).1
    unfolding put
    put-Genuine store g = (
      cache_key-Genuine (cached kid key_ref alg der store.clock) store.cache real g.0,
      if_All store.reachable (upsert_row kid key_ref alg der store.clock store.signing_public_keys)
          store.signing_public_keys (upsert_row-Genuine store.clock store.signing_public_keys g.1)
          g.1,
    )
      where
        if_All :
            (b : Bool) (more rows : List KeyRow)
            → All GenuineRow more
            → All GenuineRow rows
            → All GenuineRow (if b then more else rows)
        if_All true more rows h k = h
        if_All false more rows h k = k

  -- The verdict on a signature with the key that the service gives, no cache in between.
  abbrev pub direct_verdict : Packages → List ℕ → SignatureEnvelope → List ℕ → Result Bool
  direct_verdict p message sig der = elim (b64url_decode p sig.sig) [
    | none ↦ raised (value_error "base64")
    | some raw ↦ verdict k sig.alg raw message der
  ]

  abbrev Agrees : Result Bool → Result Bool × KeyStore → Type 0
  Agrees v x = (x.0 ≡ v) × IsGenuine x.1

  check_cached-Agrees :
      (sig : SignatureEnvelope) (raw message der : List ℕ) (store : KeyStore)
      → k.get_public_key sig.key_ref ≡ some der
      → IsGenuine store
      → (o : Option (List ℕ)) → (o ≡ none) ⊎ (o ≡ some der)
      → Agrees (verdict k sig.alg raw message der) (check_cached k sig raw message o store)
  unfolding check_cached fetch_key put
  check_cached-Agrees sig raw message der store real g o (inl e) =
      rw (e, real) (refl, put-Genuine sig.kid sig.key_ref sig.alg der real store g)
  check_cached-Agrees sig raw message der store real g o (inr e) = rw e (refl, g)

  verify_decoded-Agrees :
      (ttl : ℕ) (sig : SignatureEnvelope) (raw message der : List ℕ) (store : KeyStore)
      → k.get_public_key sig.key_ref ≡ some der
      → IsGenuine store
      → Agrees
          (verdict k sig.alg raw message der)
          (verify_decoded k ttl sig message (some raw) store)
  unfolding verify_decoded get
  verify_decoded-Agrees ttl sig raw message der store real g =
      let (answer, after) =
        get_live-Genuine sig.kid sig.key_ref sig.alg der real ttl store _ g refl in
      let look = get ttl sig.kid sig.key_ref sig.alg in
      let check = check_cached k sig raw message in
      let agrees = check_cached-Agrees sig raw message der (look store).1 real after in
      elim answer [
        | inl e ↦
            subst (Agrees (verdict k sig.alg raw message der)) (sym (bind-ok look check store e))
              (agrees none (inl refl))
        | inr e ↦
            subst (Agrees (verdict k sig.alg raw message der)) (sym (bind-ok look check store e))
              (agrees (some der) (inr refl))
      ]

  -- From a store that is genuine, a verification with the cache gives the verdict of the key that
  -- the service has for the reference, and leaves the store genuine.
  pub kms_verify-cached :
      (p : Packages) (ttl : ℕ) (message : List ℕ) (sig : SignatureEnvelope) (der : List ℕ)
      (store : KeyStore)
      → IsGenuine store
      → k.get_public_key sig.key_ref ≡ some der
      → ((kms_verify p k ttl message sig store).0 ≡ direct_verdict p message sig der)
        × IsGenuine (kms_verify p k ttl message sig store).1
  unfolding kms_verify verify_decoded
  kms_verify-cached p ttl message sig der store g real = decoded-Agrees (b64url_decode p sig.sig)
    where
      decoded-Agrees :
          (o : Option (List ℕ))
          → Agrees
              (elim o [
                | none ↦ raised (value_error "base64")
                | some raw ↦ verdict k sig.alg raw message der
              ])
              (verify_decoded k ttl sig message o store)
      decoded-Agrees none = (refl, g)
      decoded-Agrees (some raw) = verify_decoded-Agrees ttl sig raw message der store real g
