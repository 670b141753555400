-- ===== src/BundleVerify/Agreement.antt =====
-- The verifier of bundles accepts what the gateway signs by HMAC under one secret.
use dadi_runtime.Base.{
  ℕ, String, true, false, Option, none, some, List, [], ◌∷◌, ◌≡◌, refl, sym, ap, ◌∙◌, inl, inr,
  arith, Bool-cases, Option-cases, Fields, obj, get_field, put_field, ok, if◌then◌else◌, nonempty,
  strip, bytes_eq_self,
}
use dadi_runtime.Base.Results.{bind-eq-ok}
use dadi_runtime.Signing.{
  Packages, Keys, Signature, as_dict, env_or, usable, get_key, find_key, load_hmac_secrets,
  load_kid, load_signing_alg, hmac_signature, sign_bytes, sign_manifest, b64url_encode,
}
use dadi_runtime.Signing.Laws.{
  IsBase64, b64url_decode-b64url_encode, pop_field-put_field, get_field-put_field,
}
use dadi_runtime.BundleVerify.{
  checked, decoded, is_empty_bytes, hmac_with, check_hmac, check_texts, check_object,
  check_signature,
}

usable-some :
    (o : Option (List ℕ)) (key : List ℕ)
    → usable o ≡ some key
    → (o ≡ some key) × (is_empty_bytes key ≡ false)
usable-some none key h = absurd (ground (arith, h))
usable-some (some []) key h = absurd (ground (arith, h))
usable-some (some (b ∷ bs)) key h =
    let q : b ∷ bs ≡ key = ground (arith, h) in
    (ap some q, ap is_empty_bytes (sym q) ∙ ground arith)

find_key-one :
    (kid k : String) (bytes key : List ℕ) → find_key kid ((k, bytes) ∷ []) ≡ some key → key ≡ bytes
unfolding find_key
find_key-one kid k bytes key h = ground (arith, h)

find_key-nil : (kid : String) (key : List ℕ) → find_key kid [] ≡ some key → ⊥
unfolding find_key
find_key-nil kid key h = cc

module _ (p : Packages) where
  -- the secret of the environment
  abbrev secret : String
  secret = env_or p "DADI_BUNDLE_SIGNING_SECRET" ""

  -- No secrets by key id are given.
  abbrev pub HasOneSecret : Type 0
  HasOneSecret = nonempty (strip (env_or p "DADI_HMAC_SECRETS_JSON" "")) ≡ false

  get_key-secret :
      (kid : String) (secrets : Keys) (key : List ℕ)
      → HasOneSecret
      → load_hmac_secrets p ≡ ok secrets
      → get_key kid secrets ≡ some key
      → (key ≡ p.encode (strip secret)) × (is_empty_bytes key ≡ false)
  unfolding load_hmac_secrets get_key find_key
  get_key-secret kid secrets key one loads found =
      let (there, full) = usable-some (find_key kid secrets) key found in
      elim (Bool-cases (nonempty (strip secret))) [
        | inl given ↦
            let q = rw (one, given, load_hmac_secrets, if◌then◌else◌) at loads in
            let e : (env_or p "DADI_BUNDLE_SIGNING_KID" "default", p.encode (strip secret)) ∷ []
                ≡ secrets =
              ground (arith, q) in
            (find_key-one kid _ _ key (rw (← e) at there), full)
        | inr missing ↦
            let q = rw (one, missing, load_hmac_secrets, if◌then◌else◌) at loads in
            let e : [] ≡ secrets = ground (arith, q) in
            absurd (find_key-nil kid key (rw (← e) at there))
      ]

  check_hmac-secret :
      (kid : String) (m : List ℕ)
      → HasOneSecret
      → is_empty_bytes (p.encode secret) ≡ false
      → check_hmac p kid m (p.hmac_sha256 (p.encode secret) m) ≡ ok (checked true "hmac-sha256" kid)
  unfolding check_hmac hmac_with
  check_hmac-secret kid m one full =
      rw (one, full, bytes_eq_self (p.hmac_sha256 (p.encode secret) m)) refl

  decoded-b64url_encode : IsBase64 p → (raw : List ℕ) → decoded p (b64url_encode p raw) ≡ ok raw
  decoded-b64url_encode base64 raw = rw (b64url_decode-b64url_encode p base64 raw, decoded) refl

  hmac_signature-accepted :
      IsBase64 p
      → HasOneSecret
      → strip secret ≡ secret
      → (kid : String) (m : List ℕ) (secrets : Keys) (o : Option (List ℕ)) (s : Signature)
      → load_hmac_secrets p ≡ ok secrets
      → get_key kid secrets ≡ o
      → hmac_signature p kid m o ≡ ok s
      → check_object p m (some (obj (as_dict s))) ≡ ok (checked true "hmac-sha256" kid)
  unfolding hmac_signature check_object check_texts check_hmac hmac_with get_field
  hmac_signature-accepted base64 one plain kid m secrets none s l g h = absurd (ground (arith, h))
  hmac_signature-accepted base64 one plain kid m secrets (some key) s l g h =
      let (is_secret, full) = get_key-secret kid secrets key one l g in
      let same : key ≡ p.encode secret = is_secret ∙ ap p.encode plain in
      let sig = p.hmac_sha256 key m in
      let q : record { alg = "hmac-sha256"; kid = kid; sig = b64url_encode p sig } ≡ s =
        ground arith in
      let accepted = check_hmac-secret kid m one (rw same at full) in
      rw (← q, decoded-b64url_encode base64 sig, same) accepted

  sign_bytes-accepted :
      IsBase64 p
      → HasOneSecret
      → strip secret ≡ secret
      → (alg kid : String) (m : List ℕ) (s : Signature) → alg ≡ "hmac-sha256"
      → sign_bytes p alg kid m ≡ ok s
      → check_object p m (some (obj (as_dict s))) ≡ ok (checked true "hmac-sha256" kid)
  unfolding sign_bytes
  sign_bytes-accepted base64 one plain alg kid m s is_hmac signs =
      let (secrets, l, by_key) =
        bind-eq-ok (load_hmac_secrets p) _ (rw (is_hmac, sign_bytes) at signs) in
      hmac_signature-accepted base64 one plain kid m secrets _ s l refl by_key

  -- Under HMAC with one secret that has no white space at its ends, a manifest that the gateway signs
  -- passes the check of signatures of the bundle verifier.
  pub check_signature-sign_manifest :
      IsBase64 p
      → load_signing_alg p ≡ "hmac-sha256"
      → HasOneSecret
      → strip (env_or p "DADI_BUNDLE_SIGNING_SECRET" "") ≡ env_or p "DADI_BUNDLE_SIGNING_SECRET" ""
      → (m signed : Fields) → sign_manifest p m ≡ ok signed
      → (kid : String) × (load_kid p ≡ ok kid)
        × (check_signature p signed ≡ ok (checked true "hmac-sha256" kid))
  unfolding sign_manifest sign_bytes check_signature
  check_signature-sign_manifest base64 alg one plain m signed h =
      elim (Option-cases (get_field m "signature")) [
        | inr (v, present) ↦ absurd (ground arith)
        | inl absent ↦
            let (kid, named, k) =
              bind-eq-ok (load_kid p) _ (rw (absent, sign_manifest, if◌then◌else◌) at h) in
            let (s, signs, q) =
              bind-eq-ok (sign_bytes p (load_signing_alg p) kid (p.canonical_json_bytes m)) _ k in
            let e : put_field m "signature" (obj (as_dict s)) ≡ signed = ground arith in
            (
              kid,
              named,
              rw
                  (
                    ← e,
                    pop_field-put_field m "signature" (obj (as_dict s)) absent,
                    get_field-put_field m "signature" (obj (as_dict s)),
                  )
                  (sign_bytes-accepted base64 one plain (load_signing_alg p) kid
                    (p.canonical_json_bytes m) s alg signs),
            )
      ]
