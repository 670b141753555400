-- ===== src/Signing/Provider.antt =====
-- services/gateway/dadi_gateway/signing_provider.py, bundle_signing_adapter.py and
-- dev_ed25519_signing.py: manifests signed by a provider that the environment names. A provider may
-- keep a state and raise.
use dadi_runtime.Base.{
  ℕ, String, Bool, true, false, Option, none, some, List, ◌≡◌, refl, inl, inr, arith, Option-cases,
  ◌==◌, Json, Fields, end, field, str, obj, get_field, pop_field, put_field, Result, ok, raised,
  value_error, runtime_error, if◌then◌else◌, or_default, Exec, pure, raise, ◌>>=◌, bind-eq-ok,
  strip, lower,
}
use dadi_runtime.Signing.{Packages, has_field, env_or, b64url_encode, b64url_decode, text_of}
use dadi_runtime.Signing.Laws.{
  IsBase64, b64url_decode-b64url_encode, pop_field-put_field, get_field-put_field,
}

pub record SignatureEnvelope : Type 0 where
  pub alg : String
  pub kid : String
  pub sig : String
  pub key_ref : String

abbrev pub as_dict : SignatureEnvelope → Fields
as_dict s =
    field "alg" (str s.alg)
      (field "kid" (str s.kid) (field "sig" (str s.sig) (field "key_ref" (str s.key_ref) end)))

pub record SigningProvider (S : Type 0) : Type 0 where
  pub sign : List ℕ → Exec S SignatureEnvelope
  pub verify : List ℕ → SignatureEnvelope → Exec S Bool

-- The providers that the environment can name, each with its `from_env`.
unfoldable pub load_signing_provider :
    {S : Type 0}
    → Packages
    → Result (SigningProvider S)
    → Result (SigningProvider S)
    → Result (SigningProvider S)
load_signing_provider p dev_ed25519 aws_kms =
    let provider = lower (strip (env_or p "DADI_SIGNING_PROVIDER" "")) in
    if provider == "dev_ed25519"
    then dev_ed25519
    else if provider == "aws_kms"
    then aws_kms
    else raised (runtime_error "DADI_SIGNING_PROVIDER must be set to a supported provider")

-- The provider that was loaded, and what its loading raises.
abbrev loaded : {S : Type 0} → Result (SigningProvider S) → Exec S (SigningProvider S)
loaded (ok provider) = pure provider
loaded (raised e) = raise e

module _ {S : Type 0} (p : Packages) (load_provider : Result (SigningProvider S)) where
  unfoldable pub sign_manifest_with_provider : Fields → Exec S Fields
  sign_manifest_with_provider unsigned_manifest =
      if has_field unsigned_manifest "signature"
      then raise (value_error "unsigned_manifest must not include 'signature'")
      else do
        provider ← loaded load_provider
        sig ← provider.sign (p.canonical_json_bytes unsigned_manifest)
        pure (put_field unsigned_manifest "signature" (obj (as_dict sig)))

  -- the four keys of the signature object, each there
  unfoldable pub verify_envelope :
      List ℕ → Option Json → Option Json → Option Json → Option Json → Exec S Bool
  verify_envelope message (some alg) (some kid) (some sig) (some key_ref) = do
    provider ← loaded load_provider
    provider.verify message (record {
      alg = text_of p alg;
      kid = text_of p kid;
      sig = text_of p sig;
      key_ref = text_of p key_ref;
    })
  verify_envelope message _ _ _ _ = pure false

  unfoldable pub verify_object : List ℕ → Option Json → Exec S Bool
  unfolding verify_envelope
  verify_object message (some (obj s)) =
      verify_envelope message (get_field s "alg") (get_field s "kid") (get_field s "sig")
        (get_field s "key_ref")
  verify_object message _ = pure false

  unfoldable pub verify_manifest_with_provider : Fields → Exec S Bool
  unfolding verify_object
  verify_manifest_with_provider manifest =
      verify_object (p.canonical_json_bytes (pop_field manifest "signature"))
        (get_field manifest "signature")

-- A key pair of the process: signing, and whether a signature verifies.
pub record KeyPair : Type 0 where
  pub sign : List ℕ → List ℕ
  pub verifies : List ℕ → List ℕ → Bool

abbrev decoded_verifies : KeyPair → List ℕ → Option (List ℕ) → Bool
decoded_verifies keys message none = false
decoded_verifies keys message (some sig) = keys.verifies sig message

unfoldable pub dev_sign : Packages → KeyPair → String → List ℕ → SignatureEnvelope
dev_sign p keys kid message = record {
  alg = "dev_ed25519";
  kid = kid;
  sig = b64url_encode p (keys.sign message);
  key_ref = "in-memory";
}

unfoldable pub dev_verify : Packages → KeyPair → List ℕ → SignatureEnvelope → Bool
dev_verify p keys message signature = decoded_verifies keys message (b64url_decode p signature.sig)

-- `DevEd25519SigningProvider.from_env()`
abbrev pub dev_kid : Packages → String
dev_kid p = or_default (some (strip (env_or p "DADI_SIGNING_KID" ""))) "dev-k1"

unfoldable pub dev_provider : (S : Type 0) → Packages → KeyPair → SigningProvider S
unfolding dev_sign dev_verify
dev_provider S p keys = record {
  sign = λ message. pure (dev_sign p keys (dev_kid p) message);
  verify = λ message signature. pure (dev_verify p keys message signature);
}

-- A provider whose signatures it verifies itself, from the state in which they were made.
abbrev pub IsHonest : (S : Type 0) → SigningProvider S → S → Type 0
IsHonest S provider s =
    (message : List ℕ) (sig : SignatureEnvelope)
    → (provider.sign message s).0 ≡ ok sig
    → (provider.verify message sig (provider.sign message s).1).0 ≡ ok true

module _ {S : Type 0} (p : Packages) (provider : SigningProvider S) where
  -- A manifest signed by a provider that is honest verifies with that provider.
  pub sign_manifest_with_provider-verify :
      (s s' : S) (m signed : Fields)
      → IsHonest S provider s
      → sign_manifest_with_provider p (ok provider) m s ≡ (ok signed, s')
      → (verify_manifest_with_provider p (ok provider) signed s').0 ≡ ok true
  unfolding sign_manifest_with_provider verify_manifest_with_provider verify_object verify_envelope
      get_field
  sign_manifest_with_provider-verify s s' m signed honest h =
      elim (Option-cases (get_field m "signature")) [
        | inl absent ↦
            let (sig, signs, q) =
              bind-eq-ok (provider.sign (p.canonical_json_bytes m)) _ s
                (rw (absent, sign_manifest_with_provider, if◌then◌else◌) at h) in
            let e : put_field m "signature" (obj (as_dict sig)) ≡ signed = ground arith in
            let t : (provider.sign (p.canonical_json_bytes m) s).1 ≡ s' = ground arith in
            rw
              (
                ← e,
                ← t,
                pop_field-put_field m "signature" (obj (as_dict sig)) absent,
                get_field-put_field m "signature" (obj (as_dict sig)),
              )
              (honest (p.canonical_json_bytes m) sig signs)
        | inr (v, present) ↦ absurd (ground arith)
      ]

-- The provider of the development environment is honest if its key pair verifies what it signs.
pub dev_provider-IsHonest :
    (S : Type 0) (p : Packages) (keys : KeyPair) (s : S)
    → IsBase64 p
    → ((message : List ℕ) → keys.verifies (keys.sign message) message ≡ true)
    → IsHonest S (dev_provider S p keys) s
unfolding dev_provider dev_sign dev_verify
dev_provider-IsHonest S p keys s base64 verifies message sig signs =
    let q : dev_sign p keys (dev_kid p) message ≡ sig = ground arith in
    rw (← q, b64url_decode-b64url_encode p base64 (keys.sign message), verifies message) refl
