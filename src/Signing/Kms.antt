-- ===== src/Signing/Kms.antt =====
-- services/gateway/dadi_gateway/aws_kms_signing.py: signatures of the key management service, verified
-- with public keys that are cached.
mod Cache
pub mod Cached
unfoldable pub use Cache.*
use Prim.Native.String.{◌++◌ as concat}
use dadi_runtime.Base.{
  ℕ, ◌-◌, ◌*◌, String, Bool, true, false, ◌&&◌, Option, none, some, List, [], ◌∷◌, ◌≡◌, refl, ap,
  ◌∙◌, inl, inr, arith, Bool-cases, Option-cases, eq_iff, ◌==◌, Result, ok, raised, value_error,
  runtime_error, other, if◌then◌else◌, nonempty, leb, Exec, pure, raise, ◌>>=◌, ◌>>◌, strip,
  contains_text, select_one, update, insert, All, select_one-holds,
}
use dadi_runtime.Signing.{Packages, env_or, b64url_encode, b64url_decode}
use dadi_runtime.Signing.Provider.{SignatureEnvelope, SigningProvider}

pub data Hash : Type 0 where
  sha256 : Hash
  sha384 : Hash
  sha512 : Hash

-- What `load_der_public_key` gives.
pub data PublicKey : Type 0 where
  elliptic_curve : List ℕ → PublicKey
  rsa : List ℕ → PublicKey
  other_key : PublicKey

-- The functions of `boto3` and `cryptography`.
pub record Kms : Type 0 where
  -- `client.get_public_key(KeyId=…)["PublicKey"]`, `none` where it raises
  pub get_public_key : String → Option (List ℕ)
  -- `client.sign(KeyId=…, Message=…, SigningAlgorithm=…)["Signature"]`
  pub sign : String → String → List ℕ → Result (List ℕ)
  pub load_der_public_key : List ℕ → Result PublicKey
  -- whether `verify` returns for a key, a signature, a message and a hash
  pub ecdsa_verify : List ℕ → List ℕ → List ℕ → Hash → Bool
  pub pss_verify : List ℕ → List ℕ → List ℕ → Hash → Bool
  pub pkcs1_verify : List ℕ → List ℕ → List ℕ → Hash → Bool

unfoldable pub hash_of : String → Option Hash
hash_of alg =
    if contains_text alg "SHA_256"
    then some sha256
    else if contains_text alg "SHA_384"
    then some sha384
    else if contains_text alg "SHA_512"
    then some sha512
    else none

unfoldable pub check_key : Kms → String → List ℕ → List ℕ → PublicKey → Option Hash → Bool
check_key k alg sig message key none = false
check_key k alg sig message (elliptic_curve key) (some h) = k.ecdsa_verify key sig message h
check_key k alg sig message (rsa key) (some h) =
    if contains_text alg "PSS"
    then k.pss_verify key sig message h
    else k.pkcs1_verify key sig message h
check_key k alg sig message other_key (some h) = false

-- the check with a public key in DER form
unfoldable pub verdict : Kms → String → List ℕ → List ℕ → List ℕ → Result Bool
unfolding check_key hash_of
verdict k alg sig message der = elim (k.load_der_public_key der) [
  | raised e ↦ raised e
  | ok key ↦ ok (check_key k alg sig message key (hash_of alg))
]

abbrev pub check_der : Kms → String → List ℕ → List ℕ → List ℕ → Exec KeyStore Bool
check_der k alg sig message der store = (verdict k alg sig message der, store)

-- A key that is not cached is fetched and stored.
unfoldable pub fetch_key :
    Kms → SignatureEnvelope → List ℕ → List ℕ → Option (List ℕ) → Exec KeyStore Bool
unfolding put
fetch_key k s sig message none = pure false
fetch_key k s sig message (some der) = do
  put s.kid s.key_ref s.alg der
  check_der k s.alg sig message der

unfoldable pub check_cached :
    Kms → SignatureEnvelope → List ℕ → List ℕ → Option (List ℕ) → Exec KeyStore Bool
unfolding fetch_key
check_cached k s sig message none = fetch_key k s sig message (k.get_public_key s.key_ref)
check_cached k s sig message (some der) = check_der k s.alg sig message der

unfoldable pub verify_decoded :
    Kms → ℕ → SignatureEnvelope → List ℕ → Option (List ℕ) → Exec KeyStore Bool
unfolding get check_cached
verify_decoded k ttl s message none = raise (value_error "base64")
verify_decoded k ttl s message (some sig) = do
  pub_key ← get ttl s.kid s.key_ref s.alg
  check_cached k s sig message pub_key

-- `AWSKMSSigningProvider`
pub record KmsConfig : Type 0 where
  pub key_id : String
  pub kid : String
  pub signing_alg : String

unfoldable pub kms_sign : Packages → Kms → KmsConfig → List ℕ → Exec KeyStore SignatureEnvelope
kms_sign p k cfg message store = elim (k.sign cfg.key_id cfg.signing_alg message) [
  | raised e ↦ (raised e, store)
  | ok sig ↦ (
    ok (record {
      alg = concat "aws_kms:" cfg.signing_alg;
      kid = cfg.kid;
      sig = b64url_encode p sig;
      key_ref = cfg.key_id;
    }),
    store,
  )
]

unfoldable pub kms_verify : Packages → Kms → ℕ → List ℕ → SignatureEnvelope → Exec KeyStore Bool
unfolding verify_decoded
kms_verify p k ttl message signature =
    verify_decoded k ttl signature message (b64url_decode p signature.sig)

-- `from_env`: the region, the key and its id must be given
unfoldable pub kms_from_env : Packages → Kms → ℕ → Result (SigningProvider KeyStore)
unfolding kms_sign kms_verify
kms_from_env p k ttl =
    let region = strip (env_or p "AWS_REGION" "") in
    let cfg : KmsConfig = record {
      key_id = strip (env_or p "AWS_KMS_KEY_ID" "");
      kid = strip (env_or p "DADI_SIGNING_KID" "");
      signing_alg = strip (env_or p "AWS_KMS_SIGNING_ALG" "ECDSA_SHA_256");
    } in
    if nonempty region
    then if nonempty cfg.key_id
      then if nonempty cfg.kid
        then ok (record { sign = kms_sign p k cfg; verify = kms_verify p k ttl })
        else raised (runtime_error "DADI_SIGNING_KID is required")
      else raised (runtime_error "AWS_KMS_KEY_ID is required")
    else raised (runtime_error "AWS_REGION is required")
