-- ===== src/Signing.antt =====
-- services/gateway/dadi_gateway/bundle_utils.py: a manifest is signed with a key of the environment,
-- by HMAC-SHA-256 or Ed25519, and verified against the canonical bytes of the manifest without its
-- signature. The functions of `json`, `base64`, `hmac`, `cryptography` and `os.getenv` are the fields
-- of `Packages`.
mod KeyRing
pub mod Laws
pub mod Tamper
pub mod Provider
pub mod Kms
unfoldable pub use KeyRing.*
use dadi_runtime.Base.{
  ℕ, ℤ, String, Bool, true, false, ◌&&◌, ◌||◌, Option, none, some, List, [], ◌∷◌, ◌==◌, Json,
  Fields, end, field, str, obj, get_field, pop_field, put_field, as_text, Result, ok, raised,
  value_error, runtime_error, other, if◌then◌else◌, nonempty, is_none, length, nat_eq, strip, lower,
  strip_padding, pad, bytes_eq,
}
use dadi_runtime.Base.Results.{◌>>=◌}
use Prim.Native.String.{◌++◌ as concat}

pub record Signature : Type 0 where
  pub alg : String
  pub kid : String
  pub sig : String

abbrev pub as_dict : Signature → Fields
as_dict s = field "alg" (str s.alg) (field "kid" (str s.kid) (field "sig" (str s.sig) end))

unfoldable pub hmac_signature : Packages → String → List ℕ → Option (List ℕ) → Result Signature
unfolding b64url_encode
hmac_signature p kid message none = raised (runtime_error "No HMAC key found for kid")
hmac_signature p kid message (some key) =
    ok
      (record { alg = "hmac-sha256"; kid = kid; sig = b64url_encode p (p.hmac_sha256 key message) })

unfoldable pub ed25519_signature : Packages → String → List ℕ → Option (List ℕ) → Result Signature
unfolding b64url_encode
ed25519_signature p kid message none = raised (runtime_error "No Ed25519 private key found for kid")
ed25519_signature p kid message (some key) =
    if p.has_cryptography
    then (if nat_eq (length key) 32
        then ok (record {
          alg = "ed25519";
          kid = kid;
          sig = b64url_encode p (p.ed25519_sign key message);
        })
        else raised (runtime_error "Ed25519 private key must be 32-byte seed"))
    else raised (runtime_error "Ed25519 signing requires 'cryptography' package")

-- the branches on the algorithm
unfoldable pub sign_bytes : Packages → String → String → List ℕ → Result Signature
unfolding hmac_signature ed25519_signature load_hmac_secrets load_ed25519_keys get_key
sign_bytes p alg kid message =
    if alg == "hmac-sha256"
    then (do secrets ← load_hmac_secrets p; hmac_signature p kid message (get_key kid secrets))
    else if alg == "ed25519"
    then (do keys ← load_ed25519_keys p; ed25519_signature p kid message (get_key kid keys.1))
    else raised (runtime_error "Unsupported signing alg")

unfoldable pub sign_manifest : Packages → Fields → Result Fields
unfolding sign_bytes load_kid load_signing_alg
sign_manifest p unsigned_manifest =
    if has_field unsigned_manifest "signature"
    then raised (value_error "unsigned_manifest must not include 'signature'")
    else do
      kid ← load_kid p
      signature ← sign_bytes p (load_signing_alg p) kid (p.canonical_json_bytes unsigned_manifest)
      ok (put_field unsigned_manifest "signature" (obj (as_dict signature)))

unfoldable pub hmac_matches : Packages → List ℕ → List ℕ → Option (List ℕ) → Bool
hmac_matches p message sig none = false
hmac_matches p message sig (some key) = bytes_eq (p.hmac_sha256 key message) sig

unfoldable pub ed25519_matches : Packages → List ℕ → List ℕ → Option (List ℕ) → Bool
ed25519_matches p message sig none = false
ed25519_matches p message sig (some key) =
    p.has_cryptography && nat_eq (length key) 32 && p.ed25519_verify key sig message

unfoldable pub verify_bytes : Packages → String → String → List ℕ → Option (List ℕ) → Result Bool
unfolding hmac_matches ed25519_matches load_hmac_secrets load_ed25519_keys get_key
verify_bytes p alg kid message none = ok false
verify_bytes p alg kid message (some sig) =
    if alg == "hmac-sha256"
    then (do secrets ← load_hmac_secrets p; ok (hmac_matches p message sig (get_key kid secrets)))
    else if alg == "ed25519"
    then (do keys ← load_ed25519_keys p; ok (ed25519_matches p message sig (get_key kid keys.0)))
    else ok false

-- `alg`, `kid` and `sig`, each a text
unfoldable pub verify_texts :
    Packages → List ℕ → Option String → Option String → Option String → Result Bool
unfolding verify_bytes b64url_decode
verify_texts p message (some alg) (some kid) (some sig) =
    verify_bytes p alg kid message (b64url_decode p sig)
verify_texts p message _ _ _ = ok false

unfoldable pub verify_signature : Packages → List ℕ → Option Json → Result Bool
unfolding verify_texts
verify_signature p message (some (obj s)) =
    verify_texts p message (as_text (get_field s "alg")) (as_text (get_field s "kid"))
      (as_text (get_field s "sig"))
verify_signature p message _ = ok false

unfoldable pub verify_manifest : Packages → Fields → Result Bool
unfolding verify_signature
verify_manifest p manifest =
    verify_signature p (p.canonical_json_bytes (pop_field manifest "signature"))
      (get_field manifest "signature")
