-- ===== src/Tests/Signed.antt =====
-- Witnesses for signed manifests.
use Prim.Native.Char.{Char, code}
use Prim.Native.String.{◌++◌ as concat, char_at}
use text.Mathlib.TextLemmas.{append-nil as concat-nil}
use dadi_runtime.Base.{
  bytes_eq_self, sym, ap, ◌∙◌, ◌||◌, Result, ℕ, zero, suc, ◌+◌, ◌%◌, String, true, false, Option,
  none, some, List, [], ◌∷◌, ◌≡◌, refl, arith, ◌==◌, Fields, end, field, str, ok, raised, other,
  if◌then◌else◌, bytes_eq, ◌⊎◌, pop_field, nat_eq, strip, lower, get_field, put_field, obj, ◌++◌,
  count, padding, pad, strip_padding, strip_right_by,
}
use dadi_runtime.Signing.{
  Packages, Keys, put_key, ed25519_signature, as_dict, sign_manifest, verify_manifest, sign_bytes,
  load_kid, load_signing_alg, load_hmac_secrets, hmac_signature, get_key, find_key, b64url_encode,
  load_ed25519_keys, load_keys, set_default, verify_signature, verify_texts, verify_bytes,
  hmac_matches, b64url_decode,
}
use dadi_runtime.Signing.Tamper.{
  IsSignedBy, Forgery, signed_bytes, verify_manifest_sound, verify_manifest-tamper,
}
use dadi_runtime.Signing.Provider.{SignatureEnvelope}
use dadi_runtime.Signing.Kms.{Kms, KeyStore, cached, elliptic_curve, kms_verify}
use dadi_runtime.BundleVerify.{checked, check_signature}
use dadi_runtime.BundleVerify.Agreement.{check_signature-sign_manifest}
use dadi_runtime.Signing.Kms.Cached.{IsGenuine, direct_verdict, kms_verify-cached}
use dadi_runtime.Signing.Laws.{IsBase64, IsEd25519, HasPairedKeys, sign_manifest-verify}

-- A code of bytes in texts: a group of four letters for each unit, another after each number.
abbrev four : Char → String → String
four c s = String.◌∷◌ c (String.◌∷◌ c (String.◌∷◌ c (String.◌∷◌ c s)))

units : ℕ → String → String
units zero s = four (char_at "B" 0) s
units (suc n) s = four (char_at "A" 0) (units n s)

unary : List ℕ → String
unary [] = ""
unary (n ∷ ns) = units n (unary ns)

cons_option : ℕ → Option (List ℕ) → Option (List ℕ)
cons_option n none = none
cons_option n (some ns) = some (n ∷ ns)

parse : ℕ → String → Option (List ℕ)
parse n String.[] = some []
parse n (String.◌∷◌ a (String.◌∷◌ b (String.◌∷◌ c (String.◌∷◌ d s)))) =
    let more = parse (suc n) s in
    let next = cons_option n (parse 0 s) in if nat_eq (code a) b'A' then more else next
parse n (String.◌∷◌ a _) = none

parse-units :
    (m n : ℕ) (s : String) (ns : List ℕ)
    → parse 0 s ≡ some ns
    → parse m (units n s) ≡ some ((m + n) ∷ ns)
unfolding parse units cons_option
parse-units m zero s ns h = ground (arith, h)
parse-units m (suc n) s ns h = ground (arith, parse-units (suc m) n s ns h)

parse-unary : (raw : List ℕ) → parse 0 (unary raw) ≡ some raw
unfolding unary parse
parse-unary [] = refl
parse-unary (n ∷ ns) =
    let e : 0 + n ≡ n = omega arith in rw e at (parse-units 0 n (unary ns) ns (parse-unary ns))

-- Such a text has no padding, and its length is a multiple of four.
HasNoPadding : String → Type 0
HasNoPadding s = (strip_padding s ≡ s) × (count s % 4 ≡ 0)

units-HasNoPadding : (n : ℕ) (s : String) → HasNoPadding s → HasNoPadding (units n s)
unfolding HasNoPadding units strip_padding strip_right_by count
units-HasNoPadding zero s h = (rw h.0 refl, omega (arith, h.1))
units-HasNoPadding (suc n) s h =
    let r = units-HasNoPadding n s h in (rw r.0 refl, omega (arith, r.1))

unary-HasNoPadding : (raw : List ℕ) → HasNoPadding (unary raw)
unfolding unary HasNoPadding strip_padding strip_right_by count
unary-HasNoPadding [] = (refl, refl)
unary-HasNoPadding (n ∷ ns) = units-HasNoPadding n (unary ns) (unary-HasNoPadding ns)

pad_none : (s : String) → count s % 4 ≡ 0 → concat s (pad s) ≡ s
unfolding pad padding
pad_none s h = rw h (concat-nil s)

abbrev bytes_of : Fields → List ℕ
bytes_of end = []
bytes_of (field k v rest) = 1 ∷ bytes_of rest

-- HMAC as the key and the message, one after the other
abbrev tag : List ℕ → List ℕ → List ℕ
tag key message = key ++ message

abbrev environment : String → String → String → Option String
environment alg secret name =
    if name == "DADI_BUNDLE_SIGNING_ALG"
    then some alg
    else if name == "DADI_BUNDLE_SIGNING_KID"
    then some "k1"
    else if name == "DADI_BUNDLE_SIGNING_SECRET"
    then some secret
    else if name == "DADI_SIGNING_PROVIDER"
    then some "dev_ed25519"
    else none

abbrev packages : Packages
packages = record {
  getenv = environment "hmac-sha256" "secret";
  canonical_json_bytes = bytes_of;
  loads = λ raw. raised (other "JSONDecodeError");
  repr = λ v. "?";
  encode = λ s. 7 ∷ 8 ∷ [];
  decode = λ bytes. none;
  int_of_text = λ s. none;
  int_of_float = λ s. none;
  urlsafe_b64encode = unary;
  urlsafe_b64decode = parse 0;
  hmac_sha256 = tag;
  has_cryptography = true;
  ed25519_sign = tag;
  ed25519_verify = λ key sig message. bytes_eq sig (tag key message);
}

packages-IsBase64 : IsBase64 packages
unfolding HasNoPadding
packages-IsBase64 raw =
    let (plain, long) = unary-HasNoPadding raw in
    (parse-unary raw, rw (plain, pad_none (unary raw) long) refl)

abbrev manifest : Fields
manifest = field "bundle_id" (str "b1") end

abbrev signed : Fields
signed = field "bundle_id" (str "b1") (
    field "signature"
      (obj (as_dict (record { alg = "hmac-sha256"; kid = "k1"; sig = unary (7 ∷ 8 ∷ 1 ∷ []) })))
      end)

signs : sign_manifest packages manifest ≡ ok signed
unfolding sign_manifest sign_bytes load_kid load_signing_alg strip lower get_field load_hmac_secrets
    hmac_signature get_key find_key b64url_encode strip_padding put_field unary units
signs = refl

-- an environment with an Ed25519 key, in a scheme where the public key is the seed
abbrev zero_bytes : ℕ → List ℕ
zero_bytes zero = []
zero_bytes (suc n) = 0 ∷ zero_bytes n

abbrev seed : List ℕ
seed = zero_bytes 32

abbrev ed_environment : String → Option String
ed_environment name =
    if name == "DADI_BUNDLE_SIGNING_KID"
    then some "k1"
    else if name == "DADI_ED25519_PUBLIC_KEY_B64URL" || name == "DADI_ED25519_PRIVATE_KEY_B64URL"
    then some (unary seed)
    else none

abbrev ed_packages : Packages
ed_packages = record packages { getenv = ed_environment }

abbrev ed_keys : Keys
ed_keys = ("k1", seed) ∷ []

ed_packages-IsEd25519 : IsEd25519 ed_packages (λ key. key)
ed_packages-IsEd25519 key long = (long, λ m. bytes_eq_self (tag key m))

ed_keys_load : load_ed25519_keys ed_packages ≡ ok (ed_keys, ed_keys)
unfolding load_ed25519_keys load_keys set_default strip get_key find_key put_key b64url_decode pad
    padding count parse cons_option unary units
ed_keys_load = refl

keys_of : Keys × Keys → Result (Keys × Keys) → Keys × Keys
keys_of d (ok keys) = keys
keys_of d (raised e) = d

ed_packages-HasPairedKeys : HasPairedKeys ed_packages (λ key. key)
unfolding keys_of
ed_packages-HasPairedKeys kid pubs privs key loads found =
    let same : (ed_keys, ed_keys) ≡ (pubs, privs) =
      ap (keys_of (ed_keys, ed_keys)) (sym ed_keys_load ∙ loads) in
    ap (λ keys. get_key kid keys) (sym (ap (λ q. q.0) same) ∙ ap (λ q. q.1) same) ∙ found

abbrev ed_signed : Fields
ed_signed = field "bundle_id" (str "b1") (
    field "signature"
      (obj (as_dict (record { alg = "ed25519"; kid = "k1"; sig = unary (seed ++ 1 ∷ []) }))) end)

ed_signs : sign_manifest ed_packages manifest ≡ ok ed_signed
unfolding sign_manifest sign_bytes load_kid load_signing_alg strip lower get_field load_ed25519_keys
    load_keys set_default ed25519_signature get_key find_key put_key b64url_encode b64url_decode pad
    padding count parse cons_option strip_padding put_field unary units
ed_signs = refl

sign_manifest-verify_example : verify_manifest ed_packages ed_signed ≡ ok true
sign_manifest-verify_example =
    sign_manifest-verify ed_packages packages-IsBase64 (λ key. key) ed_packages-IsEd25519
      ed_packages-HasPairedKeys manifest ed_signed ed_signs

abbrev signature : Fields
signature = as_dict (record { alg = "hmac-sha256"; kid = "k1"; sig = unary (7 ∷ 8 ∷ 1 ∷ []) })

abbrev other_signed : Fields
other_signed = field "bundle_id" (str "b2") (field "signature" (obj signature) end)

verifies :
    (m : Fields)
    → bytes_of (pop_field m "signature") ≡ 1 ∷ []
    → get_field m "signature" ≡ some (obj signature)
    → verify_manifest packages m ≡ ok true
unfolding verify_manifest verify_signature verify_texts verify_bytes get_field load_hmac_secrets
    get_key find_key hmac_matches bytes_eq strip b64url_decode pad padding count unary units
verifies m e g =
    rw (e, g, pad_none (unary (7 ∷ 8 ∷ 1 ∷ [])) refl, parse-unary (7 ∷ 8 ∷ 1 ∷ [])) refl

verify_manifest_sound_example : IsSignedBy packages (1 ∷ []) (some (obj signature))
unfolding get_field pop_field
verify_manifest_sound_example = verify_manifest_sound packages signed (verifies signed refl refl)

verify_manifest-tamper_example :
    (signed_bytes packages signed ≡ signed_bytes packages other_signed) ⊎ Forgery packages
unfolding get_field pop_field
verify_manifest-tamper_example =
    verify_manifest-tamper packages signed other_signed signature refl refl refl
      (verifies signed refl refl) (verifies other_signed refl refl)

-- the key management service, with one key
abbrev kms : Kms
kms = record {
  get_public_key = λ key_ref. if key_ref == "arn" then some (9 ∷ []) else none;
  sign = λ key_id alg message. ok (tag (9 ∷ []) message);
  load_der_public_key = λ der. ok (elliptic_curve der);
  ecdsa_verify = λ key sig message hash. bytes_eq sig (tag key message);
  pss_verify = λ key sig message hash. false;
  pkcs1_verify = λ key sig message hash. false;
}

abbrev key_store : KeyStore
key_store = record {
  cache = cached "k1" "arn" "aws_kms:ECDSA_SHA_256" (9 ∷ []) 1 ∷ [];
  signing_public_keys = [];
  reachable = true;
  clock = 2;
}

abbrev envelope : SignatureEnvelope
envelope = record {
  alg = "aws_kms:ECDSA_SHA_256";
  kid = "k1";
  sig = unary (9 ∷ 1 ∷ []);
  key_ref = "arn";
}

kms_verify-cached_example :
    ((kms_verify packages kms 3600 (1 ∷ []) envelope key_store).0
      ≡ direct_verdict kms packages (1 ∷ []) envelope (9 ∷ []))
    × IsGenuine kms (kms_verify packages kms 3600 (1 ∷ []) envelope key_store).1
kms_verify-cached_example =
    kms_verify-cached kms packages 3600 (1 ∷ []) envelope (9 ∷ []) key_store ((refl, tt), tt) refl

check_signature-sign_manifest_example :
    (kid : String) × (load_kid packages ≡ ok kid)
    × (check_signature packages signed ≡ ok (checked true "hmac-sha256" kid))
unfolding load_signing_alg strip lower
check_signature-sign_manifest_example =
    check_signature-sign_manifest packages packages-IsBase64 refl refl refl manifest signed signs
