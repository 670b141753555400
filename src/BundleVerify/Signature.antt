-- ===== src/BundleVerify/Signature.antt =====
-- tools/bundle-verify/bundle_verify.py: the check of a signature.
use Prim.Native.String.{◌++◌ as concat}
use dadi_runtime.Base.{
  ℕ, String, Bool, true, false, Option, none, some, List, ◌==◌, Json, Fields, end, field, str, bool,
  obj, get_field, pop_field, as_text, Result, ok, raised, value_error, if◌then◌else◌, nonempty,
  nat_eq, length, strip, bytes_eq, null, int, pos, negsuc, float, arr, nil, cons, not, ◌||◌, other,
}
use dadi_runtime.Base.Results.{◌>>=◌}
use dadi_runtime.Signing.{Packages, env_or, items_of, b64url_decode}

-- `{"ok": False, "reason": …}`
abbrev pub refused : String → Fields
refused reason = field "ok" (bool false) (field "reason" (str reason) end)

abbrev pub checked : Bool → String → String → Fields
checked passes alg kid =
    field "ok" (bool passes) (field "alg" (str alg) (field "kid" (str kid) end))

abbrev pub failed_check : String → String → Fields
failed_check alg kid =
    field "ok" (bool false)
      (field "alg" (str alg) (field "kid" (str kid) (field "reason" (str "verify failed") end)))

-- `check.get("ok") is True`
abbrev pub is_ok : Fields → Bool
is_ok check = elim (get_field check "ok") [ none ↦ false | some v ↦ is_true v ]
  where
    is_true : Json → Bool
    is_true (bool b) = b
    is_true _ = false

-- A decoder that raises.
abbrev pub decoded : Packages → String → Result (List ℕ)
decoded p s = elim (b64url_decode p s) [ none ↦ raised (value_error "base64") | some b ↦ ok b ]

-- `bool(v)`
unfoldable pub is_truthy : Json → Bool
is_truthy null = false
is_truthy (bool b) = b
is_truthy (int (pos n)) = not (nat_eq n 0)
is_truthy (int (negsuc n)) = true
is_truthy (float s) = not (s == "0.0" || s == "-0.0")
is_truthy (str s) = nonempty s
is_truthy (arr nil) = false
is_truthy (arr (cons v rest)) = true
is_truthy (obj end) = false
is_truthy (obj (field k v rest)) = true

-- a key that is true; `b64url_decode` raises where it is no text
abbrev key_value : Json → Result (Option String)
key_value (str s) = ok (some s)
key_value _ = raised (other "TypeError")

-- `keys.get(kid)` and `if not key`: a missing key, or one that is false, is `none`.
unfoldable pub key_text : Option Json → Result (Option String)
unfolding is_truthy
key_text none = ok none
key_text (some v) = if is_truthy v then key_value v else ok none

-- the key of the JSON text for the key id
unfoldable pub find_key : Packages → String → String → Result (Option String)
unfolding key_text
find_key p raw kid = do json ← p.loads raw; keys ← items_of json; key_text (get_field keys kid)

unfoldable pub hmac_with : Packages → String → List ℕ → List ℕ → List ℕ → Fields
hmac_with p kid message sig key =
    checked (bytes_eq (p.hmac_sha256 key message) sig) "hmac-sha256" kid

unfoldable pub hmac_found : Packages → String → List ℕ → List ℕ → Option String → Result Fields
unfolding hmac_with
hmac_found p kid message sig none = ok (refused (concat "missing hmac key for kid " kid))
hmac_found p kid message sig (some key_b64) = do
  key ← decoded p key_b64
  ok (hmac_with p kid message sig key)

abbrev pub is_empty_bytes : List ℕ → Bool
is_empty_bytes bytes = nat_eq (length bytes) 0

unfoldable pub check_hmac : Packages → String → List ℕ → List ℕ → Result Fields
unfolding hmac_found find_key
check_hmac p kid message sig =
    let raw = strip (env_or p "DADI_HMAC_SECRETS_JSON" "") in
    let secret = p.encode (env_or p "DADI_BUNDLE_SIGNING_SECRET" "") in
    if nonempty raw
    then (do key ← find_key p raw kid; hmac_found p kid message sig key)
    else if is_empty_bytes secret
    then ok (refused "missing hmac secret")
    else ok (hmac_with p kid message sig secret)

unfoldable pub ed25519_with : Packages → String → List ℕ → List ℕ → List ℕ → Fields
ed25519_with p kid message sig key =
    if nat_eq (length key) 32
    then if p.ed25519_verify key sig message
      then checked true "ed25519" kid
      else failed_check "ed25519" kid
    else refused "invalid public key length"

unfoldable pub ed25519_found : Packages → String → List ℕ → List ℕ → Option String → Result Fields
unfolding ed25519_with
ed25519_found p kid message sig none = ok (refused (concat "missing public key for kid " kid))
ed25519_found p kid message sig (some key_b64) = do
  key ← decoded p key_b64
  ok (ed25519_with p kid message sig key)

unfoldable pub check_ed25519 : Packages → String → List ℕ → List ℕ → Result Fields
unfolding ed25519_found find_key
check_ed25519 p kid message sig =
    let raw = strip (env_or p "DADI_ED25519_PUBLIC_KEYS_JSON" "") in
    if p.has_cryptography
    then if nonempty raw
      then (do key ← find_key p raw kid; ed25519_found p kid message sig key)
      else ok (refused "missing DADI_ED25519_PUBLIC_KEYS_JSON")
    else ok (refused "cryptography not installed for ed25519")

unfoldable pub check_texts :
    Packages → List ℕ → Option String → Option String → Option String → Result Fields
unfolding check_hmac check_ed25519
check_texts p message (some alg) (some kid) (some sig_b64) = do
  sig ← decoded p sig_b64
  if alg == "hmac-sha256"
      then check_hmac p kid message sig
      else if alg == "ed25519"
      then check_ed25519 p kid message sig
      else ok (refused (concat "unsupported alg " alg))
check_texts p message _ _ _ = ok (refused "invalid signature fields")

unfoldable pub check_object : Packages → List ℕ → Option Json → Result Fields
unfolding check_texts
check_object p message (some (obj sig)) =
    check_texts p message (as_text (get_field sig "alg")) (as_text (get_field sig "kid"))
      (as_text (get_field sig "sig"))
check_object p message _ = ok (refused "missing signature object")

-- `verify_signature`
unfoldable pub check_signature : Packages → Fields → Result Fields
unfolding check_object
check_signature p manifest =
    check_object p (p.canonical_json_bytes (pop_field manifest "signature"))
      (get_field manifest "signature")
