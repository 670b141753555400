-- ===== src/Signing/KeyRing.antt =====
-- The packages that signing calls, and the keys that services/gateway/dadi_gateway/bundle_utils.py reads
-- from the environment.
use dadi_runtime.Base.{
  ℕ, ℤ, String, Bool, true, false, Option, none, some, List, [], ◌∷◌, ◌==◌, Json, Fields, end,
  field, str, obj, get_field, Result, ok, raised, value_error, runtime_error, other, if◌then◌else◌,
  nonempty, is_none, strip, lower, strip_padding, pad,
}
use dadi_runtime.Base.Results.{◌>>=◌}
use Prim.Native.String.{◌++◌ as concat}

pub record Packages : Type 0 where
  -- `os.getenv(name)`
  pub getenv : String → Option String
  -- `json.dumps(obj, sort_keys=True, …).encode("utf-8")`
  pub canonical_json_bytes : Fields → List ℕ
  -- `json.loads(raw)`
  pub loads : String → Result Json
  -- `str(v)` of a value that is not a text
  pub repr : Json → String
  -- `s.encode("utf-8")`
  pub encode : String → List ℕ
  -- `b.decode("utf-8")`, `none` where it raises
  pub decode : List ℕ → Option String
  -- `int(s)` of a text and of a float, `none` where it raises
  pub int_of_text : String → Option ℤ
  pub int_of_float : String → Option ℤ
  pub urlsafe_b64encode : List ℕ → String
  -- `none` where it raises
  pub urlsafe_b64decode : String → Option (List ℕ)
  -- `hmac.new(key, message, hashlib.sha256).digest()`
  pub hmac_sha256 : List ℕ → List ℕ → List ℕ
  -- whether the package `cryptography` is installed
  pub has_cryptography : Bool
  -- `Ed25519PrivateKey.from_private_bytes(key).sign(message)`
  pub ed25519_sign : List ℕ → List ℕ → List ℕ
  -- whether `Ed25519PublicKey.from_public_bytes(key).verify(sig, message)` returns
  pub ed25519_verify : List ℕ → List ℕ → List ℕ → Bool

-- A `dict` from key ids to keys
abbrev pub Keys : Type 0
Keys = List (String × List ℕ)

unfoldable pub find_key : String → Keys → Option (List ℕ)
find_key kid [] = none
find_key kid ((k, key) ∷ keys) = if k == kid then some key else find_key kid keys

-- `keys[kid] = key`
unfoldable pub put_key : String → List ℕ → Keys → Keys
put_key kid key [] = (kid, key) ∷ []
put_key kid key ((k, old) ∷ keys) =
    let rest = put_key kid key keys in if k == kid then (k, key) ∷ keys else (k, old) ∷ rest

-- What `keys.get(kid)` gives where it is true: no key is empty.
abbrev pub usable : Option (List ℕ) → Option (List ℕ)
usable (some (byte ∷ bytes)) = some (byte ∷ bytes)
usable _ = none

unfoldable pub get_key : String → Keys → Option (List ℕ)
unfolding find_key
get_key kid keys = usable (find_key kid keys)

-- `key in d`
abbrev pub has_field : Fields → String → Bool
has_field d key = elim (get_field d key) [ none ↦ false | some v ↦ true ]

-- `os.getenv(name, default).strip()`
abbrev pub env_or : Packages → String → String → String
env_or p name default = elim (p.getenv name) [ none ↦ default | some v ↦ v ]

unfoldable pub b64url_encode : Packages → List ℕ → String
b64url_encode p raw = strip_padding (p.urlsafe_b64encode raw)

unfoldable pub b64url_decode : Packages → String → Option (List ℕ)
b64url_decode p s = p.urlsafe_b64decode (concat s (pad s))

-- a decoder that raises
abbrev decoded : Option (List ℕ) → Result (List ℕ)
decoded none = raised (value_error "base64")
decoded (some bytes) = ok bytes

unfoldable pub load_signing_alg : Packages → String
load_signing_alg p = strip (lower (env_or p "DADI_BUNDLE_SIGNING_ALG" "ed25519"))

unfoldable pub load_kid : Packages → Result String
load_kid p =
    let kid = strip (env_or p "DADI_BUNDLE_SIGNING_KID" "") in
    if nonempty kid then ok kid else raised (runtime_error "DADI_BUNDLE_SIGNING_KID is not set")

-- `str(v)`
abbrev pub text_of : Packages → Json → String
text_of p (str s) = s
text_of p v = p.repr v

-- `for kid, b64 in data.items(): keys[str(kid)] = _b64url_decode(str(b64))`
unfoldable pub add_keys : Packages → Fields → Keys → Result Keys
unfolding b64url_decode
add_keys p end keys = ok keys
add_keys p (field kid v rest) keys = elim (b64url_decode p (text_of p v)) [
  | none ↦ raised (value_error "base64")
  | some key ↦ add_keys p rest (put_key kid key keys)
]

-- `data.items()`
abbrev pub items_of : Json → Result Fields
items_of (obj d) = ok d
items_of _ = raised (other "AttributeError")

-- the keys of a JSON text, none if the text is empty
unfoldable pub load_keys : Packages → String → Result Keys
unfolding add_keys
load_keys p raw =
    if nonempty raw
    then (do json ← p.loads raw; items ← items_of json; add_keys p items [])
    else ok []

unfoldable pub load_hmac_secrets : Packages → Result Keys
unfolding load_keys
load_hmac_secrets p =
    let raw = strip (env_or p "DADI_HMAC_SECRETS_JSON" "") in
    let secret = strip (env_or p "DADI_BUNDLE_SIGNING_SECRET" "") in
    let kid = env_or p "DADI_BUNDLE_SIGNING_KID" "default" in
    if nonempty raw
    then load_keys p raw
    else if nonempty secret
    then ok ((kid, p.encode secret) ∷ [])
    else ok []

-- `keys.setdefault(kid, _b64url_decode(single))`, where `single` is not empty
unfoldable pub set_default : Packages → String → Keys → Result Keys
unfolding b64url_decode
set_default p single keys =
    let kid = env_or p "DADI_BUNDLE_SIGNING_KID" "default" in
    if nonempty single
    then (do
      key ← decoded (b64url_decode p single)
      if is_none (find_key kid keys) then ok (put_key kid key keys) else ok keys)
    else ok keys

unfoldable pub load_ed25519_keys : Packages → Result (Keys × Keys)
unfolding load_keys set_default
load_ed25519_keys p = do
  pubs ← load_keys p (strip (env_or p "DADI_ED25519_PUBLIC_KEYS_JSON" ""))
  privs ← load_keys p (strip (env_or p "DADI_ED25519_PRIVATE_KEYS_JSON" ""))
  all_pubs ← set_default p (strip (env_or p "DADI_ED25519_PUBLIC_KEY_B64URL" "")) pubs
  all_privs ← set_default p (strip (env_or p "DADI_ED25519_PRIVATE_KEY_B64URL" "")) privs
  ok (all_pubs, all_privs)
