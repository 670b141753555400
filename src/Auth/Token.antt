-- ===== src/Auth/Token.antt =====
-- services/gateway/dadi_gateway/jwt_auth.py: the verification of a token. The time is in seconds.
use dadi_runtime.Base.{
  ℕ, ℤ, pos, negsuc, String, Bool, true, false, ◌&&◌, Option, none, some, List, [], ◌∷◌, ◌==◌, Json,
  Fields, str, bool, int, float, obj, null, get_field, as_text, Result, ok, raised, if◌then◌else◌,
  is_text, ltb, leb, split,
}
use dadi_runtime.Signing.{Packages, b64url_encode, b64url_decode}
use Prim.Native.Char.{code}
use Prim.Native.String.{◌++◌ as concat}

-- What `verify_hs256_jwt` returns, its `JWTError`, and any other exception.
pub data Checked : Type 0 where
  claims : Fields → Checked
  jwt_error : String → Checked
  crashed : String → Checked

-- `int(v)`, `none` where it raises
unfoldable pub int_of : Packages → Json → Option ℤ
int_of p (int n) = some n
int_of p (bool true) = some (pos 1)
int_of p (bool false) = some (pos 0)
int_of p (float x) = p.int_of_float x
int_of p (str s) = p.int_of_text s
int_of p _ = none

-- `int(time.time()) >= exp`
abbrev pub has_expired : ℕ → ℤ → Bool
has_expired now (pos exp) = leb exp now
has_expired now (negsuc exp) = true

unfoldable pub check_int : ℕ → Fields → Option ℤ → Checked
check_int now payload none = jwt_error "Invalid exp"
check_int now payload (some exp) =
    if has_expired now exp then jwt_error "Token expired" else claims payload

-- `exp` may be missing or `null`
unfoldable pub check_exp : Packages → ℕ → Fields → Option Json → Checked
unfolding check_int int_of
check_exp p now payload none = claims payload
check_exp p now payload (some null) = claims payload
check_exp p now payload (some exp) = check_int now payload (int_of p exp)

unfoldable pub check_payload : Packages → ℕ → Json → Checked
unfolding check_exp
check_payload p now (obj payload) = check_exp p now payload (get_field payload "exp")
check_payload p now _ = crashed "AttributeError"

-- `compare_digest` refuses texts that are not ASCII.
unfoldable pub is_ascii : String → Bool
is_ascii String.[] = true
is_ascii (String.◌∷◌ c s) = ltb (code c) 128 && is_ascii s

abbrev pub signing_input : String → String → String
signing_input header payload = concat header (concat "." payload)

-- the signature of the two parts under the secret
unfoldable pub expected_b64 : Packages → String → String → String → String
unfolding b64url_encode
expected_b64 p secret header payload =
    b64url_encode p (p.hmac_sha256 (p.encode secret) (p.encode (signing_input header payload)))

unfoldable pub check_signature : Packages → ℕ → String → String → String → String → Json → Checked
unfolding check_payload expected_b64 is_ascii
check_signature p now secret header payload sig json =
    if is_ascii sig
    then if expected_b64 p secret header payload == sig
      then check_payload p now json
      else jwt_error "Invalid signature"
    else crashed "TypeError"

unfoldable pub check_header :
    Packages → ℕ → String → String → String → String → Json → Json → Checked
unfolding check_signature
check_header p now secret header payload sig (obj h) json =
    if is_text (as_text (get_field h "alg")) "HS256"
    then check_signature p now secret header payload sig json
    else jwt_error "Unsupported alg"
check_header p now secret header payload sig _ json = crashed "AttributeError"

abbrev loaded : Result Json → Option Json
loaded (ok json) = some json
loaded (raised e) = none

abbrev text_json : Packages → Option String → Option Json
text_json p none = none
text_json p (some s) = loaded (p.loads s)

abbrev bytes_json : Packages → Option (List ℕ) → Option Json
bytes_json p none = none
bytes_json p (some bytes) = text_json p (p.decode bytes)

-- `json.loads(_b64url_decode(part).decode("utf-8"))`
unfoldable pub decode_part : Packages → String → Option Json
unfolding b64url_decode
decode_part p part = bytes_json p (b64url_decode p part)

unfoldable pub check_parts :
    Packages → ℕ → String → String → String → String → Option Json → Option Json → Checked
unfolding check_header
check_parts p now secret header payload sig (some h) (some json) =
    check_header p now secret header payload sig h json
check_parts p now secret header payload sig _ _ = jwt_error "Invalid JWT encoding"

unfoldable pub verify_split : Packages → ℕ → String → List String → Checked
unfolding check_parts decode_part
verify_split p now secret (header ∷ payload ∷ sig ∷ []) =
    check_parts p now secret header payload sig (decode_part p header) (decode_part p payload)
verify_split p now secret _ = jwt_error "Invalid JWT format"

unfoldable pub verify_hs256_jwt : Packages → ℕ → String → String → Checked
unfolding verify_split split
verify_hs256_jwt p now token secret = verify_split p now secret (split b'.' token)
