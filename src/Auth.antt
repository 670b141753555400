-- ===== src/Auth.antt =====
-- services/gateway/dadi_gateway/jwt_auth.py: the middleware that verifies a bearer token and gives the
-- request its tenant, and the check of a scope. The functions of the packages are those of
-- `Signing.Packages`; the time is in seconds.
mod Token
pub mod Oidc
pub mod Accepted
pub mod Passed
unfoldable pub use Token.*
use dadi_runtime.Base.{
  ℕ, ℤ, pos, negsuc, zero, suc, String, Bool, true, false, ◌&&◌, ◌||◌, not, Option, none, some,
  List, [], ◌∷◌, ◌==◌, Json, Items, nil, cons, Fields, end, field, str, bool, int, float, arr, obj,
  null, get_field, as_text, Result, ok, raised, if◌then◌else◌, nonempty, is_text, ltb, leb, strip,
  lower, split, select,
}
use dadi_runtime.Requests.{Request}
use dadi_runtime.Signing.{Packages, b64url_encode, b64url_decode, text_of}
use dadi_runtime.Bundles.{has_scope}
use Prim.Native.Char.{Char, code}
use Prim.Native.String.{◌++◌ as concat}
use text.Mathlib.Text.{starts_with}

-- A request as a middleware meets it: two headers, which are found in any case of letters, and what
-- the routes read of it.
pub record HttpRequest : Type 0 where
  pub authorization : Option String
  pub content_length : Option String
  pub state : Request

-- The request goes on, is answered at once, or the middleware raises.
pub data Outcome : Type 0 where
  passed : HttpRequest → Outcome
  answered : ℕ → Fields → Outcome
  failed : String → Outcome

abbrev pub detail : String → Fields
detail message = field "detail" (str message) end

abbrev texts_of : Packages → Items → List String
texts_of p nil = []
texts_of p (cons v rest) = text_of p v ∷ texts_of p rest

-- A set of scopes, as a list; only membership is asked.
unfoldable pub parse_scopes : Packages → Option Json → List String
unfolding split select
parse_scopes p (some (str s)) = select nonempty (split b' ' s)
parse_scopes p (some (arr scopes)) = texts_of p scopes
parse_scopes p _ = []

-- What both authentication middlewares do with the claims of a token. A subject is a text.
abbrev with_tenant : Packages → String → String → Fields → HttpRequest → HttpRequest
with_tenant p scope_claim tenant payload request = record request {
  state = record (request.state) {
    tenant_id = some tenant;
    subject = as_text (get_field payload "sub");
    scopes = parse_scopes p (get_field payload scope_claim);
  };
}

abbrev missing_tenant : Outcome
missing_tenant = answered 401 (detail "Unauthorized: missing tenant claim")

unfoldable pub set_tenant : Packages → String → Option String → Fields → HttpRequest → Outcome
unfolding parse_scopes
set_tenant p scope_claim none payload request = missing_tenant
set_tenant p scope_claim (some tenant) payload request =
    if nonempty tenant
    then passed (with_tenant p scope_claim tenant payload request)
    else missing_tenant

-- `auth.split(" ", 1)[1]`
unfoldable pub after_space : String → String
after_space String.[] = ""
after_space (String.◌∷◌ c s) = let rest = after_space s in if code_is_space c then s else rest
  where
    code_is_space : Char → Bool
    code_is_space c = String.◌∷◌ c "" == " "

-- The token of a header `Bearer …`
unfoldable pub bearer_token : Option String → Option String
unfolding after_space lower strip
bearer_token none = none
bearer_token (some auth) =
    if nonempty auth && starts_with (lower auth) "bearer "
    then some (strip (after_space auth))
    else none

pub record JwtConfig : Type 0 where
  pub mode : String
  pub secret : String
  pub tenant_claim : String
  pub scope_claim : String

unfoldable pub accept_claims : Packages → JwtConfig → Checked → HttpRequest → Outcome
unfolding set_tenant
accept_claims p cfg (claims payload) request =
    set_tenant p cfg.scope_claim (as_text (get_field payload cfg.tenant_claim)) payload request
accept_claims p cfg (jwt_error e) request = answered 401 (detail (concat "Unauthorized: " e))
accept_claims p cfg (crashed e) request = failed e

unfoldable pub check_token : Packages → JwtConfig → ℕ → Option String → HttpRequest → Outcome
unfolding accept_claims verify_hs256_jwt
check_token p cfg now none request = answered 401 (detail "Unauthorized")
check_token p cfg now (some token) request =
    accept_claims p cfg (verify_hs256_jwt p now token cfg.secret) request

-- `JWTAuthMiddleware.dispatch`
unfoldable pub jwt_dispatch : Packages → JwtConfig → ℕ → HttpRequest → Outcome
unfolding check_token bearer_token
jwt_dispatch p cfg now request =
    if cfg.mode == "jwt"
    then if nonempty cfg.secret
      then check_token p cfg now (bearer_token request.authorization) request
      else answered 500 (detail "DADI_JWT_HS256_SECRET not set")
    else passed request

-- `require_scope`: the answer that refuses, or `none`
unfoldable pub require_scope : Request → String → Option (ℕ × Fields)
require_scope request required =
    if has_scope required request.scopes
    then none
    else some (403, detail "Forbidden: insufficient scope")
