-- ===== src/Auth/Oidc.antt =====
-- services/gateway/dadi_gateway/auth_oidc.py: the middleware that verifies tokens with the keys of an
-- identity provider, and the client that fetches them. The packages `jwt` and `requests` are the fields
-- of `PyJwt`; times are in microseconds.
use Prim.Native.String.{◌++◌ as concat}
use mathlib.Core.Path.{subst}
use dadi_runtime.Base.{
  ℕ, ◌-◌, ◌*◌, ◌≤◌, ℤ, pos, String, Bool, Option, none, some, List, [], ◌∷◌, ◌≡◌, refl, sym, ap,
  inl, inr, arith, Bool-cases, ◌==◌, Fields, get_field, as_text, Result, ok, raised, runtime_error,
  value_error, if◌then◌else◌, nonempty, ltb, ltb→ge, or_default, strip,
}
use dadi_runtime.Base.Results.{◌>>=◌}
use dadi_runtime.Signing.{Packages, env_or}
use dadi_runtime.Auth.{HttpRequest, Outcome, passed, answered, detail, bearer_token, set_tenant}

pub record OidcConfig : Type 0 where
  pub issuer : String
  pub audience : String
  pub jwks_url : String
  pub tenant_claim : String
  pub scope_claim : String
  pub clock_skew_seconds : ℤ
  pub jwks_cache_ttl_seconds : ℤ

unfoldable pub require_env : Packages → String → Result String
require_env p name =
    let v = strip (env_or p name "") in
    if nonempty v then ok v else raised (runtime_error (concat "Missing required env var: " name))

-- `int(os.getenv(name, default))`
abbrev env_int : Packages → String → ℤ → Result ℤ
env_int p name default = elim (p.getenv name) [
  | none ↦ ok default
  | some v ↦ elim (p.int_of_text v) [ none ↦ raised (value_error v) | some n ↦ ok n ]
]

-- `os.getenv(name, default).strip() or default`
abbrev env_claim : Packages → String → String → String
env_claim p name default = or_default (some (strip (env_or p name default))) default

unfoldable pub load_config : Packages → Result OidcConfig
unfolding require_env
load_config p = do
  issuer ← require_env p "DADI_OIDC_ISSUER"
  audience ← require_env p "DADI_OIDC_AUDIENCE"
  jwks_url ← require_env p "DADI_OIDC_JWKS_URL"
  skew ← env_int p "DADI_CLOCK_SKEW_SECONDS" (pos 60)
  ttl ← env_int p "DADI_JWKS_CACHE_TTL_SECONDS" (pos 300)
  ok (record {
    issuer = issuer;
    audience = audience;
    jwks_url = jwks_url;
    tenant_claim = env_claim p "DADI_TENANT_CLAIM" "tenant_id";
    scope_claim = env_claim p "DADI_SCOPE_CLAIM" "scope";
    clock_skew_seconds = skew;
    jwks_cache_ttl_seconds = ttl;
  })

-- `PyJWKClient(url)`, known by the time it was made: it fetches the keys that are published then.
pub record JwksClient : Type 0 where
  pub url : String
  pub created_at : ℕ

pub record JwksCache : Type 0 where
  pub jwks_url : String
  pub ttl_seconds : ℕ
  pub cached_at : ℕ
  pub jwks_client : Option JwksClient

-- `JWKSCache.__init__`
abbrev pub new_cache : String → ℕ → JwksCache
new_cache url ttl = record { jwks_url = url; ttl_seconds = ttl; cached_at = 0; jwks_client = none }

abbrev new_client : JwksCache → ℕ → JwksClient
new_client cache now = record { url = cache.jwks_url; created_at = now }

abbrev renewed : JwksCache → ℕ → JwksClient × JwksCache
renewed cache now = (
  new_client cache now,
  record cache { jwks_client = some (new_client cache now); cached_at = now },
)

-- `JWKSCache.client`
unfoldable pub client_of : JwksCache → ℕ → Option JwksClient → JwksClient × JwksCache
client_of cache now none = renewed cache now
client_of cache now (some c) =
    if ltb (cache.ttl_seconds * 1000000) (now - cache.cached_at)
    then renewed cache now
    else (c, cache)

unfoldable pub client : JwksCache → ℕ → JwksClient × JwksCache
unfolding client_of
client cache now = client_of cache now cache.jwks_client

-- `cached_at` is the time at which the client was made.
abbrev pub IsDated : JwksCache → Type 0
IsDated cache = (c : JwksClient) → cache.jwks_client ≡ some c → c.created_at ≡ cache.cached_at

-- The algorithms that are accepted.
abbrev pub algorithms : List String
algorithms = "RS256" ∷ "ES256" ∷ "EdDSA" ∷ []

-- `client.get_signing_key_from_jwt(token).key`, and `jwt.decode` with the algorithms, the audience, the
-- issuer and the leeway.
pub record PyJwt : Type 0 where
  pub get_signing_key_from_jwt : JwksClient → String → Result String
  pub decode : String → String → List String → String → String → ℤ → Result Fields

unfoldable pub decode_token : PyJwt → OidcConfig → JwksClient → String → Result Fields
decode_token j cfg c token = do
  key ← j.get_signing_key_from_jwt c token
  j.decode token key algorithms cfg.audience cfg.issuer cfg.clock_skew_seconds

-- the text of an exception
abbrev refused : Outcome
refused = answered 401 (detail "Unauthorized: invalid token")

unfoldable pub accept_payload : Packages → OidcConfig → Result Fields → HttpRequest → Outcome
unfolding set_tenant
accept_payload p cfg (raised e) request = refused
accept_payload p cfg (ok payload) request =
    set_tenant p cfg.scope_claim (as_text (get_field payload cfg.tenant_claim)) payload request

unfoldable pub check_bearer :
    Packages
    → PyJwt
    → OidcConfig
    → ℕ
    → Option String
    → HttpRequest
    → JwksCache
    → Outcome × JwksCache
unfolding accept_payload decode_token client
check_bearer p j cfg now none request cache = (answered 401 (detail "Unauthorized"), cache)
check_bearer p j cfg now (some token) request cache =
    let (c, after) = client cache now in
    (accept_payload p cfg (decode_token j cfg c token) request, after)

-- `OIDCAuthMiddleware.dispatch`, the mode given
unfoldable pub oidc_dispatch :
    Packages → PyJwt → String → OidcConfig → ℕ → HttpRequest → JwksCache → Outcome × JwksCache
unfolding check_bearer bearer_token
oidc_dispatch p j mode cfg now request cache =
    if mode == "oidc"
    then check_bearer p j cfg now (bearer_token request.authorization) request cache
    else (passed request, cache)

-- No client is older than the time to live, and the cache stays dated.
abbrev pub IsFresh : JwksCache → ℕ → JwksClient × JwksCache → Type 0
IsFresh cache now x = (now - x.0.created_at ≤ cache.ttl_seconds * 1000000) × IsDated x.1

renewed-IsFresh : (cache : JwksCache) (now : ℕ) → IsFresh cache now (renewed cache now)
renewed-IsFresh cache now = (omega arith, λ c e. ground (arith, e))

client_of-IsFresh :
    (cache : JwksCache) (now : ℕ) (o : Option JwksClient)
    → IsDated cache
    → cache.jwks_client ≡ o
    → IsFresh cache now (client_of cache now o)
unfolding client_of
client_of-IsFresh cache now none dated e = renewed-IsFresh cache now
client_of-IsFresh cache now (some c) dated e =
    elim (Bool-cases (ltb (cache.ttl_seconds * 1000000) (now - cache.cached_at))) [
      | inl stale ↦ subst (IsFresh cache now) (sym (ap pick stale)) (renewed-IsFresh cache now)
      | inr fresh ↦
          let made : c.created_at ≡ cache.cached_at = dated c e in
          let age : now - cache.cached_at ≤ cache.ttl_seconds * 1000000 = ltb→ge _ _ fresh in
          subst (IsFresh cache now) (sym (ap pick fresh)) (rw (← made) at age, dated)
    ]
  where
    pick : Bool → JwksClient × JwksCache
    pick b = if b then renewed cache now else (c, cache)

-- The client that is used was made no longer ago than the time to live, and the cache knows when.
pub client-IsFresh :
    (cache : JwksCache) (now : ℕ) → IsDated cache → IsFresh cache now (client cache now)
unfolding client
client-IsFresh cache now dated = client_of-IsFresh cache now cache.jwks_client dated refl
