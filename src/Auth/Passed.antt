-- ===== src/Auth/Passed.antt =====
-- Which requests get past the middleware.
use dadi_runtime.Base.{
  ℕ, String, true, Option, none, some, ◌≡◌, refl, sym, ap, inl, inr, arith, Bool-cases, Fields,
  get_field, as_text, nonempty, if◌then◌else◌, split,
}
use dadi_runtime.Signing.{Packages}
use dadi_runtime.Auth.{
  HttpRequest, passed, Checked, claims, jwt_error, crashed, verify_hs256_jwt, parse_scopes,
  set_tenant, with_tenant, bearer_token, JwtConfig, accept_claims, check_token, jwt_dispatch,
}
use dadi_runtime.Auth.Accepted.{IsToken, verify_hs256_jwt_iff}

-- What the routes find in a request that carries a valid token: the tenant of its claims, which is not
-- empty, and their scopes.
abbrev pub IsAuthenticated : Packages → JwtConfig → ℕ → HttpRequest → HttpRequest → Type 0
IsAuthenticated p cfg now request next =
    (token : String) × (c : Fields) × (tenant : String) × (bearer_token request.authorization
      ≡ some token)
    × IsToken p now cfg.secret (split b'.' token) c
    × (as_text (get_field c cfg.tenant_claim) ≡ some tenant)
    × (nonempty tenant ≡ true)
    × (next.state.tenant_id ≡ some tenant)
    × (next.state.scopes ≡ parse_scopes p (get_field c cfg.scope_claim))

set_tenant-passed :
    (p : Packages) (scope_claim : String) (o : Option String) (c : Fields)
    (request next : HttpRequest)
    → set_tenant p scope_claim o c request ≡ passed next
    → (tenant : String) × (o ≡ some tenant)
      × (nonempty tenant ≡ true)
      × (next ≡ with_tenant p scope_claim tenant c request)
unfolding set_tenant
set_tenant-passed p scope_claim none c request next h = absurd (ground arith)
set_tenant-passed p scope_claim (some tenant) c request next h =
    elim (Bool-cases (nonempty tenant)) [
      | inl full ↦ (
        tenant,
        refl,
        full,
        passed-injective _ _ (sym (rw (full, set_tenant, if◌then◌else◌) at h)),
      )
      | inr empty ↦ absurd (ground arith)
    ]
  where
    passed-injective : (a b : HttpRequest) → passed a ≡ passed b → a ≡ b
    passed-injective a b e = ground arith

accept_claims-passed :
    (p : Packages) (cfg : JwtConfig) (now : ℕ) (request next : HttpRequest) (token : String)
    → bearer_token request.authorization ≡ some token
    → (v : Checked) → verify_hs256_jwt p now token cfg.secret ≡ v
    → accept_claims p cfg v request ≡ passed next
    → IsAuthenticated p cfg now request next
unfolding accept_claims
accept_claims-passed p cfg now request next token e (claims c) v k =
    let (tenant, is_tenant, full, q) =
      set_tenant-passed p cfg.scope_claim (as_text (get_field c cfg.tenant_claim)) c request next
        k in
    let valid = (verify_hs256_jwt_iff p now token cfg.secret c).0 v in
    (
      token,
      c,
      tenant,
      e,
      valid,
      is_tenant,
      full,
      ap (λ r. r.state.tenant_id) q,
      ap (λ r. r.state.scopes) q,
    )
accept_claims-passed p cfg now request next token e (jwt_error x) v k = absurd (ground arith)
accept_claims-passed p cfg now request next token e (crashed x) v k = absurd (ground arith)

check_token-passed :
    (p : Packages) (cfg : JwtConfig) (now : ℕ) (request next : HttpRequest) (o : Option String)
    → bearer_token request.authorization ≡ o
    → check_token p cfg now o request ≡ passed next
    → IsAuthenticated p cfg now request next
unfolding check_token
check_token-passed p cfg now request next none e h = absurd (ground arith)
check_token-passed p cfg now request next (some token) e h =
    accept_claims-passed p cfg now request next token e (verify_hs256_jwt p now token cfg.secret)
      refl h

-- In the mode `jwt` a request that goes on carries a bearer token that is valid under the secret, and
-- goes on with the tenant of its claims, which is not empty, and their scopes.
pub jwt_dispatch-passed :
    (p : Packages) (cfg : JwtConfig) (now : ℕ) (request next : HttpRequest)
    → cfg.mode ≡ "jwt"
    → jwt_dispatch p cfg now request ≡ passed next
    → IsAuthenticated p cfg now request next
unfolding jwt_dispatch check_token accept_claims
jwt_dispatch-passed p cfg now request next mode h = elim (Bool-cases (nonempty cfg.secret)) [
  | inl set ↦
      check_token-passed p cfg now request next _ refl
        (rw (mode, set, jwt_dispatch, if◌then◌else◌) at h)
  | inr unset ↦
      let k = rw (mode, unset, jwt_dispatch, if◌then◌else◌) at h in absurd (ground (arith, k))
]
