-- ===== src/Tests/Guarded.antt =====
-- Witnesses for the authentication and the routes of the gateway.
use dadi_runtime.Base.{
  if◌then◌else◌, pos, true, none, some, [], ◌∷◌, ◌≡◌, ◌↔◌, refl, arith, raised, other, bytes_eq,
  split, strip, lower, select, get_field, ends_with, strip_padding, pad, padding, count, select_one,
}
use dadi_runtime.Tables.{Db, empty_db}
use dadi_runtime.Requests.{Request, tenant_id}
use dadi_runtime.Store.{new_artifact, get_artifact_meta, get_artifact_content}
use dadi_runtime.Bundles.{StreamLimits, stream_bytes, iter_bytes}
use dadi_runtime.Signing.{b64url_encode, b64url_decode}
use dadi_runtime.Auth.{
  HttpRequest, passed, claims, JwtConfig, verify_hs256_jwt, verify_split, decode_part, check_parts,
  check_header, is_ascii, expected_b64, check_signature, check_payload, check_exp, check_int,
  int_of, parse_scopes, set_tenant, after_space, bearer_token, accept_claims, check_token,
  jwt_dispatch, require_scope,
}
use dadi_runtime.Auth.Accepted.{IsToken, verify_hs256_jwt_iff}
use dadi_runtime.Auth.Passed.{IsAuthenticated}
use dadi_runtime.Auth.Oidc.{PyJwt, JwksCache}
use dadi_runtime.Limits.{
  Bucket, new_bucket, find_bucket, put_bucket, allow_from, allow, classify_lane, lane_limits,
  limit_with, limit_dispatch, too_many,
}
use dadi_runtime.Limits.Redis.{redis_dispatch}
use dadi_runtime.Planner.Gateway.{PlanDb}
use dadi_runtime.Gateway.{
  Settings, dispatch, limit_then_authenticate, authenticate, get_content, content_for,
  direct_content, stream_content,
}
use dadi_runtime.Gateway.Content.{Sent, get_content-Sent}
use dadi_runtime.Gateway.Stack.{dispatch-passed, dispatch-incoming}
use dadi_runtime.Tests.{note_meta}
use dadi_runtime.Tests.Limited.{payload, packages, nats, letters, bucket, coming_in, request}

verify_hs256_jwt_iff_example :
    (verify_hs256_jwt packages 50 "h.p.s" "secret" ≡ claims payload)
    ↔ IsToken packages 50 "secret" (split b'.' "h.p.s") payload
verify_hs256_jwt_iff_example = verify_hs256_jwt_iff packages 50 "h.p.s" "secret" payload

is_verified : verify_hs256_jwt packages 50 "h.p.s" "secret" ≡ claims payload
unfolding verify_hs256_jwt verify_split split decode_part b64url_decode pad padding count bytes_eq
    check_parts check_header get_field check_signature is_ascii expected_b64 b64url_encode
    strip_padding check_payload check_exp check_int int_of
is_verified = refl

abbrev old_cache : JwksCache
old_cache = record {
  jwks_url = "https://idp/jwks";
  ttl_seconds = 1;
  cached_at = 0;
  jwks_client = some (record { url = "https://idp/jwks"; created_at = 0 });
}

-- a stored note, and a request of its tenant with the scope
abbrev note_db : Db
note_db = record empty_db { artifacts = new_artifact "acme" "a" note_meta (1 ∷ 2 ∷ 3 ∷ []) ∷ [] }

abbrev plan_db : PlanDb
plan_db = record { db = note_db; plans = [] }

abbrev reader : Request
reader = record coming_in { tenant_id = some "acme"; scopes = "artifact:read_bytes" ∷ [] }

abbrev chunked : StreamLimits
chunked = record { chunk_size = 2; max_bytes = some 10 }

get_content-Sent_example :
    Sent "artifact:read_bytes" reader "a" note_db 3 ((1 ∷ 2 ∷ []) ∷ (3 ∷ []) ∷ [])
unfolding get_content content_for direct_content stream_content tenant_id get_artifact_meta
    get_artifact_content stream_bytes iter_bytes select_one require_scope
get_content-Sent_example =
    get_content-Sent chunked (omega arith) "artifact:read_bytes" reader "a" plan_db plan_db 3
      ((1 ∷ 2 ∷ []) ∷ (3 ∷ []) ∷ []) refl

abbrev jwt : JwtConfig
jwt = record { mode = "jwt"; secret = "secret"; tenant_claim = "tenant_id"; scope_claim = "scope" }

abbrev settings : Settings
settings = record {
  auth_mode = "jwt";
  jwt = jwt;
  oidc = record {
    issuer = "https://idp";
    audience = "dadi";
    jwks_url = "https://idp/jwks";
    tenant_claim = "tenant_id";
    scope_claim = "scope";
    clock_skew_seconds = pos 60;
    jwks_cache_ttl_seconds = pos 300;
  };
  rate_limit_enabled = true;
  rate_limit_backend = "memory";
  fail_closed = true;
}

abbrev py_jwt : PyJwt
py_jwt = record {
  get_signing_key_from_jwt = λ c token. raised (other "PyJWKClientError");
  decode = λ key token algs audience issuer leeway. raised (other "DecodeError");
}

abbrev admitted : HttpRequest
admitted = record request {
  state = record coming_in { tenant_id = some "acme"; scopes = "artifact:read_bytes" ∷ [] };
}

abbrev anonymous : Bucket nats
anonymous = record (new_bucket nats "anonymous" "bytes" (pos 5) 7 11) { tokens = 4 }

passes :
    dispatch nats letters packages py_jwt settings 11 50 old_cache [] request []
    ≡ some (passed admitted, anonymous ∷ [])
unfolding dispatch redis_dispatch limit_then_authenticate limit_dispatch limit_with lane_limits
    classify_lane ends_with allow allow_from find_bucket put_bucket authenticate jwt_dispatch
    bearer_token lower strip after_space check_token accept_claims verify_hs256_jwt verify_split
    split decode_part b64url_decode pad padding count bytes_eq check_parts check_header get_field
    check_signature is_ascii expected_b64 b64url_encode strip_padding check_payload check_exp
    check_int int_of set_tenant parse_scopes select
passes = refl

dispatch-passed_example : IsAuthenticated packages jwt 50 request admitted
dispatch-passed_example =
    dispatch-passed nats letters packages py_jwt settings 11 50 old_cache [] request admitted []
      (anonymous ∷ []) refl refl passes

dispatch-incoming_example :
    dispatch nats letters packages py_jwt settings 11 50 old_cache [] request (bucket ∷ [])
    ≡ some (
      (if (allow nats "anonymous" "bytes" (pos 5) 7 11 (bucket ∷ [])).0
          then authenticate packages py_jwt settings 50 old_cache request
          else too_many "anonymous" "bytes"),
      (allow nats "anonymous" "bytes" (pos 5) 7 11 (bucket ∷ [])).1,
    )
unfolding lane_limits classify_lane ends_with
dispatch-incoming_example =
    dispatch-incoming nats letters packages py_jwt settings 11 50 old_cache [] (bucket ∷ [])
      (some "Bearer h.p.s") (some "5") none "GET" "/artifacts/a/content" (pos 5) 7 refl refl refl
