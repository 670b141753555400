-- ===== src/Requests.antt =====
-- What the gateway's routes read of a request, and services/gateway/dadi_gateway/idempotency.py: the
-- response that was stored for an idempotency key. The JSON column gives back the value written.
pub mod Idempotency
use dadi_runtime.Base.{
  ℕ, String, Bool, true, false, Option, none, some, List, [], ◌&&◌, ◌==◌, Json, Fields, obj, Exec,
  ok, raised, http, if◌then◌else◌, truthy, or_default, select_one, insert,
}
use dadi_runtime.Tables.{IdempotencyRow, Db}

-- `request.state`, the header `Idempotency-Key`, the method and the path.
pub record Request : Type 0 where
  pub tenant_id : Option String
  pub scopes : List String
  pub subject : Option String
  pub idempotency_key : Option String
  pub method : String
  pub path : String

-- The functions of other packages that the routes call: `uuid.uuid4`, `hashlib.sha256`,
-- `json.dumps` with sorted keys, `json.loads` (`none` where it raises) and `isoformat`; and how the
-- database reads a text as a UUID, the canonical text or an error.
pub record Codec : Type 0 where
  pub uuid4 : ℕ → String
  pub sha256_hex : List ℕ → String
  pub canonical : Fields → List ℕ
  pub loads : List ℕ → Option Json
  pub isoformat : ℕ → String
  pub as_uuid : String → Option String

-- Each route calls `tenant_id(request)` first.
unfoldable pub tenant_id : Request → Exec Db String
tenant_id request db =
    if truthy request.tenant_id
    then (ok (or_default request.tenant_id ""), db)
    else (raised (http 401 "Unauthorized: tenant context not established"), db)

abbrev pub is_keyed : String → String → String → String → IdempotencyRow → Bool
is_keyed tenant key method path r =
    r.tenant_id == tenant && r.idempotency_key == key && r.method == method && r.path == path

unfoldable pub lookup_response : Db → String → String → String → String → Option (ℕ × Json)
lookup_response db tenant key method path =
    elim (select_one (is_keyed tenant key method path) db.idempotency) [
      | none ↦ none
      | some r ↦ some (r.response_status, r.response_json)
    ]

abbrev pub new_response : String → String → String → String → ℕ → Json → IdempotencyRow
new_response tenant key method path status payload = record {
  tenant_id = tenant;
  idempotency_key = key;
  method = method;
  path = path;
  response_status = status;
  response_json = payload;
}

-- ON CONFLICT (tenant_id, idempotency_key, method, path) DO NOTHING
unfoldable pub store_response : String → String → String → String → ℕ → Json → Exec Db Unit
store_response tenant key method path status payload db =
    elim (select_one (is_keyed tenant key method path) db.idempotency) [
      | some _ ↦ (ok tt, db)
      | none ↦ (
        ok tt,
        record db {
          idempotency = insert db.idempotency (new_response tenant key method path status payload);
        },
      )
    ]
