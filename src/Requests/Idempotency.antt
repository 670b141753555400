-- ===== src/Requests/Idempotency.antt =====
-- The first response stored for a key is the one that is given back.
use dadi_runtime.Base.{ℕ, String, some, ◌≡◌, arith, Json, or_else, select_one-insert, eq_refl}
use dadi_runtime.Tables.{Db}
use dadi_runtime.Requests.{is_keyed, new_response, lookup_response, store_response}

-- After a response is stored, a lookup with the same key, method and path finds the response that was
-- there before, and the new one where there was none.
pub lookup_response-store_response :
    (tenant key method path : String) (status : ℕ) (payload : Json) (db : Db)
    → lookup_response
        (store_response tenant key method path status payload db).1
        tenant
        key
        method
        path
      ≡ or_else (lookup_response db tenant key method path) (some (status, payload))
unfolding lookup_response store_response
lookup_response-store_response tenant key method path status payload db =
    let k = is_keyed tenant key method path in
    let r = new_response tenant key method path status payload in
    ground (
      arith,
      select_one-insert k db.idempotency r,
      eq_refl tenant,
      eq_refl key,
      eq_refl method,
      eq_refl path,
    )
