-- ===== src/Deliverables/Replies.antt =====
-- Requests with an idempotency key.
use dadi_runtime.Base.{
  String, true, Option, none, some, ◌≡◌, refl, ◌∙◌, ap, arith, Json, Exec, ok, raised, pure,
  unbound_local, ◌>>=◌, select_one-holds, continue, truthy, or_default, select_one,
  select_one-update,
}
use dadi_runtime.Tables.{Deliverable, Db}
use dadi_runtime.Store.{put_artifact}
use dadi_runtime.Requests.{Request, Codec, tenant_id}
use dadi_runtime.Deliverables.{
  Payload, create_deliverable, set_status, with_status, is_deliverable, finalize_new, supersede,
  update_deliverable, record_meta, record_obj,
}

set_status-idempotency :
    (t id status : String) (s : Db) → (set_status t id status s).1.idempotency ≡ s.idempotency
unfolding set_status
set_status-idempotency t id status s = ground arith

-- a route whose tenant is established
pub bind-tenant :
    {B : Type 0} (r : Request) (f : String → Exec Db B) (s : Db)
    → truthy r.tenant_id ≡ true
    → (tenant_id r >>= f) s ≡ f (or_default r.tenant_id "") s
unfolding tenant_id
bind-tenant r f s hit = rw hit

update-found :
    (t id status : String) (s : Db) {d : Deliverable}
    → select_one (is_deliverable t id) s.deliverables ≡ some d
    → select_one (is_deliverable t id) (update_deliverable t id (with_status status) s).deliverables
      ≡ some (with_status status d)
update-found t id status s {d} found =
    let q = is_deliverable t id in
    let e = select_one-update q q (with_status status) s.deliverables (λ x. refl) in
    let holds = select_one-holds q s.deliverables found in ground (arith, e, found, holds)

pub set_status-found :
    (t id status : String) (s : Db) {d : Deliverable}
    → select_one (is_deliverable t id) s.deliverables ≡ some d
    → set_status t id status s
      ≡ (ok (with_status status d), update_deliverable t id (with_status status) s)
unfolding set_status
set_status-found t id status s {d} found = rw (set_status, update-found t id status s found)

answer : Codec → Request → String → String → Option Json → Exec Db Json
answer k r t id o = elim o [ some response ↦ pure response | none ↦ finalize_new k r t id ]

-- the digest of the record that a deliverable is finalized with
abbrev pub final_digest : Codec → String → Deliverable → String
final_digest k id d = k.sha256_hex (k.canonical (record_obj k id (with_status "final" d)))

-- the database once the record is stored and the row names it
abbrev recorded_db : Codec → String → String → Deliverable → Db → Db
recorded_db k t id d s =
    let s1 = update_deliverable t id (with_status "final") s in
    update_deliverable t id
      (λ row. record row { deliverable_record_sha256 = some (final_digest k id d) })
      (put_artifact k.sha256_hex t record_meta
        (k.canonical (record_obj k id (with_status "final" d))) s1).1

-- With an idempotency key, no deliverable is created: the route raises `UnboundLocalError`, whatever
-- the payload says, and the database stays as it is.
pub create_deliverable-keyed :
    (k : Codec) (r : Request) (p : Payload) (s : Db)
    → truthy r.idempotency_key ≡ true
    → create_deliverable k r p s ≡ (raised (unbound_local "tenant"), s)
unfolding create_deliverable
create_deliverable-keyed k r p s keyed = rw keyed

-- A request with an idempotency key to supersede a deliverable that exists fails, and leaves the
-- deliverable superseded, with no new one in its place.
pub supersede-keyed :
    (k : Codec) (r : Request) (id : String) (p : Payload) (s : Db) {d : Deliverable}
    → truthy r.idempotency_key ≡ true
    → truthy r.tenant_id ≡ true
    → select_one (is_deliverable (or_default r.tenant_id "") id) s.deliverables ≡ some d
    → (supersede k r id p s ≡ (
      raised (unbound_local "tenant"),
      update_deliverable (or_default r.tenant_id "") id (with_status "superseded") s,
    ))
      × (select_one
            (is_deliverable (or_default r.tenant_id "") id)
            (supersede k r id p s).1.deliverables
          ≡ some (with_status "superseded" d))
unfolding supersede
supersede-keyed k r id p s {d} keyed known found =
    let t = or_default r.tenant_id "" in
    let s1 = update_deliverable t id (with_status "superseded") s in
    let marked = set_status-found t id "superseded" s found in
    let p' = record p { supersedes_deliverable_id = some id } in
    let run : supersede k r id p s ≡ (raised (unbound_local "tenant"), s1) =
      bind-tenant r _ s known
      ∙ ap (λ q. continue q.0 (λ _. create_deliverable k r p') q.1) marked
      ∙ create_deliverable-keyed k r p' s1 keyed in
    (
      run,
      ap (λ q. select_one (is_deliverable t id) q.1.deliverables) run
          ∙ update-found t id "superseded" s found,
    )
