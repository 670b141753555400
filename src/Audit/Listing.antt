-- ===== src/Audit/Listing.antt =====
-- services/gateway/dadi_gateway/audit.py: the listing of events, newest first. The times are printed by
-- the parameter `isoformat`.
use dadi_runtime.Base.{
  ℕ, ◌≤◌, String, Bool, true, Option, none, some, ap, eq_iff, truthy, All-map_rule, List, [], ◌∷◌,
  ◌≡◌, arith, All, ◌&&◌, ◌==◌, if◌then◌else◌, leb, Bool-cases, inl, inr, Json, Items, nil, cons,
  Fields, end, field, str, obj, arr, opt_str, Exec, ◌>>=◌, pure, gets, select, take, length,
  length-take-le,
}
use dadi_runtime.Tables.{AuditRow, Db}
use dadi_runtime.Audit.{clamp_limit, matches, text_or_none}
use dadi_runtime.Requests.{Request, Codec, tenant_id}

-- ORDER BY created_at DESC
unfoldable pub insert_newest_event : AuditRow → List AuditRow → List AuditRow
insert_newest_event r [] = r ∷ []
insert_newest_event r (q ∷ rows) =
    if leb q.created_at r.created_at then r ∷ q ∷ rows else q ∷ insert_newest_event r rows

unfoldable pub newest_events : List AuditRow → List AuditRow
unfolding insert_newest_event
newest_events [] = []
newest_events (r ∷ rows) = insert_newest_event r (newest_events rows)

-- the query's conditions
abbrev pub is_listed : String → Option String → Option String → Option String → AuditRow → Bool
is_listed tenant run deliverable bundle r =
    r.tenant_id == tenant
    && matches run r.pipeline_run_id
    && matches deliverable r.deliverable_id
    && matches bundle r.bundle_id

unfoldable pub audit_rows :
    Db → String → Option String → Option String → Option String → ℕ → List AuditRow
unfolding newest_events
audit_rows db tenant run deliverable bundle limit =
    take (clamp_limit limit 500)
      (newest_events (select (is_listed tenant run deliverable bundle) db.audit))

abbrev pub event_json : Codec → AuditRow → Json
event_json k r = obj (
    field "event_id" (str r.event_id) (
      field "created_at" (str (k.isoformat r.created_at)) (
        field "event_type" (str r.event_type) (
          field "pipeline_run_id" (opt_str (text_or_none r.pipeline_run_id)) (
            field "deliverable_id" (opt_str (text_or_none r.deliverable_id)) (
              field "bundle_id" (opt_str (text_or_none r.bundle_id)) (
                field "idempotency_key" (opt_str r.idempotency_key) (
                  field "detail" r.detail (
                    field "prev_event_hash" (opt_str r.prev_event_hash)
                      (field "event_hash" (opt_str r.event_hash) end))))))))))

abbrev pub events_json : Codec → List AuditRow → Items
events_json k [] = nil
events_json k (r ∷ rows) = cons (event_json k r) (events_json k rows)

unfoldable pub get_audit :
    Codec → Request → Option String → Option String → Option String → ℕ → Exec Db Fields
unfolding audit_rows
get_audit k request run deliverable bundle limit = do
  tenant ← tenant_id request
  rows ← gets (λ db. audit_rows db tenant run deliverable bundle limit)
  pure (field "tenant_id" (str tenant) (field "events" (arr (events_json k rows)) end))

module _ (P : AuditRow → Type 0) where
  All-insert_newest_event :
      (r : AuditRow) (rows : List AuditRow) → P r → All P rows → All P (insert_newest_event r rows)
  unfolding insert_newest_event
  All-insert_newest_event r [] p h = (p, tt)
  All-insert_newest_event r (q ∷ rows) p h = elim (Bool-cases (leb q.created_at r.created_at)) [
    | inl newer ↦ rw newer (p, h)
    | inr older ↦ rw older (h.0, All-insert_newest_event r rows p h.1)
  ]

  All-newest_events : (rows : List AuditRow) → All P rows → All P (newest_events rows)
  unfolding newest_events
  All-newest_events [] h = tt
  All-newest_events (r ∷ rows) h =
      All-insert_newest_event r (newest_events rows) h.0 (All-newest_events rows h.1)

  All-take : (n : ℕ) (rows : List AuditRow) → All P rows → All P (take n rows)
  All-take ℕ.zero rows h = tt
  All-take (ℕ.suc n) [] h = tt
  All-take (ℕ.suc n) (r ∷ rows) h = (h.0, All-take n rows h.1)

All-select : (p : AuditRow → Bool) (rows : List AuditRow) → All (λ r. p r ≡ true) (select p rows)
unfolding select
All-select p [] = tt
All-select p (r ∷ rows) = elim (Bool-cases (p r)) [
  | inl hit ↦ rw hit (hit, All-select p rows)
  | inr miss ↦ rw miss (All-select p rows)
]

clamp_limit-le : (limit : ℕ) → clamp_limit limit 500 ≤ 500
clamp_limit-le limit = ground arith

-- A filter that is given names what the column holds.
abbrev pub Meets : Option String → Option String → Type 0
Meets wanted column = truthy wanted ≡ true → column ≡ wanted

-- an event of the tenant that meets the filters
pub record IsAsked (tenant : String) (run deliverable bundle : Option String) (r : AuditRow)
    : Type 0 where
  pub owner : r.tenant_id ≡ tenant
  pub run_is : Meets run r.pipeline_run_id
  pub deliverable_is : Meets deliverable r.deliverable_id
  pub bundle_is : Meets bundle r.bundle_id

matches-Meets : (wanted column : Option String) → matches wanted column ≡ true → Meets wanted column
matches-Meets none column h t = absurd (ground (arith, t))
matches-Meets (some s) none h t = absurd (ground (arith, h, t))
matches-Meets (some s) (some c) h t = ap some ((eq_iff c s).0 (ground (arith, h, t)))

is_listed-IsAsked :
    (tenant : String) (run deliverable bundle : Option String) (r : AuditRow)
    → is_listed tenant run deliverable bundle r ≡ true
    → IsAsked tenant run deliverable bundle r
is_listed-IsAsked tenant run deliverable bundle r h = record {
  owner = (eq_iff r.tenant_id tenant).0 (ground (arith, h));
  run_is = matches-Meets run r.pipeline_run_id (ground (arith, h));
  deliverable_is = matches-Meets deliverable r.deliverable_id (ground (arith, h));
  bundle_is = matches-Meets bundle r.bundle_id (ground (arith, h));
}

-- A listing shows events of the tenant alone, whose columns hold every id that a filter gives, and at
-- most 500.
pub audit_rows-listed :
    (db : Db) (tenant : String) (run deliverable bundle : Option String) (limit : ℕ)
    → All
        (IsAsked tenant run deliverable bundle)
        (audit_rows db tenant run deliverable bundle limit)
      × (length (audit_rows db tenant run deliverable bundle limit) ≤ 500)
unfolding audit_rows
audit_rows-listed db tenant run deliverable bundle limit =
    let p = is_listed tenant run deliverable bundle in
    let rows = newest_events (select p db.audit) in
    (
      All-take (IsAsked tenant run deliverable bundle) (clamp_limit limit 500) rows (
          All-newest_events (IsAsked tenant run deliverable bundle) (select p db.audit) (
            All-map_rule (is_listed-IsAsked tenant run deliverable bundle) (select p db.audit)
              (All-select p db.audit))),
      omega (arith, length-take-le (clamp_limit limit 500) rows, clamp_limit-le limit),
    )
