-- ===== src/Deliverables/Status.antt =====
-- The status of a deliverable.
use dadi_runtime.Base.{
  ℕ, String, true, Option, none, some, List, [], ◌∷◌, ◌≡◌, refl, arith, Fields, All, All-append,
  All-update, Exec, ok, truthy, or_default, select_one, Bool-cases, inl, inr, Option-cases, raised,
  pure, Json, Result, continue, ◌>>=◌,
}
use dadi_runtime.Tables.{Deliverable, Db}
use dadi_runtime.Store.{Meta, put_artifact}
use dadi_runtime.Requests.{Request, Codec, tenant_id, store_response}
use dadi_runtime.Deliverables.{
  Payload, valid_status, insert_deliverable, create_new, create_checked, create_deliverable,
  set_status, with_status, is_pipeline_run, is_deliverable, mark_sent, supersede, finalize_new,
  emit_final, record_meta, record_obj, final_reply, finalize_deliverable, update_deliverable,
  remember_response, stored_response,
}

-- Every deliverable has one of the four statuses.
abbrev pub HasStatuses : Db → Type 0
HasStatuses s = All (λ d. valid_status d.status ≡ true) s.deliverables

-- an action that keeps the statuses
abbrev KeepsStatuses : (A : Type 0) → Exec Db A → Type 0
KeepsStatuses A m = (s : Db) → HasStatuses s → HasStatuses (m s).1

bind-KeepsStatuses :
    {A B : Type 0} (m : Exec Db A) (f : A → Exec Db B)
    → KeepsStatuses A m
    → ((a : A) → KeepsStatuses B (f a))
    → KeepsStatuses B (m >>= f)
bind-KeepsStatuses {A} {B} m f h k s p = go (m s).0 (h s p)
  where
    go : (r : Result A) → HasStatuses (m s).1 → HasStatuses (continue r f (m s).1).1
    go (ok a) q = k a (m s).1 q
    go (raised e) q = q

tenant_id-KeepsStatuses : (r : Request) → KeepsStatuses String (tenant_id r)
unfolding tenant_id
tenant_id-KeepsStatuses r s h = elim (Bool-cases (truthy r.tenant_id)) [
  | inl hit ↦ rw hit h
  | inr miss ↦ rw miss h
]

set_status-writes :
    (t id status : String) (s : Db)
    → (set_status t id status s).1 ≡ update_deliverable t id (with_status status) s
unfolding set_status
set_status-writes t id status s = ground arith

set_status-KeepsStatuses :
    (t id status : String)
    → valid_status status ≡ true
    → KeepsStatuses Deliverable (set_status t id status)
set_status-KeepsStatuses t id status v s h = rw (set_status-writes t id status s) (
    All-update (λ d. valid_status d.status ≡ true) (is_deliverable t id) (with_status status)
      s.deliverables (λ d _. v) h)

insert_deliverable-KeepsStatuses :
    (k : Codec) (t run status : String) (p : Payload)
    → valid_status status ≡ true
    → KeepsStatuses Fields (insert_deliverable k t run status p)
unfolding insert_deliverable
insert_deliverable-KeepsStatuses k t run status p v s h =
    elim (Option-cases (select_one (is_pipeline_run t run) s.pipeline_runs)) [
      | inl e ↦ rw (insert_deliverable, e) h
      | inr (q, e) ↦
          rw (insert_deliverable, e)
            (All-append (λ d. valid_status d.status ≡ true) s.deliverables (_ ∷ []) h (v, tt))
    ]

create_checked-KeepsStatuses :
    (k : Codec) (t : String) (p : Payload) → KeepsStatuses Fields (create_checked k t p)
unfolding create_checked
create_checked-KeepsStatuses k t p s h = elim (Bool-cases (truthy p.pipeline_run_id)) [
  | inr miss ↦ rw miss h
  | inl hit ↦ elim (Bool-cases (valid_status (or_default p.status "draft"))) [
    | inr bad ↦ rw (hit, bad) h
    | inl good ↦
        rw (hit, good)
          (insert_deliverable-KeepsStatuses k t (or_default p.pipeline_run_id "")
            (or_default p.status "draft") p good s h)
  ]
]

create_deliverable-KeepsStatuses :
    (k : Codec) (r : Request) (p : Payload) → KeepsStatuses Fields (create_deliverable k r p)
unfolding create_deliverable create_new
create_deliverable-KeepsStatuses k r p s h = elim (Bool-cases (truthy r.idempotency_key)) [
  | inl keyed ↦ rw keyed h
  | inr fresh ↦ rw fresh (
      bind-KeepsStatuses (tenant_id r) _ (tenant_id-KeepsStatuses r)
        (λ t. create_checked-KeepsStatuses k t p) s h)
]

mark_sent-KeepsStatuses : (r : Request) (id : String) → KeepsStatuses Fields (mark_sent r id)
unfolding mark_sent
mark_sent-KeepsStatuses r id = bind-KeepsStatuses (tenant_id r) _ (tenant_id-KeepsStatuses r) (λ t.
    bind-KeepsStatuses (set_status t id "sent") _ (set_status-KeepsStatuses t id "sent" refl)
      (λ _ s h. h))

supersede-KeepsStatuses :
    (k : Codec) (r : Request) (id : String) (p : Payload)
    → KeepsStatuses Fields (supersede k r id p)
unfolding supersede
supersede-KeepsStatuses k r id p =
    bind-KeepsStatuses (tenant_id r) _ (tenant_id-KeepsStatuses r) (λ t.
      bind-KeepsStatuses (set_status t id "superseded") _
        (set_status-KeepsStatuses t id "superseded" refl)
        (λ _.
          create_deliverable-KeepsStatuses k r (record p { supersedes_deliverable_id = some id })))

put_artifact-deliverables :
    (h : List ℕ → String) (t : String) (m : Meta) (c : List ℕ) (s : Db)
    → (put_artifact h t m c s).1.deliverables ≡ s.deliverables
unfolding put_artifact
put_artifact-deliverables h t m c s = ground arith

remember_response-deliverables :
    (r : Request) (t : String) (result : Fields) (s : Db)
    → (remember_response r t result s).1.deliverables ≡ s.deliverables
unfolding store_response
remember_response-deliverables r t result s = ground arith

finalize_new-KeepsStatuses :
    (k : Codec) (r : Request) (t id : String) → KeepsStatuses Json (finalize_new k r t id)
unfolding finalize_new emit_final
finalize_new-KeepsStatuses k r t id =
    bind-KeepsStatuses (set_status t id "final") _ (set_status-KeepsStatuses t id "final" refl)
      (λ d.
        bind-KeepsStatuses
          (put_artifact k.sha256_hex t record_meta (k.canonical (record_obj k id d))) _
          (λ s h.
            rw
              (put_artifact-deliverables k.sha256_hex t record_meta
                (k.canonical (record_obj k id d)) s)
              h)
          (λ rec s h.
            bind-KeepsStatuses (remember_response r t (final_reply id rec.sha256)) _
              (λ s' h'. rw (remember_response-deliverables r t (final_reply id rec.sha256) s') h')
              (λ _ s' h'. h')
              (update_deliverable t id
                (λ row. record row { deliverable_record_sha256 = some rec.sha256 }) s)
              (All-update (λ d. valid_status d.status ≡ true) (is_deliverable t id) _ s.deliverables
                (λ d' q. q) h)))

finalize_deliverable-KeepsStatuses :
    (k : Codec) (r : Request) (id : String) → KeepsStatuses Json (finalize_deliverable k r id)
unfolding finalize_deliverable
finalize_deliverable-KeepsStatuses k r id =
    bind-KeepsStatuses (tenant_id r) _ (tenant_id-KeepsStatuses r)
      (λ t s h. go t (stored_response r t s) s h)
  where
    go :
        (t : String) (o : Option Json)
        → KeepsStatuses Json
            (elim o [ some response ↦ pure response | none ↦ finalize_new k r t id ])
    go t none s h = finalize_new-KeepsStatuses k r t id s h
    go t (some response) s h = h

-- Every route that writes deliverables keeps the status of each among the four of the database's
-- check: creating with a status of the payload, finalizing, marking as sent, superseding.
pub routes-HasStatuses :
    (k : Codec) (r : Request) (id : String) (p : Payload) (s : Db)
    → HasStatuses s
    → HasStatuses (create_deliverable k r p s).1
      × HasStatuses (finalize_deliverable k r id s).1
      × HasStatuses (mark_sent r id s).1
      × HasStatuses (supersede k r id p s).1
routes-HasStatuses k r id p s h = (
  create_deliverable-KeepsStatuses k r p s h,
  finalize_deliverable-KeepsStatuses k r id s h,
  mark_sent-KeepsStatuses r id s h,
  supersede-KeepsStatuses k r id p s h,
)
