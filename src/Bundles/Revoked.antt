-- ===== src/Bundles/Revoked.antt =====
-- What is revoked stays revoked and is not downloaded.
use dadi_runtime.Base.{
  ◌+◌, ℕ, ◌≤◌, String, Bool, true, false, Option, none, some, List, [], ◌∷◌, ◌≡◌, refl, sym, ap,
  ◌∙◌, arith, Fields, obj, end, ok, raised, http, continue, bind-eq-ok, truthy, or_default, length,
  select_one, update, Bool-cases, inl, inr, eq_iff, ◌==◌,
}
use dadi_runtime.Tables.{Deliverable, Bundle, Db}
use dadi_runtime.Store.{get_artifact_content}
use dadi_runtime.Audit.{
  Event, Ids, emit_event, write_event, with_detail, id_columns, row_hash, last?, order_events,
  chain_rows,
}
use dadi_runtime.Requests.{Request, Codec, tenant_id}
use dadi_runtime.Deliverables.{is_deliverable}
use dadi_runtime.Deliverables.Replies.{bind-tenant}
use dadi_runtime.Bundles.{
  is_bundle, is_live_bundle, bundle_event, revoked_reply, revoke_row, finish_revocation,
  update_bundle, revoke_bundle, has_scope, StreamLimits, iter_bytes, exceeds, stream_bytes,
  send_content, send_bundle, download_for, download_bundle,
}
use dadi_runtime.Bundles.Chunks.{concat_all, concat_all-iter_bytes}

select_one-update_all :
    {A : Type 0} (p : A → Bool) (f : A → A) (xs : List A)
    → ((x : A) → p (f x) ≡ false)
    → select_one p (update p f xs) ≡ none
unfolding select_one update
select_one-update_all p f [] h = refl
select_one-update_all p f (x ∷ xs) h = ground (arith, h x, select_one-update_all p f xs h)

revoke_row-dead :
    (t d b : String) (now : ℕ) (x : Bundle) → is_live_bundle t d b (revoke_row now x) ≡ false
revoke_row-dead t d b now x = ground arith

-- every row of a bundle that was revoked says so
update-revoked :
    (t d b : String) (now : ℕ) (rows : List Bundle) {x : Bundle}
    → select_one (is_bundle t d b) (update (is_live_bundle t d b) (revoke_row now) rows) ≡ some x
    → x.status ≡ "revoked"
unfolding select_one update
update-revoked t d b now [] h = absurd (ground arith)
update-revoked t d b now (r ∷ rows) {x} h = elim (Bool-cases (is_live_bundle t d b r)) [
  | inl hit ↦ let e : revoke_row now r ≡ x = ground (arith, h, hit) in rw (← e) refl
  | inr miss ↦ elim (Bool-cases (is_bundle t d b r)) [
    | inl named ↦
        let e : r ≡ x = ground (arith, h, miss, named) in
        rw (← e) (ground (arith, miss, named, eq_iff r.status "revoked"))
    | inr other ↦ update-revoked t d b now rows {x = x} (ground (arith, h, miss, other))
  ]
]

update_bundle-ok :
    (t d b : String) (s : Db)
    → (update_bundle t d b s).0 ≡ ok true
    → (update_bundle t d b s).1
      ≡ record s { bundles = update (is_live_bundle t d b) (revoke_row s.clock) s.bundles }
unfolding update_bundle
update_bundle-ok t d b s h = ground (arith, h)

emit_event-bundles :
    (k : Codec) (t : String) (ev : Event) (s : Db)
    → (emit_event k.sha256_hex k.canonical k.as_uuid k.uuid4 t ev s).1.bundles ≡ s.bundles
unfolding emit_event write_event
emit_event-bundles k t ev s =
    wrote (row_hash (last? (order_events (chain_rows t s)))) (id_columns k.as_uuid ev)
  where
    wrote :
        (prev : Option String) (ids : Option Ids)
        → (write_event k.sha256_hex k.canonical t
            (k.uuid4 s.drawn)
            (with_detail ev)
            prev
            ids
            (record s { drawn = s.drawn + 1 })).1.bundles
          ≡ s.bundles
    wrote prev none = refl
    wrote prev (some ids) = refl

finish_revocation-ok :
    (k : Codec) (t : String) (ev : Event) (reply : Fields) (detail : String) (found : Bool)
    (s s' : Db) (result : Fields)
    → finish_revocation k t ev reply detail found s ≡ (ok result, s')
    → (found ≡ true) × (s'.bundles ≡ s.bundles)
unfolding finish_revocation
finish_revocation-ok k t ev reply detail true s s' result h =
    (refl, sym (ap (λ q. q.1.bundles) h) ∙ emit_event-bundles k t ev s)
finish_revocation-ok k t ev reply detail false s s' result h = absurd (ground (arith, h))

revoke_bundle-tenant :
    (k : Codec) (r : Request) (d b : String) (s : Db) {reply : Fields} {s' : Db}
    → revoke_bundle k r d b s ≡ (ok reply, s')
    → truthy r.tenant_id ≡ true
unfolding revoke_bundle tenant_id
revoke_bundle-tenant k r d b s h = elim (Bool-cases (truthy r.tenant_id)) [
  | inl hit ↦ hit
  | inr miss ↦ absurd (ground (arith, h, miss))
]

revoke_bundle-bundles :
    (k : Codec) (r : Request) (d b : String) (s : Db) {reply : Fields} {s' : Db}
    → revoke_bundle k r d b s ≡ (ok reply, s')
    → s'.bundles
      ≡ update (is_live_bundle (or_default r.tenant_id "") d b) (revoke_row s.clock) s.bundles
unfolding revoke_bundle
revoke_bundle-bundles k r d b s {reply} {s'} h =
    let t = or_default r.tenant_id "" in
    let hit = revoke_bundle-tenant k r d b s h in
    let (found, e, k1) = bind-eq-ok (update_bundle t d b) _ s (sym (bind-tenant r _ s hit) ∙ h) in
    let (was, same) = finish_revocation-ok k t _ _ _ found (update_bundle t d b s).1 s' reply k1 in
    same ∙ ap (λ q. q.bundles) (update_bundle-ok t d b s (e ∙ ap ok was))

update_bundle-none :
    (t d b : String) (s : Db)
    → select_one (is_live_bundle t d b) s.bundles ≡ none
    → update_bundle t d b s ≡ (ok false, s)
unfolding update_bundle
update_bundle-none t d b s h = ground (arith, h)

-- A bundle that was revoked cannot be revoked again: the second request gets 404 and leaves the
-- database as it is.
pub revoke_bundle-twice :
    (k : Codec) (r : Request) (d b : String) (s : Db) {reply : Fields} {s' : Db}
    → revoke_bundle k r d b s ≡ (ok reply, s')
    → revoke_bundle k r d b s' ≡ (raised (http 404 "Bundle not found or already revoked"), s')
unfolding revoke_bundle finish_revocation
revoke_bundle-twice k r d b s {reply} {s'} h =
    let t = or_default r.tenant_id "" in
    let live = is_live_bundle t d b in
    let none_live : select_one live s'.bundles ≡ none =
      ap (select_one live) (revoke_bundle-bundles k r d b s h)
      ∙ select_one-update_all live (revoke_row s.clock) s.bundles (revoke_row-dead t d b s.clock) in
    bind-tenant r _ s' (revoke_bundle-tenant k r d b s h)
    ∙ ap
        (λ q.
          continue q.0
            (finish_revocation k t (bundle_event "bundle_revoked" d (some b) (obj end))
              (revoked_reply "bundle_id" b) "Bundle not found or already revoked")
            q.1)
        (update_bundle-none t d b s' none_live)

-- What a download that succeeds found.
pub record Downloaded (t d b : String) (scopes : List String) (s : Db) (n : ℕ)
    (chunks : List (List ℕ)) : Type 0 where
  pub scoped : has_scope "deliverable:download_bundle" scopes ≡ true
  pub deliverable : Deliverable
  pub selected : select_one (is_deliverable t d) s.deliverables ≡ some deliverable
  pub sent : deliverable.status ≡ "sent"
  pub bundle : Bundle
  pub named : select_one (is_bundle t d b) s.bundles ≡ some bundle
  pub live : (bundle.status == "revoked") ≡ false
  pub content : List ℕ
  pub stored : get_artifact_content s t bundle.bundle_artifact_sha256 ≡ some content
  pub whole : concat_all chunks ≡ content
  pub counted : n ≡ length content

pub stream_bytes-ok :
    (limits : StreamLimits) (bytes : List ℕ) (s s' : Db) (n : ℕ) (chunks : List (List ℕ))
    → 1 ≤ limits.chunk_size
    → stream_bytes limits bytes s ≡ (ok (n, chunks), s')
    → (concat_all chunks ≡ bytes) × (n ≡ length bytes)
unfolding stream_bytes
stream_bytes-ok limits bytes s s' n chunks h k =
    elim (Bool-cases (exceeds limits.max_bytes (length bytes))) [
      | inl over ↦ absurd (ground (arith, k, over))
      | inr fits ↦
          let made : chunks ≡ iter_bytes (length bytes) limits.chunk_size bytes =
            ground (arith, k, fits) in
          (
            ap concat_all made
                ∙ concat_all-iter_bytes (length bytes) limits.chunk_size bytes h (omega arith),
            ground (arith, k, fits),
          )
    ]

module _ (k : Codec) (limits : StreamLimits) (r : Request) (t d b : String)
    (pos : 1 ≤ limits.chunk_size) where
  send_content-ok :
      (x : Bundle) (o : Option (List ℕ)) (s s' : Db) (n : ℕ) (chunks : List (List ℕ))
      → send_content k limits r t d b x o s ≡ (ok (n, chunks), s')
      → (content : List ℕ) × (o ≡ some content)
        × (concat_all chunks ≡ content)
        × (n ≡ length content)
  unfolding send_content emit_event
  send_content-ok x none s s' n chunks h = absurd (ground (arith, h))
  send_content-ok x (some bytes) s s' n chunks h =
      let (w, c) = stream_bytes-ok limits bytes _ s' n chunks pos h in (bytes, refl, w, c)

  send_bundle-ok :
      (o : Option Bundle) (s s' : Db) (n : ℕ) (chunks : List (List ℕ))
      → send_bundle k limits r t d b o s ≡ (ok (n, chunks), s')
      → (x : Bundle) × (o ≡ some x)
        × ((x.status == "revoked") ≡ false)
        × (content : List ℕ) × (get_artifact_content s t x.bundle_artifact_sha256 ≡ some content)
        × (concat_all chunks ≡ content)
        × (n ≡ length content)
  unfolding send_bundle emit_event
  send_bundle-ok none s s' n chunks h = absurd (ground (arith, h))
  send_bundle-ok (some x) s s' n chunks h = elim (Bool-cases (x.status == "revoked")) [
    | inl gone ↦ absurd (ground (arith, h, gone))
    | inr live ↦
        let content = get_artifact_content s t x.bundle_artifact_sha256 in
        let (c, e, w, l) = send_content-ok x content s s' n chunks (rw live at h) in
        (x, refl, live, c, e, w, l)
  ]

  download_for-ok :
      (o : Option Deliverable) (s s' : Db) (n : ℕ) (chunks : List (List ℕ))
      → download_for k limits r t d b o s ≡ (ok (n, chunks), s')
      → (y : Deliverable) × (o ≡ some y)
        × (y.status ≡ "sent")
        × (send_bundle k limits r t d b (select_one (is_bundle t d b) s.bundles) s
            ≡ (ok (n, chunks), s'))
  unfolding download_for emit_event
  download_for-ok none s s' n chunks h = absurd (ground (arith, h))
  download_for-ok (some y) s s' n chunks h = elim (Bool-cases (y.status == "sent")) [
    | inl is_sent ↦ (y, refl, ground (arith, is_sent, eq_iff y.status "sent"), rw is_sent at h)
    | inr other ↦ absurd (ground (arith, h, other))
  ]

-- A download that succeeds was asked for with the scope, the deliverable is sent, the bundle is one of
-- it and not revoked, and the chunks together are the content that is stored under the bundle's
-- digest, whose length is declared.
pub download_bundle-ok :
    (k : Codec) (limits : StreamLimits) (r : Request) (d b : String) (s s' : Db) (n : ℕ)
    (chunks : List (List ℕ))
    → 1 ≤ limits.chunk_size
    → truthy r.tenant_id ≡ true
    → download_bundle k limits r d b s ≡ (ok (n, chunks), s')
    → Downloaded (or_default r.tenant_id "") d b r.scopes s n chunks
unfolding download_bundle
download_bundle-ok k limits r d b s s' n chunks pos known h =
    let t = or_default r.tenant_id "" in
    let h1 = sym (bind-tenant r _ s known) ∙ h in
    elim (Bool-cases (has_scope "deliverable:download_bundle" r.scopes)) [
      | inr lacking ↦ absurd (ground (arith, h1, lacking))
      | inl has ↦
          let (y, e1, is_sent, h2) =
            download_for-ok k limits r t d b pos _ s s' n chunks (rw has at h1) in
          let (x, e2, live, content, e3, whole, counted) =
            send_bundle-ok k limits r t d b pos _ s s' n chunks h2 in
          record {
            scoped = has;
            deliverable = y;
            selected = e1;
            sent = is_sent;
            bundle = x;
            named = e2;
            live = live;
            content = content;
            stored = e3;
            whole = whole;
            counted = counted;
          }
    ]

-- After a bundle is revoked, no download of it succeeds, whoever asks with the same tenant.
pub revoked-not_downloaded :
    (k : Codec) (limits : StreamLimits) (r r' : Request) (d b : String) (s s' s'' : Db)
    (reply : Fields) (n : ℕ) (chunks : List (List ℕ))
    → 1 ≤ limits.chunk_size
    → r'.tenant_id ≡ r.tenant_id
    → revoke_bundle k r d b s ≡ (ok reply, s')
    → ¬ (download_bundle k limits r' d b s' ≡ (ok (n, chunks), s''))
revoked-not_downloaded k limits r r' d b s s' s'' reply n chunks pos same revoked h =
    let known = revoke_bundle-tenant k r d b s revoked in
    let got = download_bundle-ok k limits r' d b s' s'' n chunks pos (rw (← same) at known) h in
    let t = or_default r.tenant_id "" in
    let e : select_one (is_bundle t d b)
          (update (is_live_bundle t d b) (revoke_row s.clock) s.bundles)
        ≡ some got.bundle =
      ap (select_one (is_bundle t d b)) (sym (revoke_bundle-bundles k r d b s revoked))
      ∙ ap (λ q. select_one (is_bundle (or_default q "") d b) s'.bundles) (sym same)
      ∙ got.named in
    let gone = update-revoked t d b s.clock s.bundles {x = got.bundle} e in
    let f : ("revoked" == "revoked") ≡ false = ap (λ q. q == "revoked") (sym gone) ∙ got.live in
    absurd (ground (arith, f))
