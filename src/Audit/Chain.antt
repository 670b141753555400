-- ===== src/Audit/Chain.antt =====
-- `verify_chain` against `emit_event`: an honest log verifies; a filtered one need not.
use dadi_runtime.Base.{
  ◌++◌, ℕ, ◌+◌, ◌<◌, zero, suc, String, Bool, true, false, Option, none, some, List, [], ◌∷◌, ◌≡◌,
  ◌≢◌, refl, sym, ◌∙◌, ap, arith, All, All-append, length-append, eq_iff, eq_refl, nonempty,
  or_default, ◌&&◌, Fields, select, insert, select-insert, select_cong, ◌-◌, take, length, ok,
}
use dadi_runtime.Tables.{AuditRow, Db}
use dadi_runtime.Audit.{
  Event, event_of, zeros, text_or_none, last?, in_chain, chain_rows, row_hash, ChainReport,
  clamp_limit, matches, message, new_event, emit_event, Ids, ids_of, uuid_column, id_columns,
  with_detail, write_event, order_events, verify_rows, verify_chain,
}
use dadi_runtime.Audit.Order.{Ascending, Ascending-select, order_events-Ascending, Ascending-insert}

-- An optional text that is not the empty text.
abbrev pub Proper : Option String → Type 0
Proper o = text_or_none o ≡ o

or_default-nonempty : (s d : String) → nonempty s ≡ true → or_default (some s) d ≡ s
or_default-nonempty s d h = ground arith

abbrev report : ℕ → ChainReport
report n = record { valid = true; checked = n; first_error = none }

and_true : (b : Bool) → (b && true && true) ≡ b
and_true b = ground arith

clamp_limit_pos : (limit : ℕ) → (k : ℕ) × (clamp_limit limit 5000 ≡ suc k)
clamp_limit_pos limit = (clamp_limit limit 5000 - 1, ground arith)

and_assoc : (a b c : Bool) → (a && b && c) ≡ (a && (b && c))
and_assoc true b c = refl
and_assoc false b c = refl

select-and :
    (p q : AuditRow → Bool) (rows : List AuditRow)
    → select (λ r. p r && q r) rows ≡ select q (select p rows)
unfolding select
select-and p q [] = refl
select-and p q (r ∷ rows) = ground (arith, select-and p q rows)

select-skip :
    (p : AuditRow → Bool) (before : List AuditRow) (r : AuditRow) (after : List AuditRow)
    → All (λ q. p q ≡ false) before
    → p r ≡ true
    → select p (before ++ r ∷ after) ≡ r ∷ select p after
unfolding select
select-skip p [] r after h hit = rw hit refl
select-skip p (x ∷ before) r after h hit = rw h.0 (select-skip p before r after h.1 hit)

module _ (sha256_hex : List ℕ → String) (canonical : Fields → List ℕ) where
  abbrev row_digest : String → Option String → AuditRow → String
  row_digest tenant prev r =
      sha256_hex
        (message sha256_hex canonical (or_default prev zeros) tenant r.event_id (event_of r))

  -- Each row holds the hash of the row before it, and the hash of itself.
  abbrev pub Linked : String → Option String → List AuditRow → Type 0
  Linked tenant prev [] = Unit
  Linked tenant prev (r ∷ rows) =
      (r.prev_event_hash ≡ prev)
      × (r.event_hash ≡ some (row_digest tenant prev r))
      × Linked tenant (some (row_digest tenant prev r)) rows

  module _ (digest : (bytes : List ℕ) → nonempty (sha256_hex bytes) ≡ true) (tenant : String) where
    verify_rows-Linked :
        (prev : Option String) (n : ℕ) (rows : List AuditRow)
        → Linked tenant prev rows
        → verify_rows sha256_hex canonical tenant (or_default prev zeros) n rows
          ≡ record { valid = true; checked = n + length rows; first_error = none }
    unfolding verify_rows
    verify_rows-Linked prev n [] h = ground arith
    verify_rows-Linked prev n (r ∷ rows) h =
        let d : String = row_digest tenant prev r in
        let start : or_default (some d) zeros ≡ d = or_default-nonempty d zeros (digest _) in
        rw (h.0, h.1, eq_refl (or_default prev zeros), eq_refl d)
          (ap (λ p. verify_rows sha256_hex canonical tenant p (n + 1) rows) (sym start)
            ∙ verify_rows-Linked (some d) (n + 1) rows h.2
            ∙ ap (λ k. report k) (omega arith))

    take-Linked :
        (prev : Option String) (k : ℕ) (rows : List AuditRow)
        → Linked tenant prev rows
        → Linked tenant prev (take k rows)
    take-Linked prev zero rows h = tt
    take-Linked prev (suc k) [] h = tt
    take-Linked prev (suc k) (r ∷ rows) h =
        (h.0, h.1, take-Linked (some (row_digest tenant prev r)) k rows h.2)

    -- A tenant's log is sound: its rows were written at rising times, before now, and are linked.
    pub record IsSound (db : Db) : Type 0 where
      pub linked : Linked tenant none (chain_rows tenant db)
      pub ascending : Ascending (chain_rows tenant db)
      pub past : All (λ q. q.created_at < db.clock) (chain_rows tenant db)

    -- the hash that an event appended to the rows must name
    abbrev head_of : Option String → List AuditRow → Option String
    head_of prev [] = prev
    head_of prev (r ∷ rows) = head_of (some (row_digest tenant prev r)) rows

    Linked-insert :
        (prev : Option String) (rows : List AuditRow) (r : AuditRow)
        → Linked tenant prev rows
        → r.prev_event_hash ≡ head_of prev rows
        → r.event_hash ≡ some (row_digest tenant (head_of prev rows) r)
        → Linked tenant prev (insert rows r)
    Linked-insert prev [] r h p q = (p, q, tt)
    Linked-insert prev (x ∷ rows) r h p q =
        (h.0, h.1, Linked-insert (some (row_digest tenant prev x)) rows r h.2 p q)

    row_hash-last? :
        (prev : Option String) (r : AuditRow) (rows : List AuditRow)
        → Linked tenant prev (r ∷ rows)
        → row_hash (last? (r ∷ rows)) ≡ head_of prev (r ∷ rows)
    row_hash-last? prev r [] h = rw h.1 (
        ground (
          arith,
          digest
              (message sha256_hex canonical (or_default prev zeros) tenant r.event_id (event_of r)),
        ))
    row_hash-last? prev r (q ∷ rows) h = row_hash-last? (some (row_digest tenant prev r)) q rows h.2

    row_hash-head :
        (rows : List AuditRow) → Linked tenant none rows → row_hash (last? rows) ≡ head_of none rows
    row_hash-head [] h = refl
    row_hash-head (r ∷ rows) h = row_hash-last? none r rows h

    -- A text that is not empty and that the database reads as a UUID spelt the same way.
    abbrev pub Canonical : (String → Option String) → Option String → Type 0
    Canonical as_uuid none = Unit
    Canonical as_uuid (some s) = (nonempty s ≡ true) × (as_uuid s ≡ some s)

    -- the ids of an event are canonical UUIDs, or missing
    pub record IsProper (as_uuid : String → Option String) (ev : Event) : Type 0 where
      pub run : Canonical as_uuid ev.pipeline_run_id
      pub deliverable : Canonical as_uuid ev.deliverable_id
      pub bundle : Canonical as_uuid ev.bundle_id

    abbrev own_ids : Event → Ids
    own_ids ev = record {
      run = ev.pipeline_run_id;
      deliverable = ev.deliverable_id;
      bundle = ev.bundle_id;
    }

    Canonical-Proper : (f : String → Option String) (o : Option String) → Canonical f o → Proper o
    Canonical-Proper f none h = refl
    Canonical-Proper f (some s) h = ground (arith, h.0)

    uuid_column-Canonical :
        (f : String → Option String) (o : Option String) → Canonical f o → uuid_column f o ≡ some o
    uuid_column-Canonical f none h = refl
    uuid_column-Canonical f (some s) h = rw (uuid_column, h.1) refl

    id_columns-IsProper :
        (f : String → Option String) (ev : Event)
        → IsProper f ev
        → id_columns f ev ≡ some (own_ids ev)
    unfolding id_columns ids_of
    id_columns-IsProper f ev p =
        rw
          (
            uuid_column-Canonical f ev.pipeline_run_id p.run,
            uuid_column-Canonical f ev.deliverable_id p.deliverable,
            uuid_column-Canonical f ev.bundle_id p.bundle,
          )
          refl

    abbrev at_time : Db → ℕ → Db
    at_time db now = record db { clock = now }

    event_of-new :
        (f : String → Option String) (prev : Option String) (id : String) (ev : Event) (now : ℕ)
        → IsProper f ev
        → ev ≡ event_of (new_event sha256_hex canonical tenant id ev (own_ids ev) prev now)
    event_of-new f prev id ev now p = λ i. record {
      event_type = ev.event_type;
      pipeline_run_id = sym (Canonical-Proper f ev.pipeline_run_id p.run) i;
      deliverable_id = sym (Canonical-Proper f ev.deliverable_id p.deliverable) i;
      bundle_id = sym (Canonical-Proper f ev.bundle_id p.bundle) i;
      idempotency_key = ev.idempotency_key;
      detail = ev.detail;
    }

    All-later :
        (before now : ℕ) (rows : List AuditRow)
        → before < now
        → All (λ q. q.created_at < before) rows
        → All (λ q. q.created_at < now) rows
    All-later before now [] later h = tt
    All-later before now (r ∷ rows) later h = (omega arith, All-later before now rows later h.1)

    -- An event whose ids are canonical UUIDs, or missing, is emitted without an error to a sound log
    -- and leaves a sound log, one row longer, once the clock has moved on.
    pub emit_event-IsSound :
        (as_uuid : String → Option String) (uuid4 : ℕ → String) (ev : Event) (db : Db) (now : ℕ)
        → IsProper as_uuid ev
        → IsSound db
        → db.clock < now
        → let r = emit_event sha256_hex canonical as_uuid uuid4 tenant ev db in
          (r.0 ≡ ok (uuid4 db.drawn))
          × IsSound (at_time r.1 now)
          × (length (chain_rows tenant r.1) ≡ length (chain_rows tenant db) + 1)
    unfolding emit_event write_event
    emit_event-IsSound as_uuid uuid4 ev db now proper sound later =
        let rows : List AuditRow = chain_rows tenant db in
        let id : String = uuid4 db.drawn in
        let sent : Event = with_detail ev in
        let sent_proper : IsProper as_uuid sent = record {
          run = proper.run;
          deliverable = proper.deliverable;
          bundle = proper.bundle;
        } in
        let prev : Option String = row_hash (last? (order_events rows)) in
        let new : AuditRow =
          new_event sha256_hex canonical tenant id sent (own_ids ev) prev db.clock in
        let ran : emit_event sha256_hex canonical as_uuid uuid4 tenant ev db
            ≡ (ok id, record db { drawn = db.drawn + 1; audit = insert db.audit new }) =
          ap
            (λ o.
              write_event sha256_hex canonical tenant id sent prev o
                (record db { drawn = db.drawn + 1 }))
            (id_columns-IsProper as_uuid ev proper) in
        let added : chain_rows tenant (emit_event sha256_hex canonical as_uuid uuid4 tenant ev db).1
            ≡ insert rows new =
          ap (λ q. chain_rows tenant q.1) ran
          ∙ select-insert (in_chain tenant) db.audit new
          ∙ rw eq_refl in
        let head : prev ≡ head_of none rows =
          rw (order_events-Ascending rows sound.ascending) (row_hash-head rows sound.linked) in
        let hashed : new.event_hash ≡ some (row_digest tenant (head_of none rows) new) = λ i. some (
          sha256_hex (
            message sha256_hex canonical (or_default (head i) zeros) tenant id
              (event_of-new as_uuid prev id sent db.clock sent_proper i))) in
        (
          ap (λ q. q.0) ran,
          record {
            linked = rw added (Linked-insert none rows new sound.linked head hashed);
            ascending = rw added (Ascending-insert rows new sound.ascending sound.past);
            past = rw added (
                All-append (λ (q : AuditRow). q.created_at < now) rows (new ∷ [])
                  (All-later db.clock now rows later sound.past) (later, tt));
          },
          rw added (length-append rows (new ∷ [])),
        )

    -- A sound log verifies from its start, over as many rows as the limit asks for: between one
    -- and 5000.
    pub verify_chain-IsSound :
        (db : Db) (limit : ℕ)
        → IsSound db
        → verify_chain sha256_hex canonical db tenant none none limit ≡ record {
          valid = true;
          checked = length (take (clamp_limit limit 5000) (chain_rows tenant db));
          first_error = none;
        }
    unfolding verify_chain
    verify_chain-IsSound db limit sound =
        let rows : List AuditRow = chain_rows tenant db in
        let m : ℕ = clamp_limit limit 5000 in
        rw (select_cong _ (in_chain tenant) db.audit (λ r. and_true (in_chain tenant r))) (
          rw (order_events-Ascending rows sound.ascending) (
            verify_rows-Linked none 0 (take m rows) (take-Linked none m rows sound.linked)
            ∙ ap (λ k. report k) (omega arith)))

    -- A row behind the first names the hash of a message.
    Linked-later :
        (prev : Option String) (x : AuditRow) (before : List AuditRow) (r : AuditRow)
        (after : List AuditRow)
        → Linked tenant prev (x ∷ before ++ r ∷ after)
        → (bytes : List ℕ) × (r.prev_event_hash ≡ some (sha256_hex bytes))
    Linked-later prev x [] r after h = (_, h.2.0)
    Linked-later prev x (y ∷ before) r after h =
        Linked-later (some (row_digest tenant prev x)) y before r after h.2

    verify_rows-other_start :
        (r : AuditRow) (rows : List AuditRow) (prev : String)
        → r.prev_event_hash ≡ some prev
        → nonempty prev ≡ true
        → prev ≢ zeros
        → verify_rows sha256_hex canonical tenant zeros 0 (r ∷ rows)
          ≡ record { valid = false; checked = 0; first_error = some r.event_id }
    unfolding verify_rows
    verify_rows-other_start r rows prev linked full other =
        rw linked (ground (arith, eq_iff prev zeros, full))

    -- the filters of `verify_chain`
    abbrev pub asks : Option String → Option String → AuditRow → Bool
    asks run deliverable r = matches run r.pipeline_run_id && matches deliverable r.deliverable_id

    -- A filter that skips the start of a sound log finds a fault that is not there: if it selects
    -- none of the rows before one that is not the first of the tenant, and selects this one, then the
    -- chain is reported broken at this row, unless the hash that the row names is 64 zeros.
    pub verify_chain_filtered :
        (db : Db) (run deliverable : Option String) (limit : ℕ) (x : AuditRow)
        (before : List AuditRow) (r : AuditRow) (after : List AuditRow)
        → IsSound db
        → chain_rows tenant db ≡ x ∷ before ++ r ∷ after
        → All (λ q. asks run deliverable q ≡ false) (x ∷ before)
        → asks run deliverable r ≡ true
        → r.prev_event_hash ≢ some zeros
        → verify_chain sha256_hex canonical db tenant run deliverable limit
          ≡ record { valid = false; checked = 0; first_error = some r.event_id }
    unfolding verify_chain
    verify_chain_filtered db run deliverable limit x before r after sound split skipped asked
          other =
        let rows : List AuditRow = select (asks run deliverable) (chain_rows tenant db) in
        let start : rows ≡ r ∷ select (asks run deliverable) after =
          ap (select (asks run deliverable)) split
          ∙ select-skip (asks run deliverable) (x ∷ before) r after skipped asked in
        let (k, more) = clamp_limit_pos limit in
        let (bytes, named) = Linked-later none x before r after (rw split at sound.linked) in
        ap
          (λ q.
            verify_rows sha256_hex canonical tenant zeros 0
              (take (clamp_limit limit 5000) (order_events q)))
          (select_cong _ (λ q. in_chain tenant q && asks run deliverable q) db.audit
              (λ q.
                and_assoc (in_chain tenant q) (matches run q.pipeline_run_id)
                  (matches deliverable q.deliverable_id))
            ∙ select-and (in_chain tenant) (asks run deliverable) db.audit)
        ∙ ap
            (λ q. verify_rows sha256_hex canonical tenant zeros 0 (take (clamp_limit limit 5000) q))
            (order_events-Ascending rows
                (Ascending-select (asks run deliverable) (chain_rows tenant db) sound.ascending)
              ∙ start)
        ∙ ap
            (λ n.
              verify_rows sha256_hex canonical tenant zeros 0
                (take n (r ∷ select (asks run deliverable) after)))
            more
        ∙ verify_rows-other_start r (take k (select (asks run deliverable) after))
            (sha256_hex bytes) named (digest bytes) (λ h. other (named ∙ ap some h))
