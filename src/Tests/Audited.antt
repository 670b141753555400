-- ===== src/Tests/Audited.antt =====
-- Witnesses for the audit log.
use dadi_runtime.Base.{
  ap, ◌++◌, All, ℕ, ◌+◌, String, true, false, none, some, List, [], ◌∷◌, ◌≡◌, ◌≤◌, ◌≢◌, refl, arith,
  ◌⊎◌, null, length, Option, ok, ◌==◌, ◌||◌, if◌then◌else◌, eq_iff, select, take,
}
use dadi_runtime.Tables.{AuditRow, Db, empty_db}
use dadi_runtime.Audit.{
  Event, zeros, chain_rows, clamp_limit, new_event, Ids, ids_of, id_columns, write_event,
  with_detail, emit_event, order_events, insert_event, verify_rows, verify_chain,
}
use dadi_runtime.Audit.Chain.{
  IsSound, IsProper, emit_event-IsSound, verify_chain-IsSound, verify_chain_filtered,
}
use dadi_runtime.Audit.Tamper.{Collision, SameEvents, verify_rows-tamper}
use dadi_runtime.Audit.Listing.{IsAsked, audit_rows, audit_rows-listed}
use dadi_runtime.Tests.{letter_digest, letter_digest-nonempty, short_bytes, ids}

abbrev started : Event
started = record {
  event_type = "started";
  pipeline_run_id = some "r1";
  deliverable_id = none;
  bundle_id = none;
  idempotency_key = none;
  detail = null;
}

-- a database that knows one UUID
abbrev as_uuid : String → Option String
as_uuid s = if s == "R1" || s == "r1" then some "r1" else none

proper : IsProper letter_digest short_bytes letter_digest-nonempty "acme" as_uuid started
proper = record { run = (refl, refl); deliverable = tt; bundle = tt }

sound : IsSound letter_digest short_bytes letter_digest-nonempty "acme" empty_db
unfolding select
sound = record { linked = tt; ascending = tt; past = tt }

abbrev one_event : Db
one_event = (emit_event letter_digest short_bytes as_uuid ids "acme" started empty_db).1

abbrev later : Db
later = record one_event { clock = 1 }

emit_event-IsSound_example :
    ((emit_event letter_digest short_bytes as_uuid ids "acme" started empty_db).0 ≡ ok "id0")
    × IsSound letter_digest short_bytes letter_digest-nonempty "acme" later
    × (length (chain_rows "acme" one_event) ≡ length (chain_rows "acme" empty_db) + 1)
emit_event-IsSound_example =
    emit_event-IsSound letter_digest short_bytes letter_digest-nonempty "acme" as_uuid ids started
      empty_db 1 proper sound (omega arith)

one-IsSound : IsSound letter_digest short_bytes letter_digest-nonempty "acme" later
one-IsSound =
    (emit_event-IsSound letter_digest short_bytes letter_digest-nonempty "acme" as_uuid ids started
      empty_db 1 proper sound (omega arith)).1

verify_chain-IsSound_example :
    verify_chain letter_digest short_bytes later "acme" none none 10 ≡ record {
      valid = true;
      checked = length (take (clamp_limit 10 5000) (chain_rows "acme" later));
      first_error = none;
    }
verify_chain-IsSound_example =
    verify_chain-IsSound letter_digest short_bytes letter_digest-nonempty "acme" later 10
      one-IsSound

abbrev no_ids : Ids
no_ids = record { run = none; deliverable = none; bundle = none }

-- the second event of a log, of a run
abbrev of_run : AuditRow
of_run =
    new_event letter_digest short_bytes "acme" "id1" started
      (record { run = some "r1"; deliverable = none; bundle = none }) (some "da") 1

abbrev two_events : Db
two_events = record empty_db {
  audit = new_event letter_digest short_bytes "acme" "id0" started no_ids none 0 ∷ of_run ∷ [];
  clock = 2;
}

abbrev plain : Event
plain = record started { pipeline_run_id = none }

plain-IsProper : IsProper letter_digest short_bytes letter_digest-nonempty "acme" as_uuid plain
plain-IsProper = record { run = tt; deliverable = tt; bundle = tt }

abbrev first_db : Db
first_db = record (emit_event letter_digest short_bytes as_uuid ids "acme" plain empty_db).1 {
  clock = 1;
}

abbrev log_db : Db
log_db = record (emit_event letter_digest short_bytes as_uuid ids "acme" started first_db).1 {
  clock = 2;
}

log_db-IsSound : IsSound letter_digest short_bytes letter_digest-nonempty "acme" log_db
log_db-IsSound =
    (emit_event-IsSound letter_digest short_bytes letter_digest-nonempty "acme" as_uuid ids started
      first_db 2 proper
      (emit_event-IsSound letter_digest short_bytes letter_digest-nonempty "acme" as_uuid ids plain
        empty_db 1 plain-IsProper sound (omega arith)).1
      (omega arith)).1

-- the two rows of the log
abbrev first_row : AuditRow
first_row = new_event letter_digest short_bytes "acme" "id0" (with_detail plain) no_ids none 0

abbrev second_row : AuditRow
second_row =
    new_event letter_digest short_bytes "acme" "id1" (with_detail started)
      (record { run = some "r1"; deliverable = none; bundle = none }) (some "db") 1

log_rows : chain_rows "acme" log_db ≡ first_row ∷ [] ++ second_row ∷ []
unfolding emit_event id_columns ids_of write_event select order_events insert_event
log_rows = refl

hash_of : Option String → String
hash_of none = ""
hash_of (some s) = s

not_zeros : ◌≢◌ {A = Option String} (some "db") (some zeros)
unfolding hash_of
not_zeros h = absurd (ground (arith, (eq_iff "db" zeros).1 (ap hash_of h)))

verify_chain_filtered_example :
    verify_chain letter_digest short_bytes log_db "acme" (some "r1") none 10
    ≡ record { valid = false; checked = 0; first_error = some "id1" }
verify_chain_filtered_example =
    verify_chain_filtered letter_digest short_bytes letter_digest-nonempty "acme" log_db (some "r1")
      none 10 first_row [] second_row [] log_db-IsSound log_rows (refl, tt) refl not_zeros

-- digests of 64 characters
abbrev long_digest : List ℕ → String
long_digest bytes = zeros

abbrev long_row : AuditRow
long_row = new_event long_digest short_bytes "acme" "id0" started no_ids none 0

long_row-verifies :
    (verify_rows long_digest short_bytes "acme" zeros 0 (long_row ∷ [])).valid ≡ true
unfolding verify_rows
long_row-verifies = refl

verify_rows-tamper_example :
    SameEvents long_digest short_bytes "acme" (long_row ∷ []) (long_row ∷ [])
    ⊎ Collision long_digest short_bytes "acme" zeros zeros (long_row ∷ []) (long_row ∷ [])
verify_rows-tamper_example =
    verify_rows-tamper long_digest short_bytes (λ bytes. refl) "acme" 0 0 (long_row ∷ [])
      (long_row ∷ []) refl long_row-verifies long_row-verifies refl

audit_rows-listed_example :
    All
      (IsAsked "acme" (some "r1") none none)
      (audit_rows two_events "acme" (some "r1") none none 10)
    × (length (audit_rows two_events "acme" (some "r1") none none 10) ≤ 500)
audit_rows-listed_example = audit_rows-listed two_events "acme" (some "r1") none none 10
