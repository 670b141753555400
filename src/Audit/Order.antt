-- ===== src/Audit/Order.antt =====
-- Rows that were written at rising times stand in the order of the log.
use dadi_runtime.Base.{
  Bool, Bool-cases, inl, inr, select, ◌<◌, some, List, [], ◌∷◌, ◌≡◌, refl, arith, All, All-append,
  insert,
}
use dadi_runtime.Tables.{AuditRow}
use dadi_runtime.Audit.{order_events, last?}

-- Each row was written later than all the rows before it.
abbrev pub Ascending : List AuditRow → Type 0
Ascending [] = Unit
Ascending (r ∷ rows) = All (λ q. r.created_at < q.created_at) rows × Ascending rows

pub order_events-Ascending : (rows : List AuditRow) → Ascending rows → order_events rows ≡ rows
unfolding order_events
order_events-Ascending [] h = refl
order_events-Ascending (r ∷ []) h = refl
order_events-Ascending (r ∷ q ∷ rows) h = rw (order_events-Ascending (q ∷ rows) h.1) (ground arith)

pub Ascending-insert :
    (rows : List AuditRow) (r : AuditRow)
    → Ascending rows
    → All (λ q. q.created_at < r.created_at) rows
    → Ascending (insert rows r)
Ascending-insert [] r h k = (tt, tt)
Ascending-insert (q ∷ rows) r h k = (
  All-append (λ p. q.created_at < p.created_at) rows (r ∷ []) h.0 (k.0, tt),
  Ascending-insert rows r h.1 k.1,
)

pub All-select_kept :
    (P : AuditRow → Type 0) (p : AuditRow → Bool) (rows : List AuditRow)
    → All P rows
    → All P (select p rows)
unfolding select
All-select_kept P p [] h = tt
All-select_kept P p (r ∷ rows) h = elim (Bool-cases (p r)) [
  | inl hit ↦ rw hit (h.0, All-select_kept P p rows h.1)
  | inr miss ↦ rw miss (All-select_kept P p rows h.1)
]

pub Ascending-select :
    (p : AuditRow → Bool) (rows : List AuditRow) → Ascending rows → Ascending (select p rows)
unfolding select
Ascending-select p [] h = tt
Ascending-select p (r ∷ rows) h = elim (Bool-cases (p r)) [
  | inl hit ↦
      rw hit
        (All-select_kept (λ q. r.created_at < q.created_at) p rows h.0, Ascending-select p rows h.1)
  | inr miss ↦ rw miss (Ascending-select p rows h.1)
]

pub last?-insert {ℓ} : {A : Type ℓ} (xs : List A) (x : A) → last? (insert xs x) ≡ some x
last?-insert [] x = refl
last?-insert (y ∷ []) x = refl
last?-insert (y ∷ z ∷ xs) x = last?-insert (z ∷ xs) x
