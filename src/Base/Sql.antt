-- ===== src/Base/Sql.antt =====
-- SQL statements over a table held as the list of its rows in the order of insertion.
use mathlib.Core.Bool.{Bool, true}
use mathlib.Core.List.{List, [], ◌∷◌, ◌++◌}
use mathlib.Core.Logic.{inl, inr}
use mathlib.Core.Option.{Option, none, some}
use mathlib.Core.Path.{◌≡◌, refl}
use native.Mathlib.Omega.{arith}
use dadi_runtime.Base.Tests.{if◌then◌else◌, Bool-cases}
use dadi_runtime.Base.Lists.{All}

abbrev pub or_else {ℓ} : {A : Type ℓ} → Option A → Option A → Option A
or_else none b = b
or_else (some a) b = some a

module _ {ℓ} {A : Type ℓ} where
  -- SELECT … WHERE p, then `fetchone`
  unfoldable pub select_one : (A → Bool) → List A → Option A
  select_one p [] = none
  select_one p (r ∷ rows) = if p r then some r else select_one p rows

  -- SELECT … WHERE p, then `fetchall`
  unfoldable pub select : (A → Bool) → List A → List A
  select p [] = []
  select p (r ∷ rows) = let rest = select p rows in if p r then r ∷ rest else rest

  -- UPDATE … SET f WHERE p
  unfoldable pub update : (A → Bool) → (A → A) → List A → List A
  update p f [] = []
  update p f (r ∷ rows) = (if p r then f r else r) ∷ update p f rows

  -- INSERT
  abbrev pub insert : List A → A → List A
  insert rows r = rows ++ r ∷ []

  pub select_one-append :
      (p : A → Bool) (xs ys : List A)
      → select_one p (xs ++ ys) ≡ or_else (select_one p xs) (select_one p ys)
  unfolding select_one
  select_one-append p [] ys = refl
  select_one-append p (x ∷ xs) ys = ground (arith, select_one-append p xs ys)

  pub select_one-insert :
      (p : A → Bool) (xs : List A) (r : A)
      → select_one p (insert xs r) ≡ or_else (select_one p xs) (if p r then some r else none)
  unfolding select_one
  select_one-insert p xs r = select_one-append p xs (r ∷ [])

  pub select_one-holds :
      (p : A → Bool) (xs : List A) {r : A} → select_one p xs ≡ some r → p r ≡ true
  unfolding select_one
  select_one-holds p [] h = ground arith
  select_one-holds p (x ∷ xs) {r} h = ground (arith, select_one-holds p xs {r = r})

  pub select_cong :
      (p q : A → Bool) (xs : List A) → ((r : A) → p r ≡ q r) → select p xs ≡ select q xs
  unfolding select
  select_cong p q [] h = refl
  select_cong p q (x ∷ xs) h = rw (h x, select_cong p q xs h)

  pub select-eq-nil : (p : A → Bool) (xs : List A) → select_one p xs ≡ none → select p xs ≡ []
  unfolding select_one select
  select-eq-nil p [] h = refl
  select-eq-nil p (x ∷ xs) h = ground (arith, select-eq-nil p xs)

  pub select-insert :
      (p : A → Bool) (xs : List A) (r : A)
      → select p (insert xs r) ≡ (if p r then insert (select p xs) r else select p xs)
  unfolding select
  select-insert p [] r = ground arith
  select-insert p (x ∷ xs) r = ground (arith, select-insert p xs r)

  -- an update finds the row that it found before, changed or not
  pub select_one-update :
      (q p : A → Bool) (f : A → A) (xs : List A)
      → ((r : A) → q (f r) ≡ q r)
      → select_one q (update p f xs)
        ≡ elim (select_one q xs) [ none ↦ none | some r ↦ some (if p r then f r else r) ]
  unfolding select_one update
  select_one-update q p f [] h = refl
  select_one-update q p f (x ∷ xs) h = ground (arith, h x, select_one-update q p f xs h)

module _ {ℓ κ} {A : Type ℓ} (P : A → Type κ) where
  pub All-select_one :
      (p : A → Bool) (xs : List A) {r : A} → All P xs → select_one p xs ≡ some r → P r
  unfolding select_one
  All-select_one p [] h e = absurd (ground arith)
  All-select_one p (x ∷ xs) {r} h e = elim (Bool-cases (p x)) [
    | inl hit ↦ let q : x ≡ r = ground arith in rw (← q) h.0
    | inr miss ↦ All-select_one p xs h.1 (ground arith)
  ]

  pub All-update :
      (p : A → Bool) (f : A → A) (xs : List A)
      → ((r : A) → P r → P (f r))
      → All P xs
      → All P (update p f xs)
  unfolding update
  All-update p f [] k h = tt
  All-update p f (x ∷ xs) k h = elim (Bool-cases (p x)) [
    | inl hit ↦ (rw hit (k x h.0), All-update p f xs k h.1)
    | inr miss ↦ (rw miss h.0, All-update p f xs k h.1)
  ]

  -- the change needs to keep the property of the rows that it is made on
  pub All-update_where :
      (p : A → Bool) (f : A → A) (xs : List A)
      → ((r : A) → p r ≡ true → P r → P (f r))
      → All P xs
      → All P (update p f xs)
  unfolding update
  All-update_where p f [] k h = tt
  All-update_where p f (x ∷ xs) k h = elim (Bool-cases (p x)) [
    | inl hit ↦ (rw hit (k x hit h.0), All-update_where p f xs k h.1)
    | inr miss ↦ (rw miss h.0, All-update_where p f xs k h.1)
  ]
