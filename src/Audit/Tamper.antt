-- ===== src/Audit/Tamper.antt =====
-- Two logs that verify and end in the same hash hold the same events, or SHA-256 has a collision.
use mathlib.Core.Path.{ap₂}
use native.Mathlib.Decide.{ℕ_discrete}
use text.Mathlib.TextEquality.{Char-path}
use dadi_runtime.Base.{
  ℕ, ◌+◌, String, true, Option, none, some, List, [], ◌∷◌, ◌++◌, ◌≡◌, ◌≢◌, refl, sym, ◌∙◌, ap,
  arith, ◌⊎◌, inl, inr, eq_iff, is_text, Fields, length,
}
use dadi_runtime.Tables.{AuditRow}
use dadi_runtime.Audit.{codes, zeros, event_of, event_for_hash, text_of, message, verify_rows}

tail_of {ℓ} : {A : Type ℓ} → List A → List A
tail_of [] = []
tail_of (x ∷ xs) = xs

head_or : ℕ → List ℕ → ℕ
head_or d [] = d
head_or d (x ∷ xs) = x

codes-injective : (s t : String) → codes s ≡ codes t → s ≡ t
unfolding tail_of head_or
codes-injective String.[] String.[] h = refl
codes-injective String.[] (String.◌∷◌ c t) h = absurd (ground (arith, h))
codes-injective (String.◌∷◌ c s) String.[] h = absurd (ground (arith, h))
codes-injective (String.◌∷◌ c s) (String.◌∷◌ d t) h =
    ap₂ String.◌∷◌ (Char-path c d (ap (head_or 0) h)) (codes-injective s t (ap tail_of h))

-- lists with prefixes of one length
append-injective : (a b x y : List ℕ) → length a ≡ length b → a ++ x ≡ b ++ y → (a ≡ b) × (x ≡ y)
unfolding tail_of head_or
append-injective [] [] x y n h = (refl, h)
append-injective [] (c ∷ b) x y n h = absurd (omega arith)
append-injective (c ∷ a) [] x y n h = absurd (omega arith)
append-injective (c ∷ a) (d ∷ b) x y n h =
    let (p, q) = append-injective a b x y (omega arith) (ap tail_of h) in
    (ap₂ ◌∷◌ (ap (head_or 0) h) p, q)

List-discrete : Discrete (List ℕ)
List-discrete = hlevel ℕ_discrete

text_of-is_text : (o : Option String) (s : String) → is_text o s ≡ true → text_of o ≡ s
text_of-is_text none s h = cc
text_of-is_text (some t) s h = (eq_iff t s).0 h

module _ (sha256_hex : List ℕ → String) (canonical : Fields → List ℕ) where
  -- the bytes that are hashed for a row
  abbrev pub row_message : String → String → AuditRow → List ℕ
  row_message tenant prev r = message sha256_hex canonical prev tenant r.event_id (event_of r)

  -- Two different messages with one digest.
  abbrev pub Collide : List ℕ → List ℕ → Type 0
  Collide x y = (x ≢ y) × (sha256_hex x ≡ sha256_hex y)

  -- At one place of the two logs, the messages of the two rows collide.
  abbrev pub Collision : String → String → String → List AuditRow → List AuditRow → Type 0
  Collision tenant p q (x ∷ xs) (y ∷ ys) =
      Collide (row_message tenant p x) (row_message tenant q y)
      ⊎ Collision tenant (text_of x.event_hash) (text_of y.event_hash) xs ys
  Collision tenant p q _ _ = ⊥

  no_collision : (x y : List ℕ) → sha256_hex x ≡ sha256_hex y → (x ≡ y) ⊎ Collide x y
  no_collision x y h = elim (List-discrete x y) [ yes p ↦ inl p | no p ↦ inr (p, h) ]

  -- the bytes that a row is hashed by, behind the hash of the row before
  abbrev pub row_bytes : String → AuditRow → List ℕ
  row_bytes tenant r = canonical (event_for_hash tenant r.event_id (event_of r))

  -- The hash of the last row, or the one before the rows.
  abbrev pub chain_head : String → List AuditRow → String
  chain_head prev [] = prev
  chain_head prev (r ∷ rows) = chain_head (text_of r.event_hash) rows

  -- The rows agree one by one in the bytes that they are hashed by.
  abbrev pub SameEvents : String → List AuditRow → List AuditRow → Type 0
  SameEvents tenant [] [] = Unit
  SameEvents tenant [] (y ∷ ys) = ⊥
  SameEvents tenant (x ∷ xs) [] = ⊥
  SameEvents tenant (x ∷ xs) (y ∷ ys) =
      (row_bytes tenant x ≡ row_bytes tenant y) × SameEvents tenant xs ys

  module _ (size : (bytes : List ℕ) → length (codes (sha256_hex bytes)) ≡ 64)
      (tenant : String) where
    -- what a row that verifies says of its hash
    verify_rows-step :
        (prev : String) (n : ℕ) (r : AuditRow) (rows : List AuditRow)
        → (verify_rows sha256_hex canonical tenant prev n (r ∷ rows)).valid ≡ true
        → (text_of r.event_hash
            ≡ sha256_hex (message sha256_hex canonical prev tenant r.event_id (event_of r)))
          × ((verify_rows sha256_hex canonical tenant (text_of r.event_hash) (n + 1) rows).valid
              ≡ true)
    unfolding verify_rows
    verify_rows-step prev n r rows h = ground (
      arith,
      text_of-is_text r.event_hash
          (sha256_hex (message sha256_hex canonical prev tenant r.event_id (event_of r))),
    )

    SameEvents-from :
        (p q : String) (m n : ℕ) (xs ys : List AuditRow)
        → length (codes p) ≡ 64
        → length (codes q) ≡ 64
        → length xs ≡ length ys
        → (verify_rows sha256_hex canonical tenant p m xs).valid ≡ true
        → (verify_rows sha256_hex canonical tenant q n ys).valid ≡ true
        → chain_head p xs ≡ chain_head q ys
        → ((p ≡ q) × SameEvents tenant xs ys) ⊎ Collision tenant p q xs ys
    unfolding tail_of
    SameEvents-from p q m n [] [] lp lq l vx vy h = inl (h, tt)
    SameEvents-from p q m n [] (y ∷ ys) lp lq l vx vy h = absurd (omega arith)
    SameEvents-from p q m n (x ∷ xs) [] lp lq l vx vy h = absurd (omega arith)
    SameEvents-from p q m n (x ∷ xs) (y ∷ ys) lp lq l vx vy h =
        let (hx, rx) = verify_rows-step p m x xs vx in
        let (hy, ry) = verify_rows-step q n y ys vy in
        let fx : length (codes (text_of x.event_hash)) ≡ 64 = rw hx (size _) in
        let fy : length (codes (text_of y.event_hash)) ≡ 64 = rw hy (size _) in
        elim (SameEvents-from (text_of x.event_hash) (text_of y.event_hash) (m + 1) (n + 1) xs ys fx
          fy (omega arith) rx ry h) [
            | inr c ↦ inr (inr c)
            | inl (same, rest) ↦ elim (no_collision _ _ (sym hx ∙ same ∙ hy)) [
              | inr c ↦ inr (inl c)
              | inl bytes ↦
                  let (a, b) = append-injective (codes p) (codes q) _ _ (lp ∙ sym lq) bytes in
                  inl (codes-injective p q a, (ap tail_of b, rest))
            ]
          ]

    -- Two logs of one length that both verify from the start and end in the same hash hold the same
    -- events in the same order, or at one place of the logs the two rows are hashed from different
    -- messages to one digest. It needs digests of 64 characters.
    pub verify_rows-tamper :
        (m n : ℕ) (xs ys : List AuditRow)
        → length xs ≡ length ys
        → (verify_rows sha256_hex canonical tenant zeros m xs).valid ≡ true
        → (verify_rows sha256_hex canonical tenant zeros n ys).valid ≡ true
        → chain_head zeros xs ≡ chain_head zeros ys
        → SameEvents tenant xs ys ⊎ Collision tenant zeros zeros xs ys
    verify_rows-tamper m n xs ys l vx vy h =
        elim (SameEvents-from zeros zeros m n xs ys refl refl l vx vy h) [
          | inl (_, same) ↦ inl same
          | inr c ↦ inr c
        ]
