-- ===== src/Base/Results.antt =====
-- `do` blocks over results: the first exception ends the block.
use mathlib.Core.Path.{◌≡◌, refl}
use native.Mathlib.Omega.{arith}
use dadi_runtime.Base.Actions.{Result, ok, raised}

module _ {A B : Type 0} where
  infixl 5 ◌>>=◌
  abbrev pub ◌>>=◌ : Result A → (A → Result B) → Result B
  outcome >>= rest = elim outcome [ ok found ↦ rest found | raised problem ↦ raised problem ]

  -- A block that gives a result, taken apart.
  pub bind-eq-ok :
      (outcome : Result A) (rest : A → Result B) {last : B}
      → (outcome >>= rest) ≡ ok last
      → (found : A) × (outcome ≡ ok found) × (rest found ≡ ok last)
  bind-eq-ok (raised problem) rest ends = absurd (ground (arith, ends))
  bind-eq-ok (ok found) rest ends = (found, refl, ends)
