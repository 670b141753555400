-- ===== src/Base/Actions.antt =====
-- Code that changes the database and may raise. Each `with tx()` block commits on its own, so what
-- was written before a raise stays written, and the state comes back beside the exception.
use Prim.Native.Nat.{ℕ}
use Prim.Native.String.{String}
use mathlib.Core.Path.{◌≡◌, refl, ap}
use native.Mathlib.Omega.{arith}

-- Python's exceptions, with the text or the status that the code gives them.
pub data Exc : Type 0 where
  value_error : String → Exc
  key_error : String → Exc
  runtime_error : String → Exc
  unbound_local : String → Exc
  http : ℕ → String → Exc
  other : String → Exc

pub data Result {ℓ} (A : Type ℓ) : Type ℓ where
  ok : A → Result A
  raised : Exc → Result A

abbrev pub Exec {ℓ} : Type ℓ → Type ℓ → Type ℓ
Exec S A = S → Result A × S

module _ {ℓ} {S A : Type ℓ} where
  abbrev pub pure : A → Exec S A
  pure a s = (ok a, s)

  abbrev pub raise : Exc → Exec S A
  raise e s = (raised e, s)

  abbrev pub gets : (S → A) → Exec S A
  gets f s = (ok (f s), s)

module _ {ℓ} {S A B : Type ℓ} where
  abbrev pub continue : Result A → (A → Exec S B) → Exec S B
  continue (ok a) f s = f a s
  continue (raised e) f s = (raised e, s)

  infixl 5 ◌>>=◌ ◌>>◌
  abbrev pub ◌>>=◌ : Exec S A → (A → Exec S B) → Exec S B
  ◌>>=◌ m f s = let (r, s') = m s in continue r f s'

  abbrev pub ◌>>◌ : Exec S A → Exec S B → Exec S B
  m >> k = m >>= λ _. k

-- A bind after a result that is known.
pub bind-ok :
    {S A B : Type 0} (m : Exec S A) (f : A → Exec S B) (s : S) {a : A}
    → (m s).0 ≡ ok a
    → (m >>= f) s ≡ f a (m s).1
bind-ok m f s {a} h = ap (λ r. continue r f (m s).1) h

-- A bind after an exception that is known.
pub bind-raised :
    {S A B : Type 0} (m : Exec S A) (f : A → Exec S B) (s : S) {e : Exc}
    → (m s).0 ≡ raised e
    → (m >>= f) s ≡ (raised e, (m s).1)
bind-raised m f s {e} h = ap (λ r. continue r f (m s).1) h

-- A successful bind, taken apart.
pub bind-eq-ok :
    {S A B : Type 0} (m : Exec S A) (f : A → Exec S B) (s : S) {b : B} {t : S}
    → (m >>= f) s ≡ (ok b, t)
    → (a : A) × ((m s).0 ≡ ok a) × (f a (m s).1 ≡ (ok b, t))
bind-eq-ok {S} {A} {B} m f s {b} {t} h = go (m s).0 refl h
  where
    go :
        (r : Result A)
        → (m s).0 ≡ r
        → continue r f (m s).1 ≡ (ok b, t)
        → (a : A) × ((m s).0 ≡ ok a) × (f a (m s).1 ≡ (ok b, t))
    go (ok a) e k = (a, e, k)
    go (raised x) e k = absurd (ground arith)
