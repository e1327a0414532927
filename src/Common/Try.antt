-- ===== src/Common/Try.antt =====
-- Code that mutates a state, may panic, and returns a `Result`: the `?` operator as the bind of
-- `do` blocks. An error returns at once; what was written before it stays written.
use mathlib.Core.Option.{Option, none, some}
use fuelmint.Common.Results.{Result, ok, err}
use fuelmint.Common.Exec
use fuelmint.Common.Exec.{Exec, Panic, returned, panicked}

abbrev pub Try {ℓ κ μ} : Type ℓ → Type κ → Type μ → Type (ℓ ⊔ κ ⊔ μ)
Try S E A = Exec S (Result E A)

module _ {ℓ κ μ} {S : Type ℓ} {E : Type κ} {A : Type μ} where
  abbrev pub pure : A → Try S E A
  pure a s = (returned (ok a), s)

  abbrev pub fail : E → Try S E A
  fail e s = (returned (err e), s)

  -- `e?` for a result that is computed without touching the state
  abbrev pub lift : Result E A → Try S E A
  lift r s = (returned r, s)

  -- a call of a library that may fail
  abbrev pub call : (S → Result E A × S) → Try S E A
  call f s = let (r, s') = f s in (returned r, s')

  -- a call of a library that panics where its value is `none`
  abbrev pub or_panic : Panic → Option A → Try S E A
  or_panic p none s = (panicked p, s)
  or_panic p (some a) s = (returned (ok a), s)

  -- code that cannot fail but may panic
  abbrev pub total : Exec S A → Try S E A
  total m s = Exec.◌>>=◌ m pure s

  abbrev pub continue {ν} : {B : Type ν} → (A → Try S E B) → Result E A → Try S E B
  continue f (ok a) s = f a s
  continue f (err e) s = (returned (err e), s)

infixl 5 ◌>>=◌ ◌>>◌
abbrev pub ◌>>=◌ {ℓ κ μ ν} :
    {S : Type ℓ} {E : Type κ} {A : Type μ} {B : Type ν} → Try S E A → (A → Try S E B) → Try S E B
m >>= f = Exec.◌>>=◌ m (continue f)

abbrev pub ◌>>◌ {ℓ κ μ} :
    {S : Type ℓ} {E : Type κ} {B : Type μ} → Try S E (Unit {0}) → Try S E B → Try S E B
m >> k = m >>= λ _. k
