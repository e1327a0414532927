-- ===== src/Common/Exec.antt =====
-- Code that mutates a state and may panic. What was written before a panic stays written, so the
-- state comes back beside every outcome.
use mathlib.Core.Path.{◌≡◌, refl, ◌∙◌}
use native.Mathlib.Omega.{arith}
use fuelmint.Common.Results.{Result, ok, err}

-- The calls at which the program can panic, by the expression that panics.
pub data Panic : Type 0 where
  height_try_from from_bytes insert_tx produce_block commit_block : Panic
  strip_prefix hex_decode route_panics json_panics no_data : Panic
  get_config open_database new_service start_service await_stop : Panic
  abci_server join_task service_destroyed from_tcp no_signals listener : Panic
  client_start client_sync load_file_pv no_home finish_server : Panic

-- `blocked` is a wait that nothing can end, such as for a lock that the waiting code holds.
pub data Outcome {ℓ} (A : Type ℓ) : Type ℓ where
  returned : A → Outcome A
  panicked : Panic → Outcome A
  blocked : Outcome A

abbrev pub Exec {ℓ κ} : Type ℓ → Type κ → Type (ℓ ⊔ κ)
Exec S A = S → Outcome A × S

module _ {ℓ κ} {S : Type ℓ} {A : Type κ} where
  abbrev pub pure : A → Exec S A
  pure a s = (returned a, s)

  abbrev pub panic : Panic → Exec S A
  panic p s = (panicked p, s)

  -- `result.unwrap()`
  abbrev pub unwrap {μ} : {E : Type μ} → Panic → Result E A → Exec S A
  unwrap p (ok a) s = (returned a, s)
  unwrap p (err e) s = (panicked p, s)

  abbrev pub then_run {μ} : {B : Type μ} → (A → Exec S B) → Outcome A → Exec S B
  then_run f (returned a) s = f a s
  then_run f (panicked p) s = (panicked p, s)
  then_run f blocked s = (blocked, s)

infixl 5 ◌>>=◌ ◌>>◌
abbrev pub ◌>>=◌ {ℓ κ μ} :
    {S : Type ℓ} {A : Type κ} {B : Type μ} → Exec S A → (A → Exec S B) → Exec S B
◌>>=◌ m f s = let (r, s') = m s in then_run f r s'

abbrev pub ◌>>◌ {ℓ κ} : {S : Type ℓ} {B : Type κ} → Exec S (Unit {0}) → Exec S B → Exec S B
m >> k = m >>= λ _. k

module _ {ℓ κ μ} {S : Type ℓ} {A : Type κ} {B : Type μ} where
  -- What comes after `m` without touching the state leaves the state that `m` left.
  pub state-bind-pure : (m : Exec S A) (f : A → B) (s : S) → ((m >>= λ a. pure (f a)) s).1 ≡ (m s).1
  state-bind-pure m f s = ground arith

  -- What holds before and after the rest of the code holds after whatever the outcome makes of it.
  pub then_run_inv {ν} :
      (I : S → Type ν) (f : A → Exec S B) (r : Outcome A) (s : S)
      → I s
      → ((a : A) → I (f a s).1)
      → I (then_run f r s).1
  then_run_inv I f (returned a) s now after = after a
  then_run_inv I f (panicked p) s now after = now
  then_run_inv I f blocked s now after = now

  -- Code that returns through a last step has returned before it.
  pub returned-pure :
      (o : Outcome A) (f : A → B) (s : S) {b : B}
      → (then_run (λ a. pure (f a)) o s).0 ≡ returned b
      → (a : A) × (o ≡ returned a) × (b ≡ f a)
  returned-pure (returned a) f s h = (a, refl, cc)
  returned-pure (panicked p) f s h = cc
  returned-pure blocked f s h = cc

  -- A sequence that has returned has returned from its first part, and gone on from there.
  pub returned-bind :
      (x : Outcome A × S) (f : A → Exec S B) {b : B} {s' : S}
      → then_run f x.0 x.1 ≡ (returned b, s')
      → (a : A) × (s : S) × (x ≡ (returned a, s)) × (f a s ≡ (returned b, s'))
  returned-bind (returned a, s) f h = (a, s, refl, h)
  returned-bind (panicked p, s) f h = cc
  returned-bind (blocked, s) f h = cc

  -- Code that returns through a last step has returned before it, and left the state that it leaves.
  pub returned-last :
      (m : Exec S A) (f : A → B) (s : S) {b : B} {s' : S}
      → (m >>= λ a. pure (f a)) s ≡ (returned b, s')
      → (a : A) × (m s ≡ (returned a, s'))
  returned-last m f s h =
      let (a, s'', before, last) = returned-bind (m s) (λ a. pure (f a)) h in
      (a, before ∙ (λ i. (returned a, (last i).1)))

-- An `unwrap` that has returned had a value.
pub unwrap-returned {ℓ κ μ} :
    {S : Type ℓ} {A : Type κ} {E : Type μ} (p : Panic) (x : Result E A × S) {a : A} {s' : S}
    → unwrap p x.0 x.1 ≡ (returned a, s')
    → x ≡ (ok a, s')
unwrap-returned p (ok a, s) h = cc
unwrap-returned p (err e, s) h = cc
