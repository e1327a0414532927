-- ===== src/App/Delivery.antt =====
-- `DeliverTx`: what reaches the transaction pool, and what the client is told.
use fuelmint.Common.{ℕ, List, [], ◌∷◌, Result, ok, err, ◌≡◌, ◌⊎◌, inl, inr, refl, Result-cases, All}
use fuelmint.Common.Exec.{Outcome, returned, panicked, from_bytes, insert_tx}
use fuelmint.Fuel.{Fuel}
use fuelmint.App.Messages.{App, DeliverTxResponse, defaulted}
use fuelmint.App.Handlers
use fuelmint.App.Handlers.{try_collect}

abbrev pub IsOk {ℓ κ} : {E : Type ℓ} {A : Type κ} → Result E A → Type 0
IsOk (ok _) = Unit
IsOk (err _) = ⊥

abbrev pub HasError {ℓ κ} : {E : Type ℓ} {A : Type κ} → List (Result E A) → Type 0
HasError [] = ⊥
HasError (ok _ ∷ rs) = HasError rs
HasError (err _ ∷ rs) = Unit

-- What `DeliverTx` may do with `request`: panic and change nothing at bytes that are no
-- transaction; else offer the transaction, with its cached fields computed, to the pool once, keep
-- what that makes of the world, and answer with its JSON if the pool reports no error and panic if
-- it does.
pub data Delivers (F : Fuel) (request : List ℕ) (app : App F)
    (r : Outcome DeliverTxResponse × App F) : Type 0 where
  malformed :
      (e : F.Error)
      → F.from_bytes request ≡ err e
      → r ≡ (panicked from_bytes, app)
      → Delivers F request app r
  accepted :
      (tx : F.Tx) (results : List (Result F.Error F.Inserted)) (world : F.World)
      → F.from_bytes request ≡ ok tx
      → F.insert app.tx_pool (F.precompute tx ∷ []) app.world ≡ (results, world)
      → All IsOk results
      → r ≡ (
        returned (record { tx_data = F.to_json (F.precompute tx); others = defaulted }),
        record app { world = world },
      )
      → Delivers F request app r
  refused :
      (tx : F.Tx) (results : List (Result F.Error F.Inserted)) (world : F.World)
      → F.from_bytes request ≡ ok tx
      → F.insert app.tx_pool (F.precompute tx ∷ []) app.world ≡ (results, world)
      → HasError results
      → r ≡ (panicked insert_tx, record app { world = world })
      → Delivers F request app r

module _ {ℓ κ} {E : Type ℓ} {A : Type κ} where
  -- `try_collect` gives values exactly if there is no error.
  try_collect-cases :
      (rs : List (Result E A))
      → ((xs : List A) × All IsOk rs × (try_collect rs ≡ ok xs))
        ⊎ ((e : E) × HasError rs × (try_collect rs ≡ err e))
  try_collect-cases [] = inl ([], tt, refl)
  try_collect-cases (err e ∷ rs) = inr (e, tt, refl)
  try_collect-cases (ok a ∷ rs) = elim (try_collect-cases rs) [
    | inl (xs, all, eq) ↦ inl (a ∷ xs, (tt, all), rw eq)
    | inr (e, bad, eq) ↦ inr (e, bad, rw eq)
  ]

module _ {F : Fuel} where
  -- `DeliverTx` does one of these three things, whatever the request and the app.
  pub deliver_tx-Delivers :
      (request : List ℕ) (app : App F) → Delivers F request app (Handlers.deliver_tx request app)
  unfolding Handlers.deliver_tx
  deliver_tx-Delivers request app = elim (Result-cases (F.from_bytes request)) [
    | inr (e, bad) ↦ malformed e bad (rw bad)
    | inl (tx, good) ↦
        let (results, world) = F.insert app.tx_pool (F.precompute tx ∷ []) app.world in
        elim (try_collect-cases results) [
          | inl (xs, all, eq) ↦ accepted tx results world good refl all (rw (good, eq))
          | inr (e, some_bad, eq) ↦ refused tx results world good refl some_bad (rw (good, eq))
        ]
  ]
