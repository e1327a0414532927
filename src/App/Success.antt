-- ===== src/App/Success.antt =====
-- Which sequences of requests come to their end, by a specification that knows nothing of locks,
-- responses and panics.
use fuelmint.Common.{
  ℕ, List, [], ◌∷◌, Bool, true, false, ◌&&◌, Result, ok, err, none, ◌≡◌, refl, ap, ◌∙◌, All, arith,
}
use fuelmint.Common.Int.{ℤ, as_u64}
use fuelmint.Common.Exec.{Exec, Outcome, returned, panicked, blocked, pure, then_run, ◌>>=◌}
use fuelmint.Fuel.{Fuel}
use fuelmint.Config.{Config}
use fuelmint.App.Messages.{App, Request, Response, Defaulted, DeliverTxResponse}
use fuelmint.App.Handlers
use fuelmint.App.Call.{call}
use fuelmint.App.Deadlock.{IsUnlocked, call-Releases}
use fuelmint.App.Parts.{HasSameParts, call-HasSameParts}
use fuelmint.App.Delivery.{
  IsOk, HasError, Delivers, malformed, accepted, refused, deliver_tx-Delivers,
}
use fuelmint.App.Blocks.{EndsBlock, not_produced, not_committed, done, end_block-EndsBlock}
use fuelmint.App.Ledger.{Ledger, ledger, advance, ledger-call}
use fuelmint.App.Runs.{run}

module _ {ℓ κ} {E : Type ℓ} {A : Type κ} where
  abbrev pub succeeds : Result E A → Bool
  succeeds (ok _) = true
  succeeds (err _) = false

  abbrev pub no_errors : List (Result E A) → Bool
  no_errors [] = true
  no_errors (r ∷ rs) = succeeds r && no_errors rs

  no_errors-All : (rs : List (Result E A)) → All IsOk rs → no_errors rs ≡ true
  no_errors-All [] all = refl
  no_errors-All (ok _ ∷ rs) all = no_errors-All rs all.1
  no_errors-All (err _ ∷ rs) all = absurd all.0

  no_errors-HasError : (rs : List (Result E A)) → HasError rs → no_errors rs ≡ false
  no_errors-HasError [] bad = absurd bad
  no_errors-HasError (ok _ ∷ rs) bad = no_errors-HasError rs bad
  no_errors-HasError (err _ ∷ rs) bad = refl

abbrev pub has_returned {ℓ} : {A : Type ℓ} → Outcome A → Bool
has_returned (returned _) = true
has_returned (panicked _) = false
has_returned blocked = false

module _ (F : Fuel) (config : Config F) (producer : F.BlockProducer) (pool : F.TxPool) where
  -- Bytes are taken if they decode and the pool reports no error.
  abbrev pub takes : F.World → Result F.Error F.Tx → Bool
  takes w (err _) = false
  takes w (ok tx) = no_errors (F.insert pool (F.precompute tx ∷ []) w).0

  -- A block is stored if it is produced and the database takes it.
  abbrev pub stores : Result F.Error (List (F.Tx × F.Error) × F.DbTransaction) × F.World → Bool
  stores (err _, w) = false
  stores (ok (_, changes), w) = succeeds (F.commit changes w).0

  abbrev pub produced_at :
      ℤ → F.World → Result F.Error (List (F.Tx × F.Error) × F.DbTransaction) × F.World
  produced_at height =
      F.produce_and_execute_block producer (F.block_height_from (as_u64 height)) none
        (F.block_gas_limit config.chain_conf)

  -- the requests that are answered
  abbrev pub accepts : {P : Type 0} → Ledger F → Request P → Bool
  accepts l (Request.info _) = succeeds (F.height_try_from l.current.block_height)
  accepts l (Request.deliver_tx bytes) = takes l.world (F.from_bytes bytes)
  accepts l (Request.end_block height) = stores (produced_at height l.world)
  accepts l _ = true

  -- the sequences that are answered to their end
  abbrev pub accepts_all : {P : Type 0} → Ledger F → List (Request P) → Bool
  accepts_all l [] = true
  accepts_all l (request ∷ rest) =
      accepts l request && accepts_all (advance F config producer pool l request) rest

module _ {ℓ κ μ} {S : Type ℓ} {A : Type κ} {B : Type μ} where
  has_returned-pure :
      (o : Outcome A) (f : A → B) (s : S)
      → has_returned (then_run (λ a. pure (f a)) o s).0 ≡ has_returned o
  has_returned-pure (returned a) f s = refl
  has_returned-pure (panicked p) f s = refl
  has_returned-pure blocked f s = refl

module _ {ℓ κ μ} {S : Type ℓ} {A : Type κ} {B : Type μ} where
  has_returned-both :
      {C : Type μ} (o : Outcome A) (m : Exec S B) (g : A → B → C) (s : S)
      → has_returned (then_run (λ a. m >>= λ b. pure (g a b)) o s).0
        ≡ (has_returned o && has_returned (m s).0)
  has_returned-both (returned a) m g s = has_returned-pure (m s).0 (g a) (m s).1
  has_returned-both (panicked p) m g s = refl
  has_returned-both blocked m g s = refl

module _ {F : Fuel} (app : App F) (free : IsUnlocked app) where
  info-succeeds :
      has_returned (Handlers.info app).0
      ≡ succeeds (F.height_try_from app.current_state.value.block_height)
  unfolding Handlers.info
  info-succeeds = ground arith

  deliver_tx-takes :
      (bytes : List ℕ) {r : Outcome DeliverTxResponse × App F}
      → Delivers F bytes app r
      → has_returned r.0
        ≡ takes F app.config app.producer app.tx_pool app.world (F.from_bytes bytes)
  deliver_tx-takes bytes (malformed e bad d) = rw (d, bad)
  deliver_tx-takes bytes (accepted tx results w good inserted all d) =
      rw (d, good, inserted, no_errors-All results all)
  deliver_tx-takes bytes (refused tx results w good inserted bad d) =
      rw (d, good, inserted, no_errors-HasError results bad)

  end_block-stores :
      (height : ℤ) {r : Outcome Defaulted × App F}
      → EndsBlock F height app r
      → has_returned r.0
        ≡ stores F app.config app.producer app.tx_pool
            (produced_at F app.config app.producer app.tx_pool height app.world)
  end_block-stores height (not_produced e w made d) = rw (d, made)
  end_block-stores height (not_committed e skipped changes w w' made bad d) = rw (d, made, bad)
  end_block-stores height (done skipped changes w w' made taken d) = rw (d, made, taken)

module _ {F : Fuel} where
  -- `call` ends as the handler ends.
  has_returned-answer :
      {R : Type 0} (m : Exec (App F) R) (respond : R → Response F) (app : App F)
      → has_returned {A = Result F.Error (Response F)}
          (((m >>= λ r. pure (respond r)) >>= λ x. pure (ok x)) app).0
        ≡ has_returned (m app).0
  has_returned-answer m respond app =
      has_returned-pure ((m >>= λ r. pure (respond r)) app).0 ok
        ((m >>= λ r. pure (respond r)) app).1
      ∙ has_returned-pure (m app).0 respond (m app).1

module _ {F : Fuel} {P : Type 0} where
  abbrev pub accepts_by : App F → Ledger F → Request P → Bool
  accepts_by app = accepts F app.config app.producer app.tx_pool

  -- A request is answered exactly if the specification accepts it.
  call-accepts :
      (request : Request P) (app : App F)
      → IsUnlocked app
      → has_returned (call request app).0 ≡ accepts_by app (ledger app) request
  unfolding call
  call-accepts (Request.info _) app free =
      has_returned-answer Handlers.info Response.info app ∙ info-succeeds app free
  call-accepts (Request.deliver_tx bytes) app free =
      has_returned-answer (Handlers.deliver_tx bytes) Response.deliver_tx app
      ∙ deliver_tx-takes app free bytes (deliver_tx-Delivers bytes app)
  call-accepts (Request.end_block height) app free =
      has_returned-answer (Handlers.end_block height) Response.end_block app
      ∙ end_block-stores app free height (end_block-EndsBlock height app free)
  call-accepts Request.commit app free = ground arith
  call-accepts _ app free = refl

  accepts_all-parts :
      (app app' : App F) (l : Ledger F) (requests : List (Request P))
      → HasSameParts app app'
      → accepts_all F app'.config app'.producer app'.tx_pool l requests
        ≡ accepts_all F app.config app.producer app.tx_pool l requests
  accepts_all-parts app app' l requests same =
      rw (same.same_config, same.same_producer, same.same_pool)

  pub has_returned-cons :
      (request : Request P) (rest : List (Request P)) (app : App F)
      → has_returned (run (request ∷ rest) app).0
        ≡ (has_returned (call request app).0 && has_returned (run rest (call request app).1).0)
  unfolding run
  has_returned-cons request rest app =
      let (o, app') = call request app in has_returned-both o (run rest) (λ x xs. x ∷ xs) app'

  -- From free locks, a sequence of requests comes to its end exactly if the specification accepts
  -- each of its requests, at the ledger that those before it leave.
  pub run-accepts :
      (requests : List (Request P)) (app : App F)
      → IsUnlocked app
      → has_returned (run requests app).0
        ≡ accepts_all F app.config app.producer app.tx_pool (ledger app) requests
  run-accepts [] app free = unfold run in refl
  run-accepts (request ∷ rest) app free =
      let app' = (call request app).1 in
      has_returned-cons request rest app
      ∙ ap (λ b. b && has_returned (run rest app').0) (call-accepts request app free)
      ∙ ap (λ b. accepts_by app (ledger app) request && b)
          (run-accepts rest app' (call-Releases request app free).unlocked
            ∙ ap (λ l. accepts_all F app'.config app'.producer app'.tx_pool l rest)
                (ledger-call request app free)
            ∙ accepts_all-parts app app' _ rest (call-HasSameParts request app))
