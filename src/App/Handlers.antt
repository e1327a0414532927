-- ===== src/App/Handlers.antt =====
-- fuelmint/src/types.rs: `App::new` and the four handlers. `unwrap` is a panic at an error, an
-- `await` of a lock is `with_lock`, and everything else runs in the order of the source.
use fuelmint.Common.{ℕ, List, [], ◌∷◌, Result, ok, err, none, text}
use fuelmint.Common.Int.{ℤ, as_u64}
use fuelmint.Common.Locks
use fuelmint.Common.Locks.{Mutex, with_lock}
use fuelmint.Common.Exec.{
  Exec, returned, pure, unwrap, ◌>>=◌, ◌>>◌, height_try_from, from_bytes, insert_tx, produce_block,
  commit_block,
}
use fuelmint.Config.{Config}
use fuelmint.Fuel.{Fuel}
use fuelmint.State.{State}
use fuelmint.App.Messages.{
  App, defaulted, Defaulted, InfoResponse, DeliverTxResponse, CommitResponse,
}

-- `itertools::try_collect` into a `Result` of a list: the first error, or all the values.
abbrev pub try_collect {ℓ κ} : {E : Type ℓ} {A : Type κ} → List (Result E A) → Result E (List A)
try_collect [] = ok []
try_collect (err e ∷ rs) = err e
try_collect (ok a ∷ rs) = elim (try_collect rs) [ ok rest ↦ ok (a ∷ rest) | err e ↦ err e ]

-- the loop over `skipped_transactions`
abbrev pub tx_ids_to_remove : (F : Fuel) → List (F.Tx × F.Error) → List F.TxId
tx_ids_to_remove F [] = []
tx_ids_to_remove F ((tx, _) ∷ skipped) = F.tx_id tx ∷ tx_ids_to_remove F skipped

module _ {F : Fuel} where
  abbrev pub with_current {ℓ} : {A : Type ℓ} → Exec (App F) A → Exec (App F) A
  with_current = with_lock (λ s. s.current_state) (λ m s. record s { current_state = m })

  abbrev pub with_committed {ℓ} : {A : Type ℓ} → Exec (App F) A → Exec (App F) A
  with_committed = with_lock (λ s. s.committed_state) (λ m s. record s { committed_state = m })

  -- a call of a library, which changes the world only
  abbrev pub on_world {ℓ} : {A : Type ℓ} → (F.World → A × F.World) → Exec (App F) A
  on_world f s = let (a, w) = f s.world in (returned a, record s { world = w })

  abbrev pub gets {ℓ} : {A : Type ℓ} → (App F → A) → Exec (App F) A
  gets f s = (returned (f s), s)

  unfoldable pub new : Config F → State → F.BlockProducer → F.TxPool → F.World → App F
  new config state producer tx_pool world = record {
    config = config;
    committed_state = Locks.new state;
    current_state = Locks.new state;
    producer = producer;
    tx_pool = tx_pool;
    world = world;
  }

  unfoldable pub info : Exec (App F) (InfoResponse F)
  info = with_current do
    state ← gets (λ s. s.current_state.value)
    height ← unwrap height_try_from (F.height_try_from state.block_height)
    pure (record {
      info_data = text "fuelmint";
      version = text "0.1.0";
      app_version = 1;
      last_block_height = height;
      last_block_app_hash = state.app_hash;
    })

  unfoldable pub deliver_tx : List ℕ → Exec (App F) DeliverTxResponse
  deliver_tx request = do
    tx_pool ← gets (λ s. s.tx_pool)
    decoded ← unwrap from_bytes (F.from_bytes request)
    let tx = F.precompute decoded
    results ← on_world (F.insert tx_pool (tx ∷ []))
    _ ← unwrap insert_tx (try_collect results)
    pure (record { tx_data = F.to_json tx; others = defaulted })

  -- `current_state.block_height = height`, under the lock
  abbrev pub set_block_height : ℤ → Exec (App F) (Unit {0})
  set_block_height height s =
      let state = record s.current_state.value { block_height = height } in
      (returned tt, record s { current_state = Locks.write state s.current_state })

  unfoldable pub end_block : ℤ → Exec (App F) Defaulted
  end_block request_height = with_current do
    set_block_height request_height
    app ← gets (λ s. s)
    let height = F.block_height_from (as_u64 app.current_state.value.block_height)
    produced ← on_world (
        F.produce_and_execute_block app.producer height none
          (F.block_gas_limit app.config.chain_conf))
    (skipped, db_transaction) ← unwrap produce_block produced
    committed ← on_world (F.commit db_transaction)
    unwrap commit_block committed
    on_world (λ w. (tt, F.remove_txs app.tx_pool (tx_ids_to_remove F skipped) w))
    pure defaulted

  -- `*committed_state = current_state`
  abbrev pub write_committed : State → Exec (App F) (Unit {0})
  write_committed state s =
      (returned tt, record s { committed_state = Locks.write state s.committed_state })

  -- The guard of `current_state` is dropped at the end of its statement, before the second lock.
  unfoldable pub commit : Exec (App F) CommitResponse
  commit = do
    current_state ← with_current (gets (λ s. s.current_state.value))
    with_committed (write_committed current_state)
    pure (record { commit_data = []; retain_height = 0 })
