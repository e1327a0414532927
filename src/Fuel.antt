-- ===== src/Fuel.antt =====
-- What the application calls of fuel-core, fuel-tx and tendermint, none of which is in the
-- repository: a parameter of the model. `World` is all that those libraries keep behind their
-- handles, such as the database and the transaction pool.
use fuelmint.Common.{ℕ, List, Option, Result}
use fuelmint.Common.Int.{ℤ}

pub record Fuel : Type 1 where
  pub Error : Type 0
  pub World : Type 0
  pub TxPool : Type 0  -- `fuel_core_txpool::service::SharedState`, a handle
  pub BlockProducer : Type 0  -- `BlockProducerAdapter`, a handle
  pub Tx : Type 0
  pub TxId : Type 0
  pub Inserted : Type 0
  pub Time : Type 0
  pub BlockHeight : Type 0
  pub Height : Type 0  -- `tendermint::block::Height`
  pub DbTransaction : Type 0
  -- what a `Config` holds
  pub SocketAddr : Type 0
  pub FilePath : Type 0
  pub DbType : Type 0
  pub ChainConfig : Type 0
  pub Trigger : Type 0
  pub TxPoolConfig : Type 0
  pub ExecutorConfig : Type 0
  pub ImporterConfig : Type 0
  pub Address : Type 0
  pub Secret : Type 0  -- `Secret<SecretKeyWrapper>`
  pub DaBlockHeight : Type 0
  pub Duration : Type 0
  -- the field of a `ChainConfig`
  pub block_gas_limit : ChainConfig → ℕ
  -- `Transaction::from_bytes`, `precompute`, `id` and `to_json`
  pub from_bytes : List ℕ → Result Error Tx
  pub precompute : Tx → Tx
  pub tx_id : Tx → TxId
  pub to_json : Tx → List ℕ
  -- the transaction pool
  pub insert : TxPool → List Tx → World → List (Result Error Inserted) × World
  pub remove_txs : TxPool → List TxId → World → World
  -- `BlockHeight::from` on a `u64`
  pub block_height_from : ℕ → BlockHeight
  -- The result of block production after `into`: the transactions that were skipped, each with its
  -- error, and the changes to the database that are not yet committed.
  pub produce_and_execute_block :
      BlockProducer
      → BlockHeight
      → Option Time
      → ℕ
      → World
      → Result Error (List (Tx × Error) × DbTransaction) × World
  pub commit : DbTransaction → World → Result Error (Unit {0}) × World
  -- `Height::try_from` on an `i64`
  pub height_try_from : ℤ → Result Error Height
