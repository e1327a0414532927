-- ===== src/Config.antt =====
-- The configuration record of fuel-core, with the fields that fuelmint/src/bin/fuelmint.rs fills in
-- and the other files read.
use fuelmint.Common.{Bool, Option, List, ℕ}
use fuelmint.Fuel.{Fuel}

pub record VmConfig : Type 0 where
  pub backtrace : Bool

pub record ProducerConfig (F : Fuel) : Type 0 where
  pub utxo_validation : Bool
  pub coinbase_recipient : F.Address
  pub metrics : Bool

pub record RelayerVerifierConfig (F : Fuel) : Type 0 where
  pub max_da_lag : F.DaBlockHeight
  pub max_wait_time : F.Duration

pub record Config (F : Fuel) : Type 0 where
  pub addr : F.SocketAddr
  pub database_path : F.FilePath
  pub database_type : F.DbType
  pub chain_conf : F.ChainConfig
  pub utxo_validation : Bool
  pub manual_blocks_enabled : Bool
  pub block_production : F.Trigger
  pub vm : VmConfig
  pub txpool : F.TxPoolConfig
  pub block_producer : ProducerConfig F
  pub block_executor : F.ExecutorConfig
  pub block_importer : F.ImporterConfig
  pub consensus_key : Option F.Secret
  pub name : List ℕ
  pub verifier : RelayerVerifierConfig F
