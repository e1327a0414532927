-- ===== src/Bin/Cli.antt =====
-- The struct `Command`, and what fuelmint/src/bin/fuelmint.rs calls of other crates to read it.
use fuelmint.Common.{ℕ, List, Bool, Option, Result}
use fuelmint.Fuel.{Fuel}

pub record Cli (F : Fuel) : Type 1 where
  pub Error : Type 0
  pub IpAddr : Type 0
  pub SecretKey : Type 0
  -- `SocketAddr::new`
  pub socket_addr : IpAddr → ℕ → F.SocketAddr
  -- `parse` into a `ChainConfig`, `SecretKey::from_str` and `Address::from_str`
  pub parse_chain_config : List ℕ → Result Error F.ChainConfig
  pub parse_secret_key : List ℕ → Result Error SecretKey
  pub parse_address : List ℕ → Result Error F.Address
  pub parse_duration : List ℕ → Result Error F.Duration
  pub never : F.Trigger
  pub default_consensus_dev_key : SecretKey
  -- `Secret::new(key.into())`, and `Secret::new(SecretKeyWrapper::default())`
  pub secret_of : SecretKey → F.Secret
  pub default_secret : F.Secret
  -- `Address::from(*sk.public_key().hash())` of the exposed secret
  pub address_of : F.Secret → F.Address
  pub da_block_height : ℕ → F.DaBlockHeight
  pub new_txpool_config : F.ChainConfig → ℕ → Bool → F.TxPoolConfig
  pub default_executor : F.ExecutorConfig
  pub default_importer : F.ImporterConfig

pub record Command {F : Fuel} (C : Cli F) : Type 0 where
  pub ip : C.IpAddr
  pub port : ℕ  -- u16
  pub abci_port : ℕ  -- u16
  pub database_path : F.FilePath
  pub database_type : F.DbType
  pub chain_config : List ℕ
  pub manual_blocks_enabled : Bool
  pub vm_backtrace : Bool
  pub utxo_validation : Bool
  pub min_gas_price : ℕ  -- u64
  pub consensus_key : Option (List ℕ)
  pub consensus_dev_key : Bool
  pub coinbase_recipient : Option (List ℕ)
  pub metrics : Bool
