-- ===== src/App/Messages.antt =====
-- fuelmint/src/types.rs: the struct `App`, and the requests and responses of `tendermint::abci` as
-- far as the application reads or builds them. `P` stands for the payloads that it never reads.
use fuelmint.Common.{ℕ, List}
use fuelmint.Common.Int.{ℤ}
use fuelmint.Common.Locks.{Mutex}
use fuelmint.Config.{Config}
use fuelmint.Fuel.{Fuel}
use fuelmint.State.{State}

-- `world` is no field of the struct: it is what the handles `producer` and `tx_pool` act on.
pub record App (F : Fuel) : Type 0 where
  pub config : Config F
  pub committed_state : Mutex State
  pub current_state : Mutex State
  pub producer : F.BlockProducer
  pub tx_pool : F.TxPool
  pub world : F.World

pub data Request (P : Type 0) : Type 0 where
  info : P → Request P
  deliver_tx : List ℕ → Request P
  end_block : ℤ → Request P
  commit : Request P
  query : P → Request P
  flush : Request P
  echo : P → Request P
  init_chain : P → Request P
  begin_block : P → Request P
  check_tx : P → Request P
  list_snapshots : Request P
  offer_snapshot : P → Request P
  load_snapshot_chunk : P → Request P
  apply_snapshot_chunk : P → Request P
  set_option : P → Request P

-- The value of `Default::default()` of a response, or of the fields that `..Default::default()` fills.
pub data Defaulted : Type 0 where
  defaulted : Defaulted

pub record InfoResponse (F : Fuel) : Type 0 where
  pub info_data : List ℕ
  pub version : List ℕ
  pub app_version : ℕ
  pub last_block_height : F.Height
  pub last_block_app_hash : List ℕ

pub record DeliverTxResponse : Type 0 where
  pub tx_data : List ℕ
  pub others : Defaulted

pub record CommitResponse : Type 0 where
  pub commit_data : List ℕ
  pub retain_height : ℕ

pub record SetOptionResponse : Type 0 where
  pub code : ℕ
  pub log : List ℕ
  pub info_text : List ℕ

pub data Response (F : Fuel) : Type 0 where
  info : InfoResponse F → Response F
  deliver_tx : DeliverTxResponse → Response F
  end_block : Defaulted → Response F
  commit : CommitResponse → Response F
  query : Defaulted → Response F
  flush : Response F
  echo : Defaulted → Response F
  init_chain : Defaulted → Response F
  begin_block : Defaulted → Response F
  check_tx : Defaulted → Response F
  list_snapshots : Defaulted → Response F
  offer_snapshot : Defaulted → Response F
  load_snapshot_chunk : Defaulted → Response F
  apply_snapshot_chunk : Defaulted → Response F
  set_option : SetOptionResponse → Response F
