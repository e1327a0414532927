-- ===== src/State.antt =====
-- fuelmint/src/state.rs: the application state and the other records of that file. The types of
-- fuel-core and fuel-tx are parameters.
use fuelmint.Common.{ℕ, List, []}
use fuelmint.Common.Int.{ℤ, pos}

-- `State`; `block_height` is an `i64`.
pub record State : Type 0 where
  pub block_height : ℤ
  pub app_hash : List ℕ

-- `State::default`
abbrev pub default : State
default = record { block_height = pos 0; app_hash = [] }

pub record PreviousBlockInfo (Bytes32 DaBlockHeight : Type 0) : Type 0 where
  pub prev_root : Bytes32
  pub da_height : DaBlockHeight

pub record Balance (Address AssetId : Type 0) : Type 0 where
  pub owner : Address
  pub amount : ℕ  -- u64
  pub asset_id : AssetId

pub record ContractBalance (ContractId AssetId : Type 0) : Type 0 where
  pub contract : ContractId
  pub amount : ℕ  -- u64
  pub asset_id : AssetId
