-- ===== src/Client/Merged.antt =====
-- fuelmint/src/client/schema.rs: the types that the schema merges, and their `Default`.
-- `TxMutation` of fuelmint/src/client/tx.rs takes the place of fuel-core's own.

-- the types of fuel-core that are merged with it, each with its `Default`
pub record SchemaTypes : Type 1 where
  pub Query : Type 0
  pub DapMutation : Type 0
  pub BlockMutation : Type 0
  pub TxStatusSubscription : Type 0
  pub default_query : Query
  pub default_dap : DapMutation
  pub default_block : BlockMutation
  pub default_tx_status : TxStatusSubscription

-- `TxMutation`, which holds nothing
pub data TxMutation : Type 0 where
  tx_mutation : TxMutation

pub record Mutation (S : SchemaTypes) : Type 0 where
  pub dap : S.DapMutation
  pub tx : TxMutation
  pub block : S.BlockMutation

pub record Subscription (S : SchemaTypes) : Type 0 where
  pub tx_status : S.TxStatusSubscription

module _ (S : SchemaTypes) where
  -- what `#[derive(Default)]` writes
  abbrev pub default_mutation : Mutation S
  default_mutation = record { dap = S.default_dap; tx = tx_mutation; block = S.default_block }

  abbrev pub default_subscription : Subscription S
  default_subscription = record { tx_status = S.default_tx_status }
