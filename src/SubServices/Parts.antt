-- ===== src/SubServices/Parts.antt =====
-- The records that `init_sub_services` fills in, and what it calls of fuel-core to build the rest.
use fuelmint.Common.{ℕ, Bool, List, Option, Result}
use fuelmint.Fuel.{Fuel}
use fuelmint.Config.{Config, ProducerConfig}
use fuelmint.GraphApi.Web.{Web}
use fuelmint.GraphApi.Router as GraphApi
use fuelmint.GraphApi.Router.{NotInitializedTask}
use fuelmint.App.Relayer.{EmptyRelayer}
use fuelmint.Client.Merged.{SchemaTypes, Mutation, Subscription}

-- The types of the parts that fuel-core builds: `Database`, `TxPool` and the others are handles.
pub record PartTypes : Type 1 where
  pub Database : Type 0
  pub Verifier : Type 0
  pub Importer : Type 0
  pub P2p : Type 0
  pub TxPoolService : Type 0
  pub TxPoolAdapter : Type 0
  pub Poa : Type 0
  pub TransactionParameters : Type 0
  pub GasCosts : Type 0
  pub SubService : Type 0  -- `Box<dyn ServiceTrait>`
  pub schema : SchemaTypes

pub record MaybeRelayerAdapter (T : PartTypes) : Type 0 where
  pub database : T.Database

pub record ExecutorAdapter (F : Fuel) (T : PartTypes) : Type 0 where
  pub relayer : MaybeRelayerAdapter T
  pub config : Config F

-- `fuel_core::producer::Producer`; the field `lock` holds no data.
pub record Producer (F : Fuel) (T : PartTypes) : Type 0 where
  pub config : ProducerConfig F
  pub db : T.Database
  pub txpool : T.TxPoolAdapter
  pub executor : ExecutorAdapter F T
  pub relayer : EmptyRelayer
  pub dry_run_semaphore : ℕ

-- `fuel_core_graphql_api::Config`
pub record GraphQlConfig (F : Fuel) (T : PartTypes) : Type 0 where
  pub addr : F.SocketAddr
  pub utxo_validation : Bool
  pub manual_blocks_enabled : Bool
  pub vm_backtrace : Bool
  pub min_gas_price : ℕ
  pub max_tx : ℕ
  pub max_depth : ℕ
  pub transaction_parameters : T.TransactionParameters
  pub consensus_key : Option F.Secret

-- `SharedState` of fuelmint/src/service.rs
pub record SharedState (F : Fuel) (T : PartTypes) (W : Web) : Type 0 where
  pub txpool : F.TxPool
  pub graph_ql : GraphApi.SharedState W
  pub block_importer : T.Importer
  pub config : Config F

pub record Parts (F : Fuel) (T : PartTypes) (W : Web) : Type 0 where
  -- the constructors of the adapters and services
  pub new_verifier : Config F → T.Database → MaybeRelayerAdapter T → T.Verifier
  pub new_importer : F.ImporterConfig → T.Database → ExecutorAdapter F T → T.Verifier → T.Importer
  pub new_p2p : T.P2p
  -- `fuel_core_txpool::new_service`: each call makes a pool of its own
  pub new_txpool :
      F.TxPoolConfig → T.Database → T.Importer → T.P2p → W.World → T.TxPoolService × W.World
  pub txpool_shared : T.TxPoolService → F.TxPool  -- the field `shared`
  pub new_txpool_adapter : F.TxPool → T.TxPoolAdapter
  pub new_block_producer : Producer F T → F.BlockProducer
  pub new_poa : T.Poa  -- of no coordinator
  pub num_cpus : W.World → ℕ
  -- the schema: `Schema::build_with_ignore_name_conflicts`, `init` of fuel-core, and `data`
  pub build_with_ignore_name_conflicts :
      T.schema.Query → Mutation T.schema → Subscription T.schema → List (List ℕ) → W.SchemaBuilder
  pub init_schema : W.SchemaBuilder → T.TransactionParameters → T.GasCosts → W.SchemaBuilder
  pub schema_data : T.Database → W.SchemaBuilder → W.SchemaBuilder
  -- fields of the configurations
  pub transaction_parameters : F.ChainConfig → T.TransactionParameters
  pub gas_costs : F.ChainConfig → T.GasCosts
  pub min_gas_price : F.TxPoolConfig → ℕ
  pub max_tx : F.TxPoolConfig → ℕ
  pub max_depth : F.TxPoolConfig → ℕ
  -- what the GraphQL service is handed, boxed
  pub graphql_config : GraphQlConfig F T → W.Config
  pub boxed_database : T.Database → W.Database
  pub boxed_producer : F.BlockProducer → W.Producer
  pub boxed_txpool : T.TxPoolAdapter → W.TxPool
  pub boxed_poa : T.Poa → W.ConsensusModule
  -- `ServiceRunner::new(task).shared`, and the services behind `dyn ServiceTrait`
  pub graph_shared : NotInitializedTask W → GraphApi.SharedState W
  pub graph_service : NotInitializedTask W → T.SubService
  pub txpool_service : T.TxPoolService → T.SubService
  -- `genesis::maybe_initialize_state`
  pub maybe_initialize_state : Config F → T.Database → W.World → Result W.Error (Unit {0}) × W.World
