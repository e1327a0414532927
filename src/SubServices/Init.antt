-- ===== src/SubServices/Init.antt =====
-- fuelmint/src/sub_services.rs: `init_sub_services`.
use fuelmint.Common.{ℕ, List, [], ◌∷◌, ok}
use fuelmint.Common.Exec.{returned}
use fuelmint.Common.Try.{Try, pure, ◌>>=◌}
use fuelmint.Fuel.{Fuel}
use fuelmint.Config.{Config}
use fuelmint.GraphApi.Web.{Web}
use fuelmint.GraphApi.Router.{new_service, NotInitializedTask}
use fuelmint.Client.Schema.{build_schema}
use fuelmint.SubServices.Parts.{
  PartTypes, Parts, Producer, SharedState, ExecutorAdapter, GraphQlConfig,
}

module _ {F : Fuel} {T : PartTypes} {W : Web} (P : Parts F T W) where
  -- The parts that are built with no call that can fail, by the names of their `let`s.
  abbrev pub executor : Config F → T.Database → ExecutorAdapter F T
  executor config database = record { relayer = record { database = database }; config = config }

  abbrev pub importer_adapter : Config F → T.Database → T.Importer
  importer_adapter config database =
      P.new_importer config.block_importer database (executor config database)
        (P.new_verifier config database (record { database = database }))

  -- the pool, which is made once and handed to all that use it
  abbrev pub txpool : Config F → T.Database → T.Importer → Try W.World W.Error T.TxPoolService
  txpool config database importer w =
      let (pool, w') = P.new_txpool config.txpool database importer P.new_p2p w in
      (returned (ok pool), w')

  -- `num_cpus::get()`
  abbrev pub num_cpus : Try W.World W.Error ℕ
  num_cpus w = (returned (ok (P.num_cpus w)), w)

  abbrev pub block_producer : Config F → T.Database → T.TxPoolService → ℕ → Producer F T
  block_producer config database pool max_dry_run_concurrency = record {
    config = config.block_producer;
    db = database;
    txpool = P.new_txpool_adapter (P.txpool_shared pool);
    executor = executor config database;
    relayer = record { zero_height = 0 };
    dry_run_semaphore = max_dry_run_concurrency;
  }

  abbrev pub graph_ql_config : Config F → GraphQlConfig F T
  graph_ql_config config = record {
    addr = config.addr;
    utxo_validation = config.utxo_validation;
    manual_blocks_enabled = config.manual_blocks_enabled;
    vm_backtrace = config.vm.backtrace;
    min_gas_price = P.min_gas_price config.txpool;
    max_tx = P.max_tx config.txpool;
    max_depth = P.max_depth config.txpool;
    transaction_parameters = P.transaction_parameters config.chain_conf;
    consensus_key = config.consensus_key;
  }

  abbrev pub schema : Config F → T.Database → W.SchemaBuilder
  schema config database = P.schema_data database (
      P.init_schema (build_schema P) (P.transaction_parameters config.chain_conf)
        (P.gas_costs config.chain_conf))

  -- the call of `new_service`
  abbrev pub graph_ql :
      Config F
      → T.Database
      → T.TxPoolService
      → F.BlockProducer
      → Try W.World W.Error (NotInitializedTask W)
  graph_ql config database pool producer_adapter =
      new_service (P.graphql_config (graph_ql_config config)) (P.boxed_database database)
        (schema config database) (P.boxed_producer producer_adapter)
        (P.boxed_txpool (P.new_txpool_adapter (P.txpool_shared pool))) (P.boxed_poa P.new_poa)

  -- what is returned; `FuelService` starts and stops the services in this order
  abbrev pub assembled :
      Config F
      → T.Importer
      → T.TxPoolService
      → F.BlockProducer
      → NotInitializedTask W
      → F.BlockProducer × List T.SubService × SharedState F T W
  assembled config importer pool producer_adapter task = (
    producer_adapter,
    P.graph_service task ∷ P.txpool_service pool ∷ [],
    record {
      txpool = P.txpool_shared pool;
      graph_ql = P.graph_shared task;
      block_importer = importer;
      config = config;
    },
  )

  unfoldable pub init_sub_services :
      Config F
      → T.Database
      → Try W.World W.Error (F.BlockProducer × List T.SubService × SharedState F T W)
  init_sub_services config database = do
    let importer = importer_adapter config database
    pool ← txpool config database importer
    max_dry_run_concurrency ← num_cpus
    let producer_adapter =
        P.new_block_producer (block_producer config database pool max_dry_run_concurrency)
    task ← graph_ql config database pool producer_adapter
    pure (assembled config importer pool producer_adapter task)
