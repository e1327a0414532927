-- ===== src/SubServices/Wiring.antt =====
-- How `init_sub_services` ties the parts together.
use fuelmint.Common.{List, [], ◌∷◌, Result, ok, err, ◌≡◌, refl}
use fuelmint.Common.Exec.{Outcome, returned}
use fuelmint.Fuel.{Fuel}
use fuelmint.Config.{Config}
use fuelmint.GraphApi.Web.{Web}
use fuelmint.GraphApi.Router.{NotInitializedTask, new_service, shared_data}
use fuelmint.GraphApi.Routes.{
  AddsNewRoutes, Creates, not_bound, no_address, created, new_service-Creates,
}
use fuelmint.Client.Schema.{build_schema}
use fuelmint.SubServices.Parts.{PartTypes, Parts, Producer, GraphQlConfig, SharedState}
use fuelmint.SubServices.Init.{
  init_sub_services, graph_ql_config, importer_adapter, schema, block_producer, assembled, graph_ql,
}

module _ {F : Fuel} {T : PartTypes} {W : Web} (P : Parts F T W) where
  -- The GraphQL service is configured by the configuration of the node.
  pub record IsConfigured (config : Config F) (graph : GraphQlConfig F T) : Type 0 where
    pub addr : graph.addr ≡ config.addr
    pub utxo_validation : graph.utxo_validation ≡ config.utxo_validation
    pub manual_blocks_enabled : graph.manual_blocks_enabled ≡ config.manual_blocks_enabled
    pub vm_backtrace : graph.vm_backtrace ≡ config.vm.backtrace
    pub min_gas_price : graph.min_gas_price ≡ P.min_gas_price config.txpool
    pub max_tx : graph.max_tx ≡ P.max_tx config.txpool
    pub max_depth : graph.max_depth ≡ P.max_depth config.txpool
    pub transaction_parameters :
        graph.transaction_parameters ≡ P.transaction_parameters config.chain_conf
    pub consensus_key : graph.consensus_key ≡ config.consensus_key

  -- The producer works by the configuration, on the database and the pool, with a semaphore of
  -- as many permits as there are processors.
  pub record IsProducer (config : Config F) (database : T.Database) (pool : T.TxPoolService)
      (w : W.World) (producer : Producer F T) : Type 0 where
    pub by_config : producer.config ≡ config.block_producer
    pub on_database : producer.db ≡ database
    pub from_pool : producer.txpool ≡ P.new_txpool_adapter (P.txpool_shared pool)
    pub executes_by_config : producer.executor.config ≡ config
    pub executes_on_database : producer.executor.relayer.database ≡ database
    pub no_relayer : producer.relayer.zero_height ≡ 0
    pub dry_runs : producer.dry_run_semaphore ≡ P.num_cpus w

  -- What `init_sub_services` has made from `w` to `end`: one pool, which the producer, the GraphQL
  -- service, the services and the shared state use, over one database and one configuration.
  pub record IsWired (config : Config F) (database : T.Database) (w end : W.World)
      (r : F.BlockProducer × List T.SubService × SharedState F T W) : Type 0 where
    pub producer : Producer F T
    pub pool : T.TxPoolService
    pub pooled : W.World
    pub graph_config : GraphQlConfig F T
    pub graph_ql : NotInitializedTask W
    pub makes_pool :
        P.new_txpool config.txpool database r.2.block_importer P.new_p2p w ≡ (pool, pooled)
    pub imports :
        r.2.block_importer
        ≡ P.new_importer config.block_importer database producer.executor
            (P.new_verifier config database producer.executor.relayer)
    pub adapts_producer : r.0 ≡ P.new_block_producer producer
    pub produces : IsProducer config database pool pooled producer
    pub configures : IsConfigured config graph_config
    pub makes_graph_ql :
        new_service {W = W}
          (P.graphql_config graph_config)
          (P.boxed_database database)
          (P.schema_data database (
            P.init_schema
              (build_schema P)
              (P.transaction_parameters config.chain_conf)
              (P.gas_costs config.chain_conf)))
          (P.boxed_producer r.0)
          (P.boxed_txpool (P.new_txpool_adapter (P.txpool_shared pool)))
          (P.boxed_poa P.new_poa)
          pooled
        ≡ (returned (ok graph_ql), end)
    pub shares_pool : r.2.txpool ≡ P.txpool_shared pool
    pub shares_address : r.2.graph_ql ≡ shared_data graph_ql
    pub shares_config : r.2.config ≡ config
    pub in_order : r.1 ≡ P.graph_service graph_ql ∷ P.txpool_service pool ∷ []

  -- The socket of the configured address, in the world in which the pool has been made, gives `e`:
  -- at `bind`, or at `local_addr`.
  pub data SocketFails (config : Config F) (database : T.Database) (w : W.World) (e : W.Error)
      (w' : W.World) : Type 0 where
    at_bind :
        (importer : T.Importer) (pool : T.TxPoolService) (pooled : W.World)
        (graph_config : GraphQlConfig F T)
        → P.new_txpool config.txpool database importer P.new_p2p w ≡ (pool, pooled)
        → graph_config.addr ≡ config.addr
        → W.bind (W.addr (P.graphql_config graph_config)) pooled ≡ (err e, w')
        → SocketFails config database w e w'
    at_local_addr :
        (importer : T.Importer) (pool : T.TxPoolService) (pooled bound : W.World)
        (graph_config : GraphQlConfig F T) (listener : W.Listener)
        → P.new_txpool config.txpool database importer P.new_p2p w ≡ (pool, pooled)
        → graph_config.addr ≡ config.addr
        → W.bind (W.addr (P.graphql_config graph_config)) pooled ≡ (ok listener, bound)
        → W.local_addr listener bound ≡ (err e, w')
        → SocketFails config database w e w'

  -- What `init_sub_services` may do from `w`: hand on an error of the socket, or come back with wired
  -- parts whose address is the one that the socket says.
  pub data Inits (config : Config F) (database : T.Database) (w : W.World)
      (r : Outcome (Result W.Error (F.BlockProducer × List T.SubService × SharedState F T W))
        × W.World)
      : Type 0 where
    failed :
        (e : W.Error) (w' : W.World)
        → SocketFails config database w e w'
        → r ≡ (returned (err e), w')
        → Inits config database w r
    done :
        (listener : W.Listener) (w' w'' : W.World)
        (parts : F.BlockProducer × List T.SubService × SharedState F T W)
        → W.local_addr listener w' ≡ (ok parts.2.graph_ql.bound_address, w'')
        → IsWired config database w w'' parts
        → r ≡ (returned (ok parts), w'')
        → Inits config database w r

  module _ (law : AddsNewRoutes W)
      (shares : (task : NotInitializedTask W) → P.graph_shared task ≡ shared_data task) where
    -- If axum takes every new path, and a runner shares what its task shares, `init_sub_services`
    -- does one of these two things; it never panics.
    pub init_sub_services-Inits :
        (config : Config F) (database : T.Database) (w : W.World)
        → Inits config database w (init_sub_services P config database w)
    unfolding init_sub_services
    init_sub_services-Inits config database w = outcome (
        new_service-Creates law (P.graphql_config (graph_ql_config P config))
          (P.boxed_database database) (schema P config database) (P.boxed_producer adapter)
          (P.boxed_txpool (P.new_txpool_adapter (P.txpool_shared pool))) (P.boxed_poa P.new_poa)
          pooled)
      where
        importer : T.Importer
        importer = importer_adapter P config database

        pool : T.TxPoolService
        pool = (P.new_txpool config.txpool database importer P.new_p2p w).0

        pooled : W.World
        pooled = (P.new_txpool config.txpool database importer P.new_p2p w).1

        producer : Producer F T
        producer = block_producer P config database pool (P.num_cpus pooled)

        adapter : F.BlockProducer
        adapter = P.new_block_producer producer

        outcome :
            Creates W
              (P.graphql_config (graph_ql_config P config))
              pooled
              (graph_ql P config database pool adapter pooled)
            → Inits config database w (init_sub_services P config database w)
        outcome (not_bound e w' bad d) =
            failed e w' (at_bind importer pool pooled (graph_ql_config P config) refl refl bad)
              (rw d)
        outcome (no_address listener e w' w'' good bad d) =
            failed e w''
              (at_local_addr importer pool pooled w' (graph_ql_config P config) listener refl refl
                good bad)
              (rw d)
        outcome (created listener address task w' w'' _ found _ bound d) =
            done listener w' w'' (assembled P config importer pool adapter task)
              (rw (shares task, bound) found)
              (record {
                producer = producer;
                pool = pool;
                pooled = pooled;
                graph_config = graph_ql_config P config;
                graph_ql = task;
                makes_pool = refl;
                imports = refl;
                adapts_producer = refl;
                produces = record {
                  by_config = refl;
                  on_database = refl;
                  from_pool = refl;
                  executes_by_config = refl;
                  executes_on_database = refl;
                  no_relayer = refl;
                  dry_runs = refl;
                };
                configures = record {
                  addr = refl;
                  utxo_validation = refl;
                  manual_blocks_enabled = refl;
                  vm_backtrace = refl;
                  min_gas_price = refl;
                  max_tx = refl;
                  max_depth = refl;
                  transaction_parameters = refl;
                  consensus_key = refl;
                };
                makes_graph_ql = d;
                shares_pool = refl;
                shares_address = shares task;
                shares_config = refl;
                in_order = refl;
              })
              (rw d)
