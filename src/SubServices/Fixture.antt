-- ===== src/SubServices/Fixture.antt =====
-- Parts for tests, over the chain of App/Fixture.antt and the web of GraphApi/Fixture.antt: handles
-- carry no data, and the genesis fails where the port 13 is free.
use fuelmint.Common.{ℕ, ok, err, Result, ◌==◌, if◌then◌else◌}
use fuelmint.App.Fixture.{chain}
use fuelmint.GraphApi.Fixture.{web}
use fuelmint.SubServices.Parts.{PartTypes, Parts}

abbrev pub part_types : PartTypes
part_types = record {
  Database = ℕ;
  Verifier = Unit;
  Importer = Unit;
  P2p = Unit;
  TxPoolService = Unit;
  TxPoolAdapter = Unit;
  Poa = Unit;
  TransactionParameters = ℕ;
  GasCosts = ℕ;
  SubService = ℕ;
  schema = record {
    Query = Unit;
    DapMutation = Unit;
    BlockMutation = Unit;
    TxStatusSubscription = Unit;
    default_query = tt;
    default_dap = tt;
    default_block = tt;
    default_tx_status = tt;
  };
}

abbrev genesis : ℕ → Result ℕ (Unit {0}) × ℕ
genesis w = if w == 13 then (err 14, w) else (ok tt, w)

abbrev pub parts : Parts chain part_types web
parts = record {
  new_verifier = λ _ _ _. tt;
  new_importer = λ _ _ _ _. tt;
  new_p2p = tt;
  new_txpool = λ _ _ _ _ w. (tt, w);
  txpool_shared = λ _. tt;
  new_txpool_adapter = λ _. tt;
  new_block_producer = λ _. tt;
  new_poa = tt;
  num_cpus = λ _. 8;
  build_with_ignore_name_conflicts = λ _ _ _ _. tt;
  init_schema = λ s _ _. s;
  schema_data = λ _ s. s;
  transaction_parameters = λ _. 0;
  gas_costs = λ _. 0;
  min_gas_price = λ c. c;
  max_tx = λ _. 4064;
  max_depth = λ _. 10;
  graphql_config = λ c. c.addr;
  boxed_database = λ _. tt;
  boxed_producer = λ _. tt;
  boxed_txpool = λ _. tt;
  boxed_poa = λ _. tt;
  graph_shared = λ t. record { bound_address = t.bound_address };
  graph_service = λ _. 1;
  txpool_service = λ _. 2;
  maybe_initialize_state = λ _ _. genesis;
}
