-- ===== src/Bin/Tests.antt =====
-- The start of the node on the libraries of the other fixtures.
use fuelmint.Common.{ℕ, List, [], ◌∷◌, none, true, false, ok, err, Result, ◌≡◌, refl, text}
use fuelmint.Common.Exec.{Outcome, Panic, returned, panicked, blocked}
use fuelmint.App.Fixture.{chain}
use fuelmint.GraphApi.Fixture.{web, web-AddsNewRoutes}
use fuelmint.GraphApi.Router as GraphApi
use fuelmint.GraphApi.Router.{NotInitializedTask}
use fuelmint.SubServices.Fixture.{part_types, parts}
use fuelmint.Service.Task.{Task}
use fuelmint.Service.Fixture.{runners}
use fuelmint.App.Handlers
use fuelmint.Service.Task
use fuelmint.Service.Node.{new}
use fuelmint.SubServices.Init.{init_sub_services}
use fuelmint.GraphApi.Router.{new_service}
use fuelmint.Bin.Cli.{Cli, Command}
use fuelmint.Bin.Configure.{Env, get_config, insecure_dev_key}
use fuelmint.Bin.Boot.{Host, prepare, Booted}
use fuelmint.Bin.Start.{Boots, prepare-Boots}
use fuelmint.Bin.Ending.{Joins, Ends, services_then_select, services-Ends}

-- A text that is not empty parses, to its first character.
abbrev first : List ℕ → Result ℕ ℕ
first [] = err 1
first (c ∷ _) = ok c

abbrev pub cli : Cli chain
cli = record {
  Error = ℕ;
  IpAddr = ℕ;
  SecretKey = ℕ;
  socket_addr = λ _ port. port;
  parse_chain_config = first;
  parse_secret_key = first;
  parse_address = first;
  parse_duration = first;
  never = 0;
  default_consensus_dev_key = 77;
  secret_of = λ k. k;
  default_secret = 0;
  address_of = λ k. k;
  da_block_height = λ n. n;
  new_txpool_config = λ _ price _. price;
  default_executor = tt;
  default_importer = tt;
}

abbrev pub command : Command cli
command = record {
  ip = 127;
  port = 4000;
  abci_port = 26658;
  database_path = text "db";
  database_type = 0;
  chain_config = text "local_testnet";
  manual_blocks_enabled = false;
  vm_backtrace = false;
  utxo_validation = false;
  min_gas_price = 0;
  consensus_key = none;
  consensus_dev_key = true;
  coinbase_recipient = none;
  metrics = false;
}

abbrev pub no_env : Env
no_env _ = none

-- With neither an argument nor the environment, the development key is taken and warned of.
get_config_warns : (get_config cli no_env command []).1 ≡ insecure_dev_key ∷ []
unfolding get_config
get_config_warns = refl

abbrev pub host : Host cli part_types web
host = record {
  open_database = λ _ w. (ok 5, w);
  show_ip = λ ip. ip ∷ [];
  show_port = λ port. port ∷ [];
  fuel_world = λ _. record { pool = []; blocks = 3 ∷ [] };
}

pub graph_shares : (t : NotInitializedTask web) → parts.graph_shared t ≡ GraphApi.shared_data t
unfolding GraphApi.shared_data
graph_shares t = refl

pub runner_shares :
    (t : Task chain part_types web) → runners.runner_shared (runners.new_runner t) ≡ t.shared
runner_shares t = refl

prepare-Boots_example :
    Boots host parts runners no_env command 4000 (prepare host parts runners no_env command 4000)
prepare-Boots_example =
    prepare-Boots host parts runners no_env command web-AddsNewRoutes graph_shares runner_shares
      4000

unfoldable pub prepared :
    (b : Booted host parts runners) × (w : ℕ) × (prepare host parts runners no_env command 4000
      ≡ (returned b, w))
unfolding prepare get_config new init_sub_services new_service Task.new Handlers.new
prepared = (_, _, refl)

abbrev joined : Outcome (Unit {0}) → Result Panic (Unit {0})
joined (returned _) = ok tt
joined (panicked p) = err p
joined blocked = ok tt

abbrev tokio : Joins Panic
tokio = record { join = joined; join_returned = refl; join_panicked = λ p. (p, refl) }

services-Ends_example :
    Ends runners tokio ℕ prepared.0.server 4000
      (services_then_select runners tokio ℕ prepared.0.server 4000)
services-Ends_example = services-Ends runners tokio ℕ prepared.0.server 4000
