-- ===== src/GraphApi/Web.antt =====
-- What fuelmint/src/graph_api.rs calls of other crates, and the data that it hands them.
use fuelmint.Common.{ℕ, List, Bool, Option, Result}
use fuelmint.Common.Exec.{Outcome}

-- The HTTP methods, the handlers of the file (with `metrics` of fuel-core), and a route's table.
pub data Method : Type 0 where
  get post options : Method

pub data Endpoint : Type 0 where
  graphql_playground graphql_handler graphql_subscription_handler metrics health accept : Endpoint

abbrev pub MethodRouter : Type 0
MethodRouter = List (Method × Endpoint)

pub data HeaderName : Type 0 where
  allow_origin allow_methods allow_headers : HeaderName

pub record Web : Type 1 where
  pub Error : Type 0
  pub World : Type 0
  pub SocketAddr : Type 0
  pub Config : Type 0  -- `fuel_core_graphql_api::Config`
  pub Database : Type 0
  pub Producer : Type 0
  pub TxPool : Type 0
  pub ConsensusModule : Type 0
  pub SchemaBuilder : Type 0
  pub Schema : Type 0
  pub Router : Type 0
  pub Listener : Type 0
  pub ServerBuilder : Type 0
  pub Server : Type 0
  pub Request : Type 0
  pub Response : Type 0
  pub Event : Type 0
  pub Html : Type 0
  pub LifeState : Type 0  -- `fuel_core_services::State`
  -- the field `addr` of the configuration
  pub addr : Config → SocketAddr
  -- `data` and `extension` of a schema's builder, and `finish`
  pub data_config : Config → SchemaBuilder → SchemaBuilder
  pub data_database : Database → SchemaBuilder → SchemaBuilder
  pub data_producer : Producer → SchemaBuilder → SchemaBuilder
  pub data_txpool : TxPool → SchemaBuilder → SchemaBuilder
  pub data_consensus : ConsensusModule → SchemaBuilder → SchemaBuilder
  pub extension_tracing : SchemaBuilder → SchemaBuilder
  pub finish : SchemaBuilder → Schema
  -- axum; `route` is `none` where axum panics
  pub empty_router : Router
  pub route : List ℕ → MethodRouter → Router → Option Router
  pub layer_schema : Schema → Router → Router
  pub layer_trace : Router → Router
  pub layer_header : HeaderName → List ℕ → Router → Router
  pub layer_no_body_limit : Router → Router
  -- sockets
  pub bind : SocketAddr → World → Result Error Listener × World
  pub local_addr : Listener → World → Result Error SocketAddr × World
  -- hyper; the last argument of `serve` is the future whose end starts the graceful shutdown, as a
  -- function of the changes of the service's state that it will see
  pub from_tcp : Listener → Result Error ServerBuilder
  pub serve : ServerBuilder → Router → (List (Option LifeState) → Outcome (Unit {0})) → Server
  pub await_server : Server → World → Result Error (Unit {0}) × World
  -- `State::started`
  pub started : LifeState → Bool
  -- async-graphql and serde
  pub playground_source : List ℕ → Html
  pub execute : Schema → Request → World → Response × World
  pub execute_stream : Schema → Request → World → List Response × World
  pub json_data : Response → Result Error Event
