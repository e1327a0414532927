-- ===== src/GraphApi/Router.antt =====
-- fuelmint/src/graph_api.rs: `new_service` and the handlers of its routes.
use fuelmint.Common.{ℕ, List, [], ◌∷◌, Option, none, some, Bool, true, Result, ok, text}
use fuelmint.Common.Exec
use fuelmint.Common.Exec.{Exec, returned, route_panics, json_panics, unwrap}
use fuelmint.Common.Try.{Try, pure, call, or_panic, ◌>>=◌}
use fuelmint.GraphApi.Web.{
  Web, MethodRouter, get, post, options, graphql_playground, graphql_handler,
  graphql_subscription_handler, metrics, health, accept, allow_origin, allow_methods, allow_headers,
}

-- `NotInitializedTask::NAME`
abbrev pub service_name : List ℕ
service_name = text "GraphQL"

pub record NotInitializedTask (W : Web) : Type 0 where
  pub router : W.Router
  pub listener : W.Listener
  pub bound_address : W.SocketAddr

-- `fuel_core_graphql_api::service::SharedState`
pub record SharedState (W : Web) : Type 0 where
  pub bound_address : W.SocketAddr

-- `.get`, `.post` and `.options` of a route, by path and in the order of registration
abbrev pub routes : List (List ℕ × MethodRouter)
routes =
    (text "/playground", (get, graphql_playground) ∷ [])
    ∷ (text "/graphql", (post, graphql_handler) ∷ (options, accept) ∷ [])
    ∷ (text "/graphql-sub", (post, graphql_subscription_handler) ∷ (options, accept) ∷ [])
    ∷ (text "/metrics", (get, metrics) ∷ [])
    ∷ (text "/health", (get, health) ∷ [])
    ∷ []

module _ (W : Web) where
  -- `.data(…)` and `.extension(…)` in a row, and `.finish()`
  abbrev pub finished :
      W.Config → W.Database → W.SchemaBuilder → W.Producer → W.TxPool → W.ConsensusModule → W.Schema
  finished config database schema producer txpool consensus_module = W.finish (
      W.extension_tracing (
        W.data_consensus consensus_module (
          W.data_txpool txpool
            (W.data_producer producer (W.data_database database (W.data_config config schema))))))

  -- `.route(…)` in a row
  abbrev pub add_routes : List (List ℕ × MethodRouter) → W.Router → Option W.Router
  add_routes [] r = some r
  add_routes ((path, handlers) ∷ rest) r = elim (W.route path handlers r) [
    | none ↦ none
    | some r' ↦ add_routes rest r'
  ]

  -- `.layer(…)` in a row, from the innermost to the outermost
  abbrev pub add_layers : W.Schema → W.Router → W.Router
  add_layers schema r = W.layer_no_body_limit (
      W.layer_header allow_headers (text "*") (
        W.layer_header allow_methods (text "*")
          (W.layer_header allow_origin (text "*") (W.layer_trace (W.layer_schema schema r)))))

module _ {W : Web} where
  unfoldable pub new_service :
      W.Config
      → W.Database
      → W.SchemaBuilder
      → W.Producer
      → W.TxPool
      → W.ConsensusModule
      → Try W.World W.Error (NotInitializedTask W)
  new_service config database schema producer txpool consensus_module = do
    let network_addr = W.addr config
    let built = finished W config database schema producer txpool consensus_module
    routed ← or_panic route_panics (add_routes W routes W.empty_router)
    let router = add_layers W built routed
    listener ← call (W.bind network_addr)
    bound_address ← call (W.local_addr listener)
    pure (record { router = router; listener = listener; bound_address = bound_address })

  -- `NotInitializedTask::shared_data`
  unfoldable pub shared_data : NotInitializedTask W → SharedState W
  shared_data task = record { bound_address = task.bound_address }

module _ (W : Web) where
  -- the function `graphql_playground`
  unfoldable pub playground_page : W.Html
  playground_page = W.playground_source (text "/graphql")

  -- the function `graphql_handler`
  unfoldable pub handle_graphql : W.Schema → W.Request → Exec W.World W.Response
  handle_graphql schema req s = let (r, s') = W.execute schema req s in (returned r, s')

  abbrev pub events : List W.Response → Exec W.World (List W.Event)
  events [] s = (returned [], s)
  events (r ∷ rs) s =
      Exec.◌>>=◌ (unwrap json_panics (W.json_data r))
        (λ e. Exec.◌>>=◌ (events rs) λ es. Exec.pure (e ∷ es)) s

  -- the function `graphql_subscription_handler`, on the responses that the stream has given so far
  unfoldable pub handle_subscription : W.Schema → W.Request → Exec W.World (List W.Event)
  handle_subscription schema req s = let (rs, s') = W.execute_stream schema req s in events rs s'

-- the body of `health`, `{ "up": true }`
abbrev pub health_body : List (List ℕ × Bool)
health_body = (text "up", true) ∷ []

-- the function `ok`
abbrev pub accept_all {ℓ} : {E : Type ℓ} → Result E (Unit {0})
accept_all = ok tt
