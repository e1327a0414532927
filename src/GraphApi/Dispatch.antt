-- ===== src/GraphApi/Dispatch.antt =====
-- What the router of the GraphQL service serves: the routes of the source, and nothing else.
use mathlib.Core.Path.{subst, fun_ext}
use fuelmint.Common.{
  text, false, refl, same, ℕ, List, [], ◌∷◌, Option, none, some, ok, err, ◌≡◌, ap, sym, ◌∙◌, inl,
  inr, Option-cases, Result-cases, if◌then◌else◌,
}
use fuelmint.Common.Exec.{returned, panicked, route_panics}
use fuelmint.GraphApi.Web.{
  Web, MethodRouter, HeaderName, get, post, options, graphql_playground, graphql_handler,
  graphql_subscription_handler, metrics, health, accept,
}
use fuelmint.GraphApi.Router.{
  NotInitializedTask, routes, add_routes, add_layers, finished, new_service,
}

-- What axum documents of a router: `route` gives a path that has no handlers its handlers and leaves
-- the other paths alone, and a layer leaves the paths as they are.
pub record Dispatches (W : Web) : Type 0 where
  pub at : W.Router → List ℕ → Option MethodRouter
  pub at_empty : (path : List ℕ) → at W.empty_router path ≡ none
  pub at_route :
      (path : List ℕ) (handlers : MethodRouter) (r : W.Router) {r' : W.Router}
      → at r path ≡ none
      → W.route path handlers r ≡ some r'
      → (asked : List ℕ) → at r' asked ≡ (if same asked path then some handlers else at r asked)
  pub at_schema : (schema : W.Schema) (r : W.Router) → at (W.layer_schema schema r) ≡ at r
  pub at_trace : (r : W.Router) → at (W.layer_trace r) ≡ at r
  pub at_header :
      (name : HeaderName) (value : List ℕ) (r : W.Router) → at (W.layer_header name value r) ≡ at r
  pub at_no_body_limit : (r : W.Router) → at (W.layer_no_body_limit r) ≡ at r

-- the handlers of a path in a table, where `before` are those that it has without the table
abbrev pub handlers_of :
    List ℕ → List (List ℕ × MethodRouter) → Option MethodRouter → Option MethodRouter
handlers_of asked [] before = before
handlers_of asked ((path, handlers) ∷ rest) before =
    handlers_of asked rest (if same asked path then some handlers else before)

-- The paths of a table have no handlers in `before`, nor by the routes that stand before them.
abbrev AllFresh : List (List ℕ × MethodRouter) → (List ℕ → Option MethodRouter) → Type 0
AllFresh [] before = Unit
AllFresh ((path, handlers) ∷ rest) before =
    (before path ≡ none)
    × AllFresh rest (λ asked. if same asked path then some handlers else before asked)

-- The handlers that a request for a path is served by: the table of graph_api.rs, path by path.
pub record ServesRoutes (at : List ℕ → Option MethodRouter) : Type 0 where
  pub playground : at (text "/playground") ≡ some ((get, graphql_playground) ∷ [])
  pub graphql : at (text "/graphql") ≡ some ((post, graphql_handler) ∷ (options, accept) ∷ [])
  pub subscriptions :
      at (text "/graphql-sub")
      ≡ some ((post, graphql_subscription_handler) ∷ (options, accept) ∷ [])
  pub metrics_page : at (text "/metrics") ≡ some ((get, metrics) ∷ [])
  pub health_page : at (text "/health") ≡ some ((get, health) ∷ [])
  pub no_other :
      (path : List ℕ)
      → same path (text "/playground") ≡ false
      → same path (text "/graphql") ≡ false
      → same path (text "/graphql-sub") ≡ false
      → same path (text "/metrics") ≡ false
      → same path (text "/health") ≡ false
      → at path ≡ none

routes-ServesRoutes : ServesRoutes (λ path. handlers_of path routes none)
routes-ServesRoutes = record {
  playground = refl;
  graphql = refl;
  subscriptions = refl;
  metrics_page = refl;
  health_page = refl;
  no_other = λ path a b c d e. rw (a, b, c, d, e);
}

module _ {W : Web} (law : Dispatches W) where
  add_routes-at :
      (table : List (List ℕ × MethodRouter)) (r : W.Router) {r' : W.Router} (asked : List ℕ)
      → AllFresh table (law.at r)
      → add_routes W table r ≡ some r'
      → law.at r' asked ≡ handlers_of asked table (law.at r asked)
  add_routes-at [] r {r' = r'} asked _ h =
      let same_router : r ≡ r' = cc in ap (λ x. law.at x asked) (sym same_router)
  add_routes-at ((path, handlers) ∷ rest) r {r' = r'} asked (fresh, all_fresh) h =
      elim (Option-cases (W.route path handlers r)) [
        | inl refused ↦
            let gone : add_routes W ((path, handlers) ∷ rest) r ≡ none = rw (refused, add_routes) in
            cc
        | inr (next, routed) ↦
            let later : add_routes W rest next ≡ add_routes W ((path, handlers) ∷ rest) r =
              rw (routed, add_routes) in
            let found = law.at_route path handlers r fresh routed in
            add_routes-at rest next asked (subst (AllFresh rest) (sym (fun_ext found)) all_fresh)
              (later ∙ h)
            ∙ ap (handlers_of asked rest) (found asked)
      ]

  at-add_layers : (schema : W.Schema) (r : W.Router) → law.at (add_layers W schema r) ≡ law.at r
  at-add_layers schema r =
      law.at_no_body_limit _
      ∙ law.at_header _ _ _
      ∙ law.at_header _ _ _
      ∙ law.at_header _ _ _
      ∙ law.at_trace _
      ∙ law.at_schema schema r

  routed-at :
      (schema : W.Schema) {router : W.Router} (path : List ℕ)
      → add_routes W routes W.empty_router ≡ some router
      → law.at (add_layers W schema router) path ≡ handlers_of path routes none
  routed-at schema {router} path routed =
      ap (λ f. f path) (at-add_layers schema router)
      ∙ add_routes-at routes W.empty_router path
          (subst (AllFresh routes) (sym (fun_ext law.at_empty))
            (refl, (refl, (refl, (refl, (refl, tt))))))
          routed
      ∙ ap (handlers_of path routes) (law.at_empty path)

  handlers_at :
      (config : W.Config) (database : W.Database) (schema : W.SchemaBuilder) (producer : W.Producer)
      (txpool : W.TxPool) (consensus : W.ConsensusModule) (w : W.World)
      {task : NotInitializedTask W} {w' : W.World}
      → new_service config database schema producer txpool consensus w ≡ (returned (ok task), w')
      → (path : List ℕ) → law.at task.router path ≡ handlers_of path routes none
  unfolding new_service
  handlers_at config database schema producer txpool consensus w {task = task} h path =
      let (bound, w₁) = W.bind (W.addr config) w in
      elim (Option-cases (add_routes W routes W.empty_router)) [
        | inl refused ↦
            let gone : new_service {W = W} config database schema producer txpool consensus w
                ≡ (panicked route_panics, w) =
              rw refused in
            cc
        | inr (router, routed) ↦ elim (Result-cases bound) [
          | inr (e, bad) ↦
              let gone : new_service {W = W} config database schema producer txpool consensus w
                  ≡ (returned (err e), w₁) =
                rw (routed, bad) in
              cc
          | inl (listener, good) ↦
              let (found, w₂) = W.local_addr listener w₁ in
              elim (Result-cases found) [
                | inr (e, bad) ↦
                    let gone : new_service {W = W} config database schema producer txpool consensus
                          w
                        ≡ (returned (err e), w₂) =
                      rw (routed, good, bad) in
                    cc
                | inl (address, fine) ↦
                    let built = finished W config database schema producer txpool consensus in
                    let made : NotInitializedTask W = record {
                      router = add_layers W built router;
                      listener = listener;
                      bound_address = address;
                    } in
                    let comes : new_service {W = W} config database schema producer txpool consensus
                          w
                        ≡ (returned (ok made), w₂) =
                      rw (routed, good, fine) in
                    let same_task : made ≡ task = cc in
                    ap (λ t. law.at t.router path) (sym same_task) ∙ routed-at built path routed
              ]
        ]
      ]

  -- If axum gives a new path its handlers and leaves the others alone, then a service that `new_service`
  -- has made serves /playground by GET with the playground, /graphql by POST with the GraphQL handler,
  -- /graphql-sub by POST with the subscription handler, both also by OPTIONS, /metrics and /health by
  -- GET with their handlers, and no other path.
  pub new_service-ServesRoutes :
      (config : W.Config) (database : W.Database) (schema : W.SchemaBuilder) (producer : W.Producer)
      (txpool : W.TxPool) (consensus : W.ConsensusModule) (w : W.World)
      {task : NotInitializedTask W} {w' : W.World}
      → new_service config database schema producer txpool consensus w ≡ (returned (ok task), w')
      → ServesRoutes (law.at task.router)
  new_service-ServesRoutes config database schema producer txpool consensus w made =
      subst ServesRoutes
        (sym (fun_ext (handlers_at config database schema producer txpool consensus w made)))
        routes-ServesRoutes
