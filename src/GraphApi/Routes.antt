-- ===== src/GraphApi/Routes.antt =====
-- How the GraphQL service comes into being: the routes never collide, and the errors of the socket
-- are the only ones.
use fuelmint.Common.{
  is_new, ℕ, List, [], ◌∷◌, true, some, Result, ok, err, ◌≡◌, refl, inl, inr, Result-cases,
}
use fuelmint.Common.Exec.{Outcome, returned}
use fuelmint.GraphApi.Web.{Web, MethodRouter}
use fuelmint.GraphApi.Router.{
  NotInitializedTask, routes, add_routes, add_layers, finished, new_service, shared_data,
}

-- What axum documents of `route`: a path that the router does not have yet is added.
pub record AddsNewRoutes (W : Web) : Type 0 where
  pub paths : W.Router → List (List ℕ)
  pub paths_empty : paths W.empty_router ≡ []
  pub added :
      (path : List ℕ) (handlers : MethodRouter) (r : W.Router)
      → is_new path (paths r) ≡ true
      → (r' : W.Router) × (W.route path handlers r ≡ some r') × (paths r' ≡ path ∷ paths r)

-- No path of the list is in `known` or stands twice.
abbrev pub AllNew : List (List ℕ × MethodRouter) → List (List ℕ) → Type 0
AllNew [] known = Unit
AllNew ((path, _) ∷ rest) known = (is_new path known ≡ true) × AllNew rest (path ∷ known)

module _ {W : Web} (law : AddsNewRoutes W) where
  add_routes_total :
      (table : List (List ℕ × MethodRouter)) (r : W.Router)
      → AllNew table (law.paths r)
      → (r' : W.Router) × (add_routes W table r ≡ some r')
  add_routes_total [] r h = (r, refl)
  add_routes_total ((path, handlers) ∷ rest) r h =
      let (r', e, p) = law.added path handlers r h.0 in
      let later : AllNew rest (law.paths r') = rw p h.1 in
      let (r'', e') = add_routes_total rest r' later in (r'', rw (e, add_routes) e')

-- What `new_service` may do from `w`: hand on the error of the socket, or come back with a service
-- that is bound where the socket says.
pub data Creates (W : Web) (config : W.Config) (w : W.World)
    (r : Outcome (Result W.Error (NotInitializedTask W)) × W.World) : Type 0 where
  not_bound :
      (e : W.Error) (w' : W.World)
      → W.bind (W.addr config) w ≡ (err e, w')
      → r ≡ (returned (err e), w')
      → Creates W config w r
  no_address :
      (listener : W.Listener) (e : W.Error) (w' w'' : W.World)
      → W.bind (W.addr config) w ≡ (ok listener, w')
      → W.local_addr listener w' ≡ (err e, w'')
      → r ≡ (returned (err e), w'')
      → Creates W config w r
  created :
      (listener : W.Listener) (address : W.SocketAddr) (task : NotInitializedTask W)
      (w' w'' : W.World)
      → W.bind (W.addr config) w ≡ (ok listener, w')
      → W.local_addr listener w' ≡ (ok address, w'')
      → task.listener ≡ listener
      → (shared_data task).bound_address ≡ address
      → r ≡ (returned (ok task), w'')
      → Creates W config w r

module _ {W : Web} where
  -- If axum takes every new path, `new_service` does one of these three things; it never panics.
  pub new_service-Creates :
      (law : AddsNewRoutes W) (config : W.Config) (database : W.Database) (schema : W.SchemaBuilder)
      (producer : W.Producer) (txpool : W.TxPool) (consensus : W.ConsensusModule) (w : W.World)
      → Creates W config w (new_service config database schema producer txpool consensus w)
  unfolding new_service shared_data
  new_service-Creates law config database schema producer txpool consensus w =
      let distinct : AllNew routes (law.paths W.empty_router) =
        rw law.paths_empty (refl, (refl, (refl, (refl, (refl, tt))))) in
      let (router, routed) = add_routes_total law routes W.empty_router distinct in
      let (bound, w') = W.bind (W.addr config) w in
      elim (Result-cases bound) [
        | inr (e, bad) ↦ not_bound e w' (λ i. (bad i, w')) (rw (routed, bad))
        | inl (listener, good) ↦
            let (found, w'') = W.local_addr listener w' in
            elim (Result-cases found) [
              | inr (e, bad) ↦
                  no_address listener e w' w'' (λ i. (good i, w')) (λ i. (bad i, w''))
                    (rw (routed, good, bad))
              | inl (address, fine) ↦
                  created listener address
                    (record {
                      router =
                          add_layers W (finished W config database schema producer txpool consensus)
                            router;
                      listener = listener;
                      bound_address = address;
                    })
                    w' w'' (λ i. (good i, w')) (λ i. (fine i, w'')) refl refl
                    (rw (routed, good, fine))
            ]
      ]
