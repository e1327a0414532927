-- ===== src/GraphApi/Tests.antt =====
-- The GraphQL service on the libraries of GraphApi/Fixture.antt.
use fuelmint.Common.{ℕ, List, [], ◌∷◌, some, ok, Bool, true, false, ◌≡◌, refl}
use fuelmint.Common.Exec.{Outcome, returned, blocked, panicked, json_panics}
use fuelmint.GraphApi.Fixture.{web, web-Dispatches}
use fuelmint.GraphApi.Dispatch.{ServesRoutes, new_service-ServesRoutes}
use fuelmint.GraphApi.Router.{NotInitializedTask, new_service, handle_subscription}
use fuelmint.GraphApi.Server.{until_stopped}
use fuelmint.GraphApi.Serving.{Streams, handle_subscription-Streams}
use fuelmint.GraphApi.Shutdown.{Decides, until_stopped-Decides}

created :
    (task : NotInitializedTask web) × (w : ℕ) × (new_service 4000 tt tt tt tt tt 4000
      ≡ (returned (ok task), w))
unfolding new_service
created = (_, _, refl)

new_service-ServesRoutes_example : ServesRoutes (web-Dispatches.at created.0.router)
new_service-ServesRoutes_example =
    new_service-ServesRoutes web-Dispatches 4000 tt tt tt tt tt 4000 created.2

until_stopped-Decides_example :
    Decides
      (λ (s : Bool). s)
      (some true ∷ some false ∷ [])
      (until_stopped (λ (s : Bool). s) (some true ∷ some false ∷ []))
until_stopped-Decides_example =
    until_stopped-Decides (λ (s : Bool). s) (some true ∷ some false ∷ [])

-- The service stays up while its state is started.
until_stopped_waits : until_stopped (λ (s : Bool). s) (some true ∷ []) ≡ blocked
unfolding until_stopped
until_stopped_waits = refl

handle_subscription-Streams_example :
    (o : Outcome (List ℕ)) × Streams web (1 ∷ 2 ∷ 0 ∷ 3 ∷ []) o
    × (handle_subscription web tt tt 4000 ≡ (o, 4000))
handle_subscription-Streams_example = handle_subscription-Streams web tt tt 4000

-- The third response has no JSON.
subscription_panics : handle_subscription web tt tt 4000 ≡ (panicked json_panics, 4000)
unfolding handle_subscription
subscription_panics = refl
