-- ===== src/Service/Database.antt =====
-- The service of the node created on a database and started.
use fuelmint.Common.{ok, err, Result, ◌≡◌, inl, inr, Result-cases}
use fuelmint.Common.Exec.{Outcome, returned}
use fuelmint.Fuel.{Fuel}
use fuelmint.Config.{Config}
use fuelmint.GraphApi.Web.{Web}
use fuelmint.GraphApi.Router as GraphApi
use fuelmint.GraphApi.Router.{NotInitializedTask}
use fuelmint.GraphApi.Routes.{AddsNewRoutes}
use fuelmint.SubServices.Parts.{PartTypes, Parts}
use fuelmint.Service.Task.{Task}
use fuelmint.Service.Node.{Runners, FuelmintService, new, from_database}
use fuelmint.Service.Creation.{Creates, no_genesis, no_services, created, new-Creates}

module _ {F : Fuel} {T : PartTypes} {W : Web} (R : Runners F T W) (P : Parts F T W) where
  -- What creating and starting the service may come to.
  pub data Opens (config : Config F) (database : T.Database) (w : W.World)
      (r : Outcome (Result W.Error (F.BlockProducer × FuelmintService R)) × W.World) : Type 0 where
    not_created :
        (e : W.Error) (w' : W.World)
        → new R P config database w ≡ (returned (err e), w')
        → r ≡ (returned (err e), w')
        → Opens config database w r
    not_started :
        (made : F.BlockProducer × FuelmintService R) (e : W.Error) (w' w'' : W.World)
        → new R P config database w ≡ (returned (ok made), w')
        → R.methods.start_and_await made.1.runner w' ≡ (err e, w'')
        → r ≡ (returned (err e), w'')
        → Opens config database w r
    opened :
        (made : F.BlockProducer × FuelmintService R) (state : W.LifeState) (w' w'' : W.World)
        → new R P config database w ≡ (returned (ok made), w')
        → R.methods.start_and_await made.1.runner w' ≡ (ok state, w'')
        → r ≡ (returned (ok made), w'')
        → Opens config database w r

  module _ (law : AddsNewRoutes W)
      (shares : (task : NotInitializedTask W) → P.graph_shared task ≡ GraphApi.shared_data task)
      (runner_shares : (task : Task F T W)
        → R.runner_shared (R.new_runner task) ≡ task.shared) where
    -- If axum takes every new path, and runners share what their tasks share, `from_database` hands
    -- on the error of the creation and starts nothing, or starts the created service and hands
    -- on the error of the start, or the producer and the service; it never panics.
    pub from_database-Opens :
        (config : Config F) (database : T.Database) (w : W.World)
        → Opens config database w (from_database R P config database w)
    unfolding from_database
    from_database-Opens config database w =
        by_creation (new-Creates R P law shares runner_shares config database w)
      where
        by_start :
            (made : F.BlockProducer × FuelmintService R) (w' : W.World)
            → new R P config database w ≡ (returned (ok made), w')
            → Opens config database w (from_database R P config database w)
        by_start made w' d =
            let (up, w'') = R.methods.start_and_await made.1.runner w' in
            elim (Result-cases up) [
              | inr (e, bad) ↦ not_started made e w' w'' d (λ i. (bad i, w'')) (rw (d, bad))
              | inl (state, good) ↦ opened made state w' w'' d (λ i. (good i, w'')) (rw (d, good))
            ]

        by_creation :
            Creates R P config database w (new R P config database w)
            → Opens config database w (from_database R P config database w)
        by_creation (no_genesis e w' _ d) = not_created e w' d (rw d)
        by_creation (no_services e _ w' _ _ d) = not_created e w' d (rw d)
        by_creation (created _ _ _ w' parts service _ _ _ _ _ d) = by_start (parts.0, service) w' d
