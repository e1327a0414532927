-- ===== src/Service/Creation.antt =====
-- How the service of the node comes into being.
use fuelmint.Common.{List, Result, ok, err, ◌≡◌, refl, inl, inr, Result-cases}
use fuelmint.Common.Exec.{Outcome, returned}
use fuelmint.Fuel.{Fuel}
use fuelmint.Config.{Config}
use fuelmint.GraphApi.Web.{Web}
use fuelmint.GraphApi.Router as GraphApi
use fuelmint.GraphApi.Router.{NotInitializedTask}
use fuelmint.GraphApi.Routes.{AddsNewRoutes}
use fuelmint.SubServices.Parts.{PartTypes, Parts, SharedState}
use fuelmint.SubServices.Wiring.{IsWired, SocketFails, Inits, failed, done, init_sub_services-Inits}
use fuelmint.SubServices.Init.{init_sub_services}
use fuelmint.Service.Task
use fuelmint.Service.Task.{Task}
use fuelmint.Service.Node.{Runners, FuelmintService, new}

module _ {F : Fuel} {T : PartTypes} {W : Web} (R : Runners F T W) (P : Parts F T W) where
  -- What creating the service may come to. The sub-services are built only on a chain whose genesis
  -- is initialised.
  pub data Creates (config : Config F) (database : T.Database) (w : W.World)
      (r : Outcome (Result W.Error (F.BlockProducer × FuelmintService R)) × W.World) : Type 0 where
    no_genesis :
        (e : W.Error) (w' : W.World)
        → P.maybe_initialize_state config database w ≡ (err e, w')
        → r ≡ (returned (err e), w')
        → Creates config database w r
    no_services :
        (e : W.Error) (w' w'' : W.World)
        → P.maybe_initialize_state config database w ≡ (ok tt, w')
        → SocketFails P config database w' e w''
        → r ≡ (returned (err e), w'')
        → Creates config database w r
    created :
        (listener : W.Listener) (w' w₁ w₂ : W.World)
        (parts : F.BlockProducer × List T.SubService × SharedState F T W)
        (service : FuelmintService R)
        → P.maybe_initialize_state config database w ≡ (ok tt, w')
        → IsWired P config database w' w₂ parts
        → service.runner ≡ R.new_runner (record { services = parts.1; shared = parts.2 })
        → service.shared ≡ parts.2
        → W.local_addr listener w₁ ≡ (ok service.bound_address, w₂)
        → r ≡ (returned (ok (parts.0, service)), w₂)
        → Creates config database w r

  module _ (law : AddsNewRoutes W)
      (shares : (task : NotInitializedTask W) → P.graph_shared task ≡ GraphApi.shared_data task)
      (runner_shares : (task : Task F T W)
        → R.runner_shared (R.new_runner task) ≡ task.shared) where
    -- If axum takes every new path, and runners share what their tasks share, `FuelmintService::new`
    -- does one of these three things; it never panics.
    pub new-Creates :
        (config : Config F) (database : T.Database) (w : W.World)
        → Creates config database w (new R P config database w)
    unfolding new Task.new
    new-Creates config database w =
        let (genesis, w') = P.maybe_initialize_state config database w in
        elim (Result-cases genesis) [
          | inr (e, bad) ↦ no_genesis e w' (λ i. (bad i, w')) (rw bad)
          | inl (_, good) ↦
              after w' (λ i. (good i, w')) (init_sub_services-Inits P law shares config database w')
        ]
      where
        after :
            (w' : W.World)
            → P.maybe_initialize_state config database w ≡ (ok tt, w')
            → Inits P config database w' (init_sub_services P config database w')
            → Creates config database w (new R P config database w)
        after w' good (failed e w'' fails d) = no_services e w' w'' good fails (rw (good, d))
        after w' good (done listener w₁ w₂ (producer, services, shared) found wired d) =
            let task : Task F T W = record { services = services; shared = shared } in
            created listener w' w₁ w₂ (producer, services, shared)
              (record {
                runner = R.new_runner task;
                shared = R.runner_shared (R.new_runner task);
                bound_address = (R.runner_shared (R.new_runner task)).graph_ql.bound_address;
              })
              good wired refl (runner_shares task) (rw (runner_shares task) found) (rw (good, d))
