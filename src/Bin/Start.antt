-- ===== src/Bin/Start.antt =====
-- What `exec` has in hand before it spawns its tasks.
use fuelmint.Common.{List, [], Result, ok, err, ◌≡◌, refl, inl, inr, Result-cases, ap, ◌++◌, text}
use fuelmint.Common.Exec
use fuelmint.Common.Exec.{Outcome, returned, panicked}
use fuelmint.Common.Locks
use fuelmint.Fuel.{Fuel}
use fuelmint.Config.{Config}
use fuelmint.State.{default}
use fuelmint.App.Handlers
use fuelmint.GraphApi.Web.{Web}
use fuelmint.GraphApi.Router as GraphApi
use fuelmint.GraphApi.Router.{NotInitializedTask}
use fuelmint.GraphApi.Routes.{AddsNewRoutes}
use fuelmint.SubServices.Parts.{PartTypes, Parts, SharedState}
use fuelmint.SubServices.Wiring.{IsWired}
use fuelmint.Service.Node
use fuelmint.Service.Task.{Task}
use fuelmint.Service.Node.{Runners, FuelmintService}
use fuelmint.Service.Creation.{Creates, no_genesis, no_services, created, new-Creates}
use fuelmint.Bin.Cli.{Cli, Command}
use fuelmint.Bin.Configure.{Env, Warning, get_config}
use fuelmint.Bin.Keys.{
  Configures, bad_chain, bad_key, bad_recipient, bad_duration, configured, get_config-Configures,
}
use fuelmint.Bin.Boot.{Host, Booted, prepare}

module _ {F : Fuel} {C : Cli F} {T : PartTypes} {W : Web} (H : Host C T W) (P : Parts F T W)
    (R : Runners F T W) (env : Env) (command : Command C) where
  -- The application and the services belong together: the pool that the application feeds is the one
  -- that its producer takes transactions from and that the services run, on the database of the
  -- configuration. The application starts at height 0 with an empty hash, whatever the database
  -- holds, and its locks are free.
  pub record IsBooted (config : Config F) (database : T.Database) (b : Booted H P R) : Type 0 where
    pub parts : F.BlockProducer × List T.SubService × SharedState F T W
    pub opened : W.World
    pub before : W.World
    pub after : W.World
    pub genesis : P.maybe_initialize_state config database opened ≡ (ok tt, before)
    pub wired : IsWired P config database before after parts
    pub feeds_pool : b.service.tx_pool ≡ parts.2.txpool
    pub asks_producer : b.service.producer ≡ parts.0
    pub shares : b.server.shared ≡ parts.2
    pub by_config : b.service.config ≡ config
    pub current : b.service.current_state ≡ Locks.new default
    pub committed : b.service.committed_state ≡ Locks.new default
    pub listens : b.listen_on ≡ H.show_ip command.ip ++ text ":" ++ H.show_port command.abci_port

  -- What `exec` may come to before it spawns its tasks.
  pub data Boots (w : W.World) (r : Outcome (Booted H P R) × W.World) : Type 0 where
    no_config :
        (e : C.Error)
        → (get_config C env command []).0 ≡ returned (err e)
        → r ≡ (panicked Exec.get_config, w)
        → Boots w r
    no_database :
        (config : Config F) (e : W.Error) (w' : W.World)
        → (get_config C env command []).0 ≡ returned (ok config)
        → H.open_database config.database_path w ≡ (err e, w')
        → r ≡ (panicked Exec.open_database, w')
        → Boots w r
    no_service :
        (config : Config F) (database : T.Database) (e : W.Error) (w' w'' : W.World)
        → (get_config C env command []).0 ≡ returned (ok config)
        → H.open_database config.database_path w ≡ (ok database, w')
        → Node.new R P config database w' ≡ (returned (err e), w'')
        → r ≡ (panicked Exec.new_service, w'')
        → Boots w r
    booted :
        (config : Config F) (database : T.Database) (b : Booted H P R) (w' w'' : W.World)
        → (get_config C env command []).0 ≡ returned (ok config)
        → H.open_database config.database_path w ≡ (ok database, w')
        → IsBooted config database b
        → r ≡ (returned b, w'')
        → Boots w r

  get_config-returned :
      (result : Result C.Error (Config F)) × ((get_config C env command []).0 ≡ returned result)
  get_config-returned = ends (get_config-Configures env command [])
    where
      ends :
          {r : Outcome (Result C.Error (Config F)) × List Warning}
          → Configures env command [] r
          → (result : Result C.Error (Config F)) × (r.0 ≡ returned result)
      ends (bad_chain e _ d) = (err e, ap (λ x. x.0) d)
      ends (bad_key s ws e _ _ d) = (err e, ap (λ x. x.0) d)
      ends (bad_recipient k ws s e _ _ _ d) = (err e, ap (λ x. x.0) d)
      ends (bad_duration key ws e _ _ d) = (err e, ap (λ x. x.0) d)
      ends (configured config ws _ _ d) = (ok config, ap (λ x. x.0) d)

  module _ (law : AddsNewRoutes W)
      (shares : (task : NotInitializedTask W) → P.graph_shared task ≡ GraphApi.shared_data task)
      (runner_shares : (task : Task F T W)
        → R.runner_shared (R.new_runner task) ≡ task.shared) where
    -- If axum takes every new path, and runners share what their tasks share, `exec` does one of
    -- these four things before it spawns its tasks.
    pub prepare-Boots : (w : W.World) → Boots w (prepare H P R env command w)
    unfolding prepare Handlers.new
    prepare-Boots w =
        let (result, settled) = get_config-returned in
        elim (Result-cases result) [
          | inr (e, bad) ↦ no_config e (rw bad at settled) (rw (settled, bad))
          | inl (config, good) ↦ with_config config (rw good at settled)
        ]
      where
        with_service :
            (config : Config F) (database : T.Database) (w' : W.World)
            → (get_config C env command []).0 ≡ returned (ok config)
            → H.open_database config.database_path w ≡ (ok database, w')
            → Creates R P config database w' (Node.new R P config database w')
            → Boots w (prepare H P R env command w)
        with_service config database w' known open_ok (no_genesis e w'' _ d) =
            no_service config database e w' w'' known open_ok d (rw (known, open_ok, d))
        with_service config database w' known open_ok (no_services e w₁ w'' _ _ d) =
            no_service config database e w' w'' known open_ok d (rw (known, open_ok, d))
        with_service config database w' known open_ok
              (created listener w₀ w₁ w'' parts server genesis wired _ same _ d) =
            booted config database
              (record {
                service =
                    Handlers.new config default parts.0 server.shared.txpool (H.fuel_world w'');
                server = server;
                listen_on = H.show_ip command.ip ++ text ":" ++ H.show_port command.abci_port;
              })
              w' w'' known open_ok
              (record {
                parts = parts;
                opened = w';
                before = w₀;
                after = w'';
                genesis = genesis;
                wired = wired;
                feeds_pool = ap (λ x. x.txpool) same;
                asks_producer = refl;
                shares = same;
                by_config = refl;
                current = refl;
                committed = refl;
                listens = refl;
              })
              (rw (known, open_ok, d))

        with_config :
            (config : Config F)
            → (get_config C env command []).0 ≡ returned (ok config)
            → Boots w (prepare H P R env command w)
        with_config config known =
            let (found, w') = H.open_database config.database_path w in
            elim (Result-cases found) [
              | inr (e, bad) ↦ no_database config e w' known (λ i. (bad i, w')) (rw (known, bad))
              | inl (database, good) ↦
                  with_service config database w' known (λ i. (good i, w'))
                    (new-Creates R P law shares runner_shares config database w')
            ]
