-- ===== src/Bin/Outcomes.antt =====
-- What the process comes to, from the command line to the end of its tasks.
use fuelmint.Common.{some, Result, ok, err, ◌≡◌, refl, ◌⊎◌, inl, inr}
use fuelmint.Common.Exec
use fuelmint.Common.Exec.{Exec, Outcome, Panic, returned, panicked, join_task, then_run, pure}
use fuelmint.Fuel.{Fuel}
use fuelmint.Config.{Config}
use fuelmint.GraphApi.Web.{Web}
use fuelmint.GraphApi.Router as GraphApi
use fuelmint.GraphApi.Router.{NotInitializedTask}
use fuelmint.GraphApi.Routes.{AddsNewRoutes}
use fuelmint.SubServices.Parts.{PartTypes, Parts}
use fuelmint.Service.Task.{Task}
use fuelmint.Service.Node.{Runners}
use fuelmint.Bin.Cli.{Cli, Command}
use fuelmint.Bin.Configure.{Env}
use fuelmint.Bin.Layers.{Tower, Finishes, server_builder, build_server, build_server-finish}
use fuelmint.Bin.Boot.{Host, Booted, Ended, abci, services, prepare, after_select}
use fuelmint.Bin.Start.{IsBooted, Boots, no_config, no_database, no_service, booted, prepare-Boots}
use fuelmint.Bin.Process.{Opt, Course, executed, exited, command_of, exec, main}

-- The panics before the tasks are spawned.
abbrev pub IsBootPanic : Panic → Type 0
IsBootPanic p = (p ≡ Exec.get_config) ⊎ (p ≡ Exec.open_database) ⊎ (p ≡ Exec.new_service)

-- How `exec` ends after the first of its tasks.
pub data Closes {J E S : Type 0} (ended : Ended J E) (s : S) (r : Outcome (Unit {0}) × S)
    : Type 0 where
  fine :
      (ended ≡ abci (ok (ok tt))) ⊎ (ended ≡ services (ok tt))
      → r ≡ (returned tt, s)
      → Closes ended s r
  not_joined :
      (e : J)
      → (ended ≡ abci (err e)) ⊎ (ended ≡ services (err e))
      → r ≡ (panicked join_task, s)
      → Closes ended s r
  not_listening :
      (e : E) → ended ≡ abci (ok (err e)) → r ≡ (panicked Exec.abci_server, s) → Closes ended s r

after_select-Closes :
    {J E S : Type 0} (ended : Ended J E) (s : S) → Closes ended s (after_select ended s)
unfolding after_select
after_select-Closes (abci (ok (ok tt))) s = fine (inl refl) refl
after_select-Closes (abci (ok (err e))) s = not_listening e refl refl
after_select-Closes (abci (err e)) s = not_joined e (inl refl) refl
after_select-Closes (services (ok tt)) s = fine (inr refl) refl
after_select-Closes (services (err e)) s = not_joined e (inr refl) refl

module _ {F : Fuel} {C : Cli F} {T : PartTypes} {W : Web} (H : Host C T W) (P : Parts F T W)
    (R : Runners F T W) (K : Tower F) {J E : Type 0}
    (select : K.Server → Booted H P R → W.World → Ended J E × W.World) (env : Env) where
  -- What `exec` comes to.
  pub data Executes (command : Command C) (w : W.World) (r : Outcome (Unit {0}) × W.World)
      : Type 0 where
    unbooted :
        (p : Panic) (w' : W.World)
        → IsBootPanic p
        → Boots H P R env command w (panicked p, w')
        → prepare H P R env command w ≡ (panicked p, w')
        → r ≡ (panicked p, w')
        → Executes command w r
    closed :
        (config : Config F) (database : T.Database) (b : Booted H P R) (server : K.Server)
        (ended : Ended J E) (w' w'' : W.World)
        → IsBooted H P R env command config database b
        → prepare H P R env command w ≡ (returned b, w')
        → K.finish (server_builder K b.service) ≡ some server
        → select server b w' ≡ (ended, w'')
        → Closes ended w'' r
        → Executes command w r

  -- The command that `main` takes: that of the first parser, or else that of the second.
  abbrev pub Chosen : {PE : Type 0} → Result PE (Opt C) → Result PE (Command C) → Command C → Type 0
  Chosen {PE} opt command c =
      ((o : Opt C) × (opt ≡ ok o) × (command_of o.command ≡ c))
      ⊎ ((e : PE) × (opt ≡ err e) × (command ≡ ok c))

  -- What `main` comes to.
  pub data Runs {PE : Type 0} (opt : Result PE (Opt C)) (command : Result PE (Command C))
      (w : W.World) (r : Outcome (Course PE) × W.World) : Type 0 where
    left :
        (e e' : PE)
        → opt ≡ err e
        → command ≡ err e'
        → r ≡ (returned (exited e), w)
        → Runs opt command w r
    went :
        (c : Command C) (x : Outcome (Unit {0}) × W.World)
        → Chosen opt command c
        → Executes c w x
        → r ≡ then_run (λ _. pure executed) x.0 x.1
        → Runs opt command w r

  module _ (law : AddsNewRoutes W)
      (shares : (task : NotInitializedTask W) → P.graph_shared task ≡ GraphApi.shared_data task)
      (runner_shares : (task : Task F T W) → R.runner_shared (R.new_runner task) ≡ task.shared)
      (finishes : Finishes K) where
    exec-Executes :
        (command : Command C) (w : W.World) → Executes command w (exec H P R K select env command w)
    unfolding exec build_server
    exec-Executes command w = from (prepare-Boots H P R env command law shares runner_shares w)
      where
        from :
            Boots H P R env command w (prepare H P R env command w)
            → Executes command w (exec H P R K select env command w)
        from (no_config e bad d) =
            unbooted Exec.get_config w (inl refl) (no_config e bad refl) d (rw d)
        from (no_database config e w' known bad d) =
            unbooted Exec.open_database w' (inr (inl refl)) (no_database config e w' known bad refl)
              d (rw d)
        from (no_service config database e w' w'' known found bad d) =
            unbooted Exec.new_service w'' (inr (inr refl))
              (no_service config database e w' w'' known found bad refl) d (rw d)
        from (booted config database b w' w'' _ _ is d) =
            let (server, finished) = build_server-finish K finishes b.service in
            let (ended, end) = select server b w'' in
            closed config database b server ended w'' end is d finished refl
              (rw (d, finished) (after_select-Closes ended end))

    -- If axum takes every new path, runners share what their tasks share, and the builder of the ABCI
    -- server finishes once it has its four services, then `main` leaves with the first parser's error
    -- where neither parser gives a command, and else executes one command: that of the first parser, or
    -- else that of the second. `exec` panics before its tasks are spawned, exactly as `prepare` does, at
    -- an error of the configuration, of the database or of the service; or, wired, and with an ABCI
    -- server over the split application, it returns if the task that ends first has come to a good end,
    -- and panics if that cannot be joined or the server has failed.
    pub main-Runs :
        {PE : Type 0} (opt : Result PE (Opt C)) (command : Result PE (Command C)) (w : W.World)
        → Runs opt command w (main H P R K select env opt command w)
    unfolding main
    main-Runs (ok o) command w =
        went (command_of o.command) _ (inl (o, refl, refl)) (exec-Executes (command_of o.command) w)
          refl
    main-Runs (err e) (ok c) w = went c _ (inr (e, refl, refl)) (exec-Executes c w) refl
    main-Runs (err e) (err e') w = left e e' refl refl refl
