-- ===== src/Bin/Session.antt =====
-- A node from its start on: what `exec` hands to the ABCI server can serve its requests.
use mathlib.Core.Path.{subst}
use fuelmint.Common.{List, ◌≡◌, sym, ap, All, arith}
use fuelmint.Common.Exec.{Outcome, returned}
use fuelmint.Fuel.{Fuel}
use fuelmint.Config.{Config}
use fuelmint.App.Messages.{Request, InfoResponse}
use fuelmint.App.Handlers
use fuelmint.App.Runs.{run}
use fuelmint.App.Reports.{TakesNonneg, AsksReportable, CanReport, run-info}
use fuelmint.GraphApi.Web.{Web}
use fuelmint.GraphApi.Router as GraphApi
use fuelmint.GraphApi.Router.{NotInitializedTask}
use fuelmint.GraphApi.Routes.{AddsNewRoutes}
use fuelmint.SubServices.Parts.{PartTypes, Parts}
use fuelmint.Service.Task.{Task}
use fuelmint.Service.Node.{Runners}
use fuelmint.Bin.Cli.{Cli, Command}
use fuelmint.Bin.Configure.{Env}
use fuelmint.Bin.Boot.{Host, Booted, prepare}
use fuelmint.Bin.Start.{IsBooted, Boots, no_config, no_database, no_service, booted, prepare-Boots}

module _ {F : Fuel} {C : Cli F} {T : PartTypes} {W : Web} (H : Host C T W) (P : Parts F T W)
    (R : Runners F T W) (env : Env) (command : Command C) where
  -- an app as it is made, and nothing has happened to it
  pub starts_fresh :
      (config : Config F) (database : T.Database) (b : Booted H P R)
      → IsBooted H P R env command config database b
      → CanReport b.service
  starts_fresh config database b is = record {
    reportable = rw (ap (λ m. m.value.block_height) is.current) (tt, omega arith);
    unlocked = record {
      committed_free = ap (λ m. m.held) is.committed;
      current_free = ap (λ m. m.held) is.current;
    };
  }

  abbrev IsBootedOutcome : Outcome (Booted H P R) → Type 0
  IsBootedOutcome (returned b) =
      (config : Config F) × (database : T.Database) × IsBooted H P R env command config database b
  IsBootedOutcome _ = Unit

  Boots-IsBootedOutcome :
      (w : W.World) {r : Outcome (Booted H P R) × W.World}
      → Boots H P R env command w r
      → IsBootedOutcome r.0
  Boots-IsBootedOutcome w (no_config e _ d) = subst (λ x. IsBootedOutcome x.0) (sym d) tt
  Boots-IsBootedOutcome w (no_database config e w' _ _ d) =
      subst (λ x. IsBootedOutcome x.0) (sym d) tt
  Boots-IsBootedOutcome w (no_service config database e w' w'' _ _ _ d) =
      subst (λ x. IsBootedOutcome x.0) (sym d) tt
  Boots-IsBootedOutcome w (booted config database made w' w'' _ _ is d) =
      subst (λ x. IsBootedOutcome x.0) (sym d) (config, database, is)

  -- What `exec` has in hand is wired.
  pub Boots-IsBooted :
      (w : W.World) {r : Outcome (Booted H P R) × W.World} {b : Booted H P R} {w' : W.World}
      → Boots H P R env command w r
      → r ≡ (returned b, w')
      → (config : Config F) × (database : T.Database) × IsBooted H P R env command config database b
  Boots-IsBooted w boots h = subst (λ x. IsBootedOutcome x.0) h (Boots-IsBootedOutcome w boots)

  module _ (law : AddsNewRoutes W)
      (shares : (task : NotInitializedTask W) → P.graph_shared task ≡ GraphApi.shared_data task)
      (runner_shares : (task : Task F T W)
        → R.runner_shared (R.new_runner task) ≡ task.shared) where
    -- If axum takes every new path, runners share what their tasks share, and heights are the `i64`s
    -- that are not negative, then the application that `exec` has made answers `Info` after any
    -- sequence of requests whose `EndBlock`s are at such heights, also after a panic.
    session-info :
        (heights : TakesNonneg F) {Q : Type 0} (requests : List (Request Q)) (w : W.World)
        {b : Booted H P R} {w' : W.World}
        → prepare H P R env command w ≡ (returned b, w')
        → All AsksReportable requests
        → let app' = (run requests b.service).1 in
          (response : InfoResponse F) × (Handlers.info app' ≡ (returned response, app'))
    session-info heights requests w made asked =
        let (config, database, is) =
          Boots-IsBooted w (prepare-Boots H P R env command law shares runner_shares w) made in
        run-info heights requests _ asked (starts_fresh config database _ is)
