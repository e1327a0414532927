-- ===== src/Bin/Turns.antt =====
-- A node while its two tasks run: what `exec` has wired stays wired, however the ABCI server, the
-- services and the sub-services take turns.
use fuelmint.Common.{[], true, false, ◌≡◌, ◌≢◌}
use fuelmint.Common.Exec.{Panic, returned, panicked, blocked}
use fuelmint.Fuel.{Fuel}
use fuelmint.Config.{Config}
use fuelmint.App.Messages.{App, Request}
use fuelmint.App.Handlers
use fuelmint.App.Call.{call}
use fuelmint.App.Commits.{KeepsHash}
use fuelmint.App.Parts.{HasSameParts}
use fuelmint.App.Reports.{AsksReportable, CanReport, report}
use fuelmint.GraphApi.Web.{Web}
use fuelmint.GraphApi.Router as GraphApi
use fuelmint.SubServices.Parts.{PartTypes, Parts}
use fuelmint.Service.Task.{Task}
use fuelmint.Service.Node.{Runners}
use fuelmint.Bin.Cli.{Cli, Command}
use fuelmint.Bin.Configure.{Env}
use fuelmint.Bin.Boot.{Host, Booted}
use fuelmint.Bin.Tasks.{Running, starting, Reaches, AllAnswered}

-- The application as `exec` has made it, up to what its requests may change.
record StaysWired {F : Fuel} (made app : App F) : Type 0 where
  can_report : CanReport app
  empty_hash : KeepsHash [] app
  same_parts : HasSameParts made app

module _ {F : Fuel} {T : PartTypes} {W : Web} (R : Runners F T W) where
  -- what the ABCI server can count on
  pub record Serves {P : Parts F T W} {C : Cli F} {H : Host C T W} (Q : Type 0) (b : Booted H P R)
      (app : App F) : Type 0 where
    pub feeds_pool : app.tx_pool ≡ b.server.shared.txpool
    pub asks_producer : app.producer ≡ b.service.producer
    pub by_config : app.config ≡ b.service.config
    pub reports : (height : F.Height) × (Handlers.info app ≡ (returned (report F height []), app))
    pub progress : (request : Request Q) → (call request app).0 ≢ blocked

module _ {F : Fuel} {C : Cli F} {T : PartTypes} {W : Web} (H : Host C T W) (P : Parts F T W)
    (R : Runners F T W) (env : Env) (command : Command C) where
  -- the node when the two tasks are spawned
  abbrev pub spawned : Booted H P R → W.World → Running F W
  spawned b w = record { app = b.service; world = w; point = starting; serving = true }

  -- A node that is reached: its server serves, has answered all, and can be counted on, or it has stopped, and then at a
  -- request that panicked, until which it served.
  pub data Stands (Q : Type 0) (b : Booted H P R) (w : W.World) (k : Running F W)
      (reached : Reaches R b.server {Q = Q} AsksReportable (spawned b w) k) : Type 0 where
    in_service :
        k.serving ≡ true
        → AllAnswered R b.server (spawned b w) k reached
        → Serves R Q b k.app
        → Stands Q b w k reached
    stopped :
        (m : Running F W) (request : Request Q) (p : Panic)
        → Reaches R b.server {Q = Q} AsksReportable (spawned b w) m
        → m.serving ≡ true
        → Serves R Q b m.app
        → (call request m.app).0 ≡ panicked p
        → k.serving ≡ false
        → Stands Q b w k reached
