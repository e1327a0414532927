-- ===== src/Bin/Boot.antt =====
-- fuelmint/src/bin/fuelmint.rs: `exec`.
use fuelmint.Common.{ℕ, List, [], ◌++◌, Result, text}
use fuelmint.Common.Int.{pos}
use fuelmint.Common.Exec.{
  Exec, Outcome, returned, panicked, blocked, Panic, pure, unwrap, ◌>>=◌, get_config, open_database,
  new_service, start_service, await_stop, join_task, abci_server,
}
use fuelmint.Common.Try
use fuelmint.Common.Try.{Try}
use fuelmint.Fuel.{Fuel}
use fuelmint.State.{State}
use fuelmint.App.Messages.{App}
use fuelmint.App.Handlers
use fuelmint.GraphApi.Web.{Web}
use fuelmint.SubServices.Parts.{PartTypes, Parts}
use fuelmint.Service.Node
use fuelmint.Service.Node.{Runners, FuelmintService}
use fuelmint.Bin.Cli.{Cli, Command}
use fuelmint.Bin.Configure
use fuelmint.Bin.Configure.{Env}

-- The libraries that `exec` calls itself.
pub record Host {F : Fuel} (C : Cli F) (T : PartTypes) (W : Web) : Type 0 where
  -- `Database::open`
  pub open_database : F.FilePath → W.World → Result W.Error T.Database × W.World
  -- `Display` of an address and of a port
  pub show_ip : C.IpAddr → List ℕ
  pub show_port : ℕ → List ℕ
  -- the part of the world that the application's handles act on
  pub fuel_world : W.World → F.World

-- `result.unwrap()` of code that returns a `Result`
abbrev pub unwrap_try {ℓ κ μ} :
    {S : Type ℓ} {E : Type κ} {A : Type μ} → Panic → Try S E A → Exec S A
unwrap_try p m = m >>= unwrap p

-- the same of code that leaves this state alone
abbrev pub unwrap_outcome {ℓ κ μ} :
    {S : Type ℓ} {E : Type κ} {A : Type μ} → Panic → Outcome (Result E A) → Exec S A
unwrap_outcome p (returned r) s = unwrap p r s
unwrap_outcome p (panicked q) s = (panicked q, s)
unwrap_outcome p blocked s = (blocked, s)

module _ {F : Fuel} {C : Cli F} {T : PartTypes} {W : Web} (H : Host C T W) (P : Parts F T W)
    (R : Runners F T W) where
  -- What `exec` has in hand when it spawns its two tasks: the application, the services, and the
  -- address that the ABCI server listens on.
  pub record Booted : Type 0 where
    pub service : App F
    pub server : FuelmintService R
    pub listen_on : List ℕ

  -- `exec` up to the two `spawn`s
  unfoldable pub prepare : Env → Command C → Exec W.World Booted
  prepare env command = do
    config ← unwrap_outcome get_config (Configure.get_config C env command []).0
    database ← unwrap_try open_database (Try.call (H.open_database config.database_path))
    (block_producer, server) ← unwrap_try new_service (Node.new R P config database)
    let state : State = record { block_height = pos 0; app_hash = [] }
    world ← λ w. pure w w
    let service = Handlers.new config state block_producer server.shared.txpool (H.fuel_world world)
    pure (record {
      service = service;
      server = server;
      listen_on = H.show_ip command.ip ++ text ":" ++ H.show_port command.abci_port;
    })

module _ {F : Fuel} {T : PartTypes} {W : Web} (R : Runners F T W) where
  -- the task `fuelmint_services`
  unfoldable pub run_services : FuelmintService R → Exec W.World (Unit {0})
  run_services server = do
    _ ← unwrap_try start_service (Try.call ((Node.service_methods R).start_and_await server))
    _ ← unwrap_try await_stop (Try.call ((Node.service_methods R).await_stop server))
    pure tt

-- The task of the `select!` that has ended, with what joining it gave.
pub data Ended (JoinError E : Type 0) : Type 0 where
  abci : Result JoinError (Result E (Unit {0})) → Ended JoinError E
  services : Result JoinError (Unit {0}) → Ended JoinError E

-- the arms of the `select!`
unfoldable pub after_select {ℓ} :
    {S : Type ℓ} {JoinError E : Type 0} → Ended JoinError E → Exec S (Unit {0})
after_select (abci x) = do r ← unwrap join_task x; unwrap abci_server r
after_select (services x) = unwrap join_task x
