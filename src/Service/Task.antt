-- ===== src/Service/Task.antt =====
-- fuelmint/src/service.rs: the struct `Task`, its creation, start and run, and `shutdown_signal`.
use fuelmint.Common.{ℕ, text, List, [], ◌∷◌, ◌++◌, Bool, false, map, ok, err, Result}
use fuelmint.Common.Exec.{Exec, returned, panic, no_signals}
use fuelmint.Common.Exec
use fuelmint.Common.Try.{Try, pure, call, total, ◌>>=◌}
use fuelmint.Fuel.{Fuel}
use fuelmint.Config.{Config}
use fuelmint.GraphApi.Web.{Web}
use fuelmint.SubServices.Parts.{PartTypes, Parts, SharedState}
use fuelmint.SubServices.Init.{init_sub_services}
use fuelmint.Service.Interface.{
  Runtime, SignalKind, terminate, interrupt, StopSignal, sub_service, shutdown, while_started,
}

pub record Task (F : Fuel) (T : PartTypes) (W : Web) : Type 0 where
  pub services : List T.SubService
  pub shared : SharedState F T W

-- `Task::NAME`
abbrev pub service_name : List ℕ
service_name = text "FuelService"

-- `Task::sub_services`, which a test build has: the services, and what writing to them does
abbrev pub sub_services :
    {F : Fuel} {T : PartTypes} {W : Web}
    → Task F T W
    → List T.SubService × (List T.SubService → Task F T W)
sub_services task = (task.services, λ services. record task { services = services })

-- `RunnableService::shared_data`
abbrev pub shared_data : {F : Fuel} {T : PartTypes} {W : Web} → Task F T W → SharedState F T W
shared_data task = task.shared

module _ {F : Fuel} {T : PartTypes} {W : Web} (P : Parts F T W) where
  -- `Task::new`
  unfoldable pub new : Config F → T.Database → Try W.World W.Error (F.BlockProducer × Task F T W)
  new config database = do
    _ ← call (P.maybe_initialize_state config database)
    (block_producer, services, shared) ← init_sub_services P config database
    pure (block_producer, record { services = services; shared = shared })

-- What the task writes to the log.
pub data LogLine (E : Type 0) : Type 0 where
  listen_error stop_error : E → LogLine E
  sigterm_received sigint_received : LogLine E

pub record Logged (W : Web) : Type 0 where
  pub world : W.World
  pub log : List (LogLine W.Error)

module _ {T : PartTypes} {W : Web} (R : Runtime T W) where
  -- the loop of `into_task`
  abbrev pub start_all : List T.SubService → Try W.World W.Error (Unit {0})
  start_all [] = pure tt
  start_all (service ∷ rest) = do _ ← call (R.subs.start_and_await service); start_all rest

  unfoldable pub into_task : {F : Fuel} → Task F T W → Try W.World W.Error (Task F T W)
  into_task task = do _ ← start_all task.services; pure task

  abbrev on_world {ℓ} : {A : Type ℓ} → (W.World → A × W.World) → Exec (Logged W) A
  on_world f h = let (a, w) = f h.world in (returned a, record h { world = w })

  abbrev write : LogLine W.Error → Exec (Logged W) (Unit {0})
  write line h = (returned tt, record h { log = h.log ++ line ∷ [] })

  abbrev pub received : SignalKind → LogLine W.Error
  received terminate = sigterm_received
  received interrupt = sigint_received

  -- `shutdown_signal` on unix. Both arms of the `select!` leave the loop, so it runs once.
  unfoldable pub shutdown_signal : Try (Logged W) W.Error W.LifeState
  shutdown_signal = do
    sigterm ← on_world (R.signal terminate)
    sigint ← on_world (R.signal interrupt)
    kind ← total (on_world (R.select_recv sigterm sigint))
    _ ← total (write (received kind))
    pure R.stopped

  -- the output of a future of `stop_signals`
  abbrev pub finish :
      StopSignal T.SubService R.Watcher → Exec (Logged W) (Result W.Error W.LifeState)
  finish (sub_service s) = on_world (R.subs.await_stop s)
  finish shutdown = shutdown_signal
  finish (while_started watcher) = on_world (R.watcher_while_started watcher)

  -- `futures::future::select_all`, which panics at no future
  abbrev pub select_all :
      List (StopSignal T.SubService R.Watcher) → Exec (Logged W) (Result W.Error W.LifeState)
  select_all [] = panic no_signals
  select_all (s ∷ ss) = Exec.◌>>=◌ (on_world (R.first_ready s ss)) finish

  -- `if let Err(err) = result { tracing::error!(…) }`
  abbrev pub log_error {ℓ} :
      {A : Type ℓ} → (W.Error → LogLine W.Error) → Result W.Error A → Exec (Logged W) (Unit {0})
  log_error line (ok _) = Exec.pure tt
  log_error line (err e) = write (line e)

  abbrev pub stop_all : List T.SubService → Exec (Logged W) (Unit {0})
  stop_all [] = Exec.pure tt
  stop_all (service ∷ rest) =
      Exec.◌>>=◌ (on_world (R.subs.stop_and_await service))
        λ result. Exec.◌>>◌ (log_error stop_error result) (stop_all rest)

  abbrev pub stop_signals : List T.SubService → R.Watcher → List (StopSignal T.SubService R.Watcher)
  stop_signals services watcher = map sub_service services ++ shutdown ∷ while_started watcher ∷ []

  -- `RunnableTask::run`; the value is `should_continue`
  unfoldable pub run : {F : Fuel} → Task F T W → R.Watcher → Try (Logged W) W.Error Bool
  unfolding shutdown_signal
  run task watcher = do
    result ← total (select_all (stop_signals task.services watcher))
    _ ← total (log_error listen_error result)
    _ ← total (stop_all task.services)
    pure false
