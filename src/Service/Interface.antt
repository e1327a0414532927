-- ===== src/Service/Interface.antt =====
-- What fuelmint/src/service.rs calls of fuel-core-services, tokio and futures.
use fuelmint.Common.{List, Bool, Result}
use fuelmint.GraphApi.Web.{Web}
use fuelmint.SubServices.Parts.{PartTypes}

-- The trait `fuel_core_services::Service`, by its methods.
pub record ServiceTrait (S World Error LifeState : Type 0) : Type 0 where
  pub start : S → World → Result Error (Unit {0}) × World
  pub start_and_await : S → World → Result Error LifeState × World
  pub await_start_or_stop : S → World → Result Error LifeState × World
  pub stop : S → World → Bool × World
  pub stop_and_await : S → World → Result Error LifeState × World
  pub await_stop : S → World → Result Error LifeState × World
  pub state : S → World → LifeState

pub data SignalKind : Type 0 where
  terminate interrupt : SignalKind

-- The futures that `Task::run` waits for.
pub data StopSignal (SubService Watcher : Type 0) : Type 0 where
  sub_service : SubService → StopSignal SubService Watcher
  shutdown : StopSignal SubService Watcher
  while_started : Watcher → StopSignal SubService Watcher

pub record Runtime (T : PartTypes) (W : Web) : Type 1 where
  pub Watcher : Type 0
  pub Stream : Type 0
  -- the sub-services, behind `Box<dyn ServiceTrait>`
  pub subs : ServiceTrait T.SubService W.World W.Error W.LifeState
  -- `State::Stopped`
  pub stopped : W.LifeState
  -- `tokio::signal::unix::signal`, and the `select!` over the two streams
  pub signal : SignalKind → W.World → Result W.Error Stream × W.World
  pub select_recv : Stream → Stream → W.World → SignalKind × W.World
  pub watcher_while_started : Watcher → W.World → Result W.Error W.LifeState × W.World
  -- which of the futures is ready first, of one and those of a list
  pub first_ready :
      StopSignal T.SubService Watcher
      → List (StopSignal T.SubService Watcher)
      → W.World
      → StopSignal T.SubService Watcher × W.World
