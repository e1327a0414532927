-- ===== src/Service/Node.antt =====
-- fuelmint/src/service.rs: `FuelmintService`.

use fuelmint.Common.Try.{Try, pure, call, ◌>>=◌}
use fuelmint.Fuel.{Fuel}
use fuelmint.Config.{Config}
use fuelmint.GraphApi.Web.{Web}
use fuelmint.SubServices.Parts.{PartTypes, Parts, SharedState}
use fuelmint.Service.Interface.{ServiceTrait}
use fuelmint.Service.Task
use fuelmint.Service.Task.{Task}

-- `ServiceRunner<Task>` of fuel-core-services: its constructor, its field `shared`, and its methods.
pub record Runners (F : Fuel) (T : PartTypes) (W : Web) : Type 1 where
  pub Runner : Type 0
  pub new_runner : Task F T W → Runner
  pub runner_shared : Runner → SharedState F T W
  pub methods : ServiceTrait Runner W.World W.Error W.LifeState

module _ {F : Fuel} {T : PartTypes} {W : Web} (R : Runners F T W) where
  pub record FuelmintService : Type 0 where
    pub runner : R.Runner
    pub shared : SharedState F T W
    pub bound_address : W.SocketAddr

  -- `FuelmintService::new`
  unfoldable pub new :
      Parts F T W → Config F → T.Database → Try W.World W.Error (F.BlockProducer × FuelmintService)
  new P config database = do
    (block_producer, task) ← Task.new P config database
    let runner = R.new_runner task
    let shared = R.runner_shared runner
    let bound_address = (R.runner_shared runner).graph_ql.bound_address
    pure
        (block_producer, record { bound_address = bound_address; shared = shared; runner = runner })

  -- `FuelmintService::from_database`
  unfoldable pub from_database :
      Parts F T W → Config F → T.Database → Try W.World W.Error (F.BlockProducer × FuelmintService)
  from_database P config database = do
    (block_producer, service) ← new P config database
    _ ← call (R.methods.start_and_await service.runner)
    pure (block_producer, service)

  -- `impl ServiceTrait for FuelmintService`: every method is that of the runner
  abbrev pub service_methods : ServiceTrait FuelmintService W.World W.Error W.LifeState
  service_methods = record {
    start = λ s. R.methods.start s.runner;
    start_and_await = λ s. R.methods.start_and_await s.runner;
    await_start_or_stop = λ s. R.methods.await_start_or_stop s.runner;
    stop = λ s. R.methods.stop s.runner;
    stop_and_await = λ s. R.methods.stop_and_await s.runner;
    await_stop = λ s. R.methods.await_stop s.runner;
    state = λ s. R.methods.state s.runner;
  }
