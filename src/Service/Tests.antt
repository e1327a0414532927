-- ===== src/Service/Tests.antt =====
-- The services on the runtime of Service/Fixture.antt.
use fuelmint.Common.{ℕ, List, [], ◌∷◌, Bool, false, ok, err, Result, map, map_ok, ◌++◌, ◌≡◌, refl}
use fuelmint.Common.Exec.{returned}
use fuelmint.App.Fixture.{chain, config}
use fuelmint.GraphApi.Fixture.{web, web-AddsNewRoutes}
use fuelmint.GraphApi.Router as GraphApi
use fuelmint.GraphApi.Router.{NotInitializedTask}
use fuelmint.SubServices.Fixture.{part_types, parts}
use fuelmint.Service.Task.{
  Task, Logged, into_task, run, select_all, stop_signals, log_error, listen_error, stop_error,
}
use fuelmint.Service.Node.{new, from_database}
use fuelmint.Service.Fixture.{runtime, runners}
use fuelmint.Service.Starting.{Launches, into_task-Launches}
use fuelmint.Service.Lifecycle.{StopsEach, run-StopsEach}
use fuelmint.Service.Creation.{Creates, new-Creates}
use fuelmint.Service.Database.{Opens, from_database-Opens}

abbrev task : Task chain part_types web
task = record {
  services = 1 ∷ 9 ∷ 2 ∷ [];
  shared = record {
    txpool = tt;
    graph_ql = record { bound_address = 4000 };
    block_importer = tt;
    config = config;
  };
}

into_task-Launches_example :
    (r : Result ℕ (Unit {0})) × (end : ℕ) × Launches runtime task.services 4000 r end
    × (into_task runtime task 4000 ≡ (returned (map_ok (λ _. task) r), end))
into_task-Launches_example = into_task-Launches runtime task 4000

-- The second service does not start, and its error ends the start.
into_task_halts : into_task runtime task 4000 ≡ (returned (err 9), 4000)
unfolding into_task
into_task_halts = refl

abbrev quiet : Logged web
quiet = record { world = 4000; log = [] }

run-StopsEach_example :
    (result : Result ℕ Bool) × (heard : Logged web) × (select_all runtime
        (stop_signals runtime task.services tt)
        quiet
      ≡ (returned result, heard))
    × (end : ℕ) × (errors : List ℕ) × StopsEach runtime task.services heard.world end errors
    × (run runtime task tt quiet ≡ (
      returned (ok false),
      record {
        world = end;
        log = (log_error runtime listen_error result heard).1.log ++ map stop_error errors;
      },
    ))
run-StopsEach_example = run-StopsEach runtime task tt quiet

-- All services are stopped though the second one reports an error.
run_logs :
    run runtime task tt quiet ≡ (returned (ok false), record quiet { log = stop_error 9 ∷ [] })
unfolding run
run_logs = refl

graph_shares : (t : NotInitializedTask web) → parts.graph_shared t ≡ GraphApi.shared_data t
unfolding GraphApi.shared_data
graph_shares t = refl

runner_shares :
    (t : Task chain part_types web) → runners.runner_shared (runners.new_runner t) ≡ t.shared
runner_shares t = refl

new-Creates_example : Creates runners parts config 5 4000 (new runners parts config 5 4000)
new-Creates_example =
    new-Creates runners parts web-AddsNewRoutes graph_shares runner_shares config 5 4000

from_database-Opens_example :
    Opens runners parts config 5 4000 (from_database runners parts config 5 4000)
from_database-Opens_example =
    from_database-Opens runners parts web-AddsNewRoutes graph_shares runner_shares config 5 4000
