-- ===== src/Service/Fixture.antt =====
-- A runtime for tests: the sub-service 9 neither starts nor stops well, no signal can be registered
-- while the port 13 is free, and the first future of a list is always the first to be ready.
use fuelmint.Common.{ℕ, Bool, true, false, ok, err, Result, ◌==◌, if◌then◌else◌}
use fuelmint.App.Fixture.{chain}
use fuelmint.GraphApi.Fixture.{web}
use fuelmint.SubServices.Fixture.{part_types}
use fuelmint.Service.Interface.{ServiceTrait, Runtime, SignalKind, terminate}
use fuelmint.Service.Task.{Task}
use fuelmint.Service.Node.{Runners}

abbrev answer : ℕ → ℕ → Result ℕ Bool × ℕ
answer s w = if s == 9 then (err 9, w) else (ok true, w)

abbrev pub subs : ServiceTrait ℕ ℕ ℕ Bool
subs = record {
  start = λ _ w. (ok tt, w);
  start_and_await = answer;
  await_start_or_stop = answer;
  stop = λ _ w. (true, w);
  stop_and_await = answer;
  await_stop = answer;
  state = λ _ _. true;
}

abbrev register : SignalKind → ℕ → Result ℕ (Unit {0}) × ℕ
register _ w = if w == 13 then (err 13, w) else (ok tt, w)

abbrev pub runtime : Runtime part_types web
runtime = record {
  Watcher = Unit;
  Stream = Unit;
  subs = subs;
  stopped = false;
  signal = register;
  select_recv = λ _ _ w. (terminate, w);
  watcher_while_started = λ _ w. (ok false, w);
  first_ready = λ s _ w. (s, w);
}

abbrev pub methods : ServiceTrait (Task chain part_types web) ℕ ℕ Bool
methods = record {
  start = λ _ w. (ok tt, w);
  start_and_await = λ _ w. (ok true, w);
  await_start_or_stop = λ _ w. (ok true, w);
  stop = λ _ w. (true, w);
  stop_and_await = λ _ w. (ok false, w);
  await_stop = λ _ w. (ok false, w);
  state = λ _ _. true;
}

-- A runner is its task.
abbrev pub runners : Runners chain part_types web
runners = record {
  Runner = Task chain part_types web;
  new_runner = λ t. t;
  runner_shared = λ t. t.shared;
  methods = methods;
}
