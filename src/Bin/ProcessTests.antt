-- ===== src/Bin/ProcessTests.antt =====
-- The process on the libraries of Bin/Tests.antt, where the services end first and come to a good end.
use fuelmint.Common.{
  true, text, ◌≡◌, ◌++◌, ℕ, List, [], ◌∷◌, ◌+◌, ◌==◌, if◌then◌else◌, some, none, ok, err, Result,
  refl,
}
use fuelmint.App.Fixture.{chain}
use fuelmint.App.Messages.{App}
use fuelmint.GraphApi.Fixture.{web-AddsNewRoutes}
use fuelmint.SubServices.Fixture.{parts}
use fuelmint.Service.Fixture.{runners}
use fuelmint.Rollkit.Settings.{default_flags}
use fuelmint.Bin.Arguments.{arguments, default_of, has_distinct}
use fuelmint.Bin.Cli.{Command}
use fuelmint.Bin.Boot.{Booted, Ended, services}
use fuelmint.Bin.Process.{Fuelmint, Opt, main}
use fuelmint.Bin.Layers.{Tower, Finishes}
use fuelmint.Bin.Outcomes.{Runs, main-Runs}
use fuelmint.Bin.Tests.{cli, host, no_env, command, graph_shares, runner_shares}

-- A builder that counts its services.
abbrev tower : Tower chain
tower = record {
  Consensus = App chain;
  Mempool = App chain;
  Snapshot = App chain;
  Info = App chain;
  split = λ app _. (app, app, app, app);
  Layers = List ℕ;
  new_layers = [];
  load_shed = λ layers. 0 ∷ layers;
  buffer = λ n layers. n ∷ layers;
  rate_limit = λ n seconds layers. n ∷ seconds ∷ layers;
  Layered = λ S. List ℕ × S;
  service = λ layers s. (layers, s);
  Builder = ℕ;
  Server = ℕ;
  builder = 0;
  consensus = λ _ n. n + 1;
  snapshot = λ _ n. n + 1;
  mempool = λ _ n. n + 1;
  info = λ _ n. n + 1;
  finish = λ n. if n == 4 then some n else none;
}

tower-Finishes : Finishes tower
tower-Finishes _ _ _ _ = (4, refl)

abbrev both_fine : ℕ → Booted host parts runners → ℕ → Ended ℕ ℕ × ℕ
both_fine _ _ w = (services (ok tt), w)

abbrev parsed : Result ℕ (Opt cli)
parsed = ok (record { command = Fuelmint.run command })

abbrev unparsed : Result ℕ (Command cli)
unparsed = err 2

main-Runs_example :
    Runs host parts runners tower both_fine no_env parsed unparsed 4000
      (main host parts runners tower both_fine no_env parsed unparsed 4000)
main-Runs_example =
    main-Runs host parts runners tower both_fine no_env web-AddsNewRoutes graph_shares runner_shares
      tower-Finishes parsed unparsed 4000

-- clap refuses a command of which two arguments have one name.
arguments_distinct : has_distinct (arguments (text "/root/.fuel/db")) ≡ true
arguments_distinct = refl

-- Where neither program is told otherwise, the relay connects to the port of the ABCI server.
ports_agree :
    (port : List ℕ) × (default_of (text "abci-port") (arguments []) ≡ some port)
    × (default_flags.address ≡ text "tcp://0.0.0.0:" ++ port)
ports_agree = (_, refl, refl)
