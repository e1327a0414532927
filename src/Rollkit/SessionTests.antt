-- ===== src/Rollkit/SessionTests.antt =====
-- A block and an `Info` through the relay, at the application of Bin/Tests.antt.
use fuelmint.Common.{List, [], ◌∷◌, ◌++◌, ◌≡◌, refl, arith}
use fuelmint.Common.Int.{pos, as_u64}
use fuelmint.Common.Exec.{returned}
use fuelmint.App.Call.{call}
use fuelmint.App.Messages.{App, Response}
use fuelmint.App.Reports.{report}
use fuelmint.App.Fixture.{chain, chain-TakesNonneg}
use fuelmint.App.Handlers
use fuelmint.Service.Task
use fuelmint.Service.Node.{new}
use fuelmint.SubServices.Init.{init_sub_services}
use fuelmint.GraphApi.Router.{new_service}
use fuelmint.Bin.Boot.{prepare}
use fuelmint.Bin.Configure.{get_config}
use fuelmint.GraphApi.Fixture.{web-AddsNewRoutes}
use fuelmint.SubServices.Fixture.{parts}
use fuelmint.Service.Fixture.{runners}
use fuelmint.Bin.Tests.{host, no_env, command, graph_shares, runner_shares, prepared}
use fuelmint.Rollkit.Abci.{info, deliver_tx, commit, begin_block, end_block}
use fuelmint.Rollkit.Relay.{AbciRelayer, handle}
use fuelmint.Rollkit.Forwarding.{Call, Answer, serve}
use fuelmint.Rollkit.Fixture.{abci, abci-Carries}
use fuelmint.Rollkit.Session.{session-reports}

abbrev relayer : AbciRelayer abci
relayer = record { client = tt }

abbrev opening : List (Call abci)
opening = (begin_block, pos 1) ∷ (deliver_tx, 7 ∷ []) ∷ []

block-served :
    (answers : List (Answer abci)) × (end : App chain) × (serve abci relayer
        (opening ++ (end_block, pos 1) ∷ (commit, tt) ∷ [])
        prepared.0.service
      ≡ (returned answers, end))
unfolding prepared prepare get_config new init_sub_services new_service Task.new Handlers.new serve
    handle call as_u64
block-served = (_, _, refl)

info-served :
    (res : Response chain) × (end : App chain) × (handle abci relayer info tt block-served.1
      ≡ (returned res, end))
unfolding block-served handle call
info-served = (_, _, refl)

session-reports_example :
    (info-served.1.committed_state.value ≡ record { block_height = pos 1; app_hash = [] })
    × (info-served.0 ≡ Response.info (report chain 1 []))
session-reports_example =
    session-reports host parts runners no_env command web-AddsNewRoutes graph_shares runner_shares
      chain-TakesNonneg abci-Carries 4000 opening (pos 1) tt tt tt 1 prepared.0.service prepared.2
      refl (omega arith) refl refl refl block-served.2 info-served.2
