-- ===== src/Rollkit/Tests.antt =====
-- The relay in front of the application on the chain of App/Fixture.antt.
use fuelmint.Common.{◌↔◌, true, List, [], ◌∷◌, ◌++◌, ◌≡◌, refl, arith, text}
use fuelmint.Common.Int.{pos, as_u64}
use fuelmint.Common.Exec.{returned}
use fuelmint.App.Call.{call}
use fuelmint.App.Messages.{App}
use fuelmint.App.Runs.{run}
use fuelmint.App.Fixture.{chain, start}
use fuelmint.Rollkit.Abci.{deliver_tx, commit, begin_block, end_block}
use fuelmint.Rollkit.Relay.{AbciRelayer, handle, new_relayer}
use fuelmint.Rollkit.Answers.{Answers, handle-Answers, Connects, new_relayer-Connects}
use fuelmint.Rollkit.Forwarding.{Call, Answer, serve, forwarded, told, serve-run}
use fuelmint.App.Ledger.{ledger}
use fuelmint.App.Success.{accepts_all}
use fuelmint.Rollkit.Liveness.{serve-returns_iff}
use fuelmint.Client.Tests.{gql, gql-PrintsHex, chain-Encodes}
use fuelmint.Client.Tx.{submit}
use fuelmint.Client.RoundTrip.{Posts}
use fuelmint.Rollkit.Inclusion.{IsCommitted}
use fuelmint.Rollkit.Journey.{submit-IsCommitted}
use fuelmint.Rollkit.Fixture.{abci, abci-Carries, abci-Hears}

abbrev relayer : AbciRelayer abci
relayer = record { client = tt }

handle-Answers_example :
    Answers abci relayer begin_block (pos 1) start (handle abci relayer begin_block (pos 1) start)
handle-Answers_example = handle-Answers abci relayer begin_block (pos 1) start

new_relayer-Connects_example :
    Connects abci
      (text "tcp://0.0.0.0:26658")
      start
      (new_relayer abci (text "tcp://0.0.0.0:26658") start)
new_relayer-Connects_example = new_relayer-Connects abci (text "tcp://0.0.0.0:26658") start

-- A block at height 1, whose start stays with the relay.
abbrev opening : List (Call abci)
opening = (begin_block, pos 1) ∷ (deliver_tx, 7 ∷ []) ∷ []

abbrev block : List (Call abci)
block = opening ++ (end_block, pos 1) ∷ (commit, tt) ∷ []

block-served :
    (answers : List (Answer abci)) × (end : App chain) × (serve abci relayer block start
      ≡ (returned answers, end))
unfolding serve handle call as_u64
block-served = (_, _, refl)

serve-run_example :
    run (forwarded abci-Carries block) start
    ≡ (returned (told abci-Carries block block-served.0), block-served.1)
serve-run_example = serve-run abci-Carries block start block-served.2

-- The specification accepts the block.
block-accepted :
    accepts_all chain start.config tt tt (ledger start) (forwarded abci-Carries block) ≡ true
unfolding as_u64
block-accepted = refl

serve-returns_iff_example :
    ((answers : List (Answer abci)) × (end : App chain) × (serve abci relayer block start
        ≡ (returned answers, end)))
    ↔ (accepts_all chain start.config tt tt (ledger start) (forwarded abci-Carries block) ≡ true)
serve-returns_iff_example =
    serve-returns_iff abci-Carries abci-Hears block start (ground arith)
      ((λ h. cc), ((λ _. refl), ((λ _. refl), ((λ _. refl), tt))))

submit-IsCommitted_example :
    Posts gql (7 ∷ []) 7 0 (submit gql (7 ∷ []) 0)
    × IsCommitted 7
        (pos 1)
        (run (forwarded abci-Carries ((begin_block, pos 1) ∷ [])) start).1
        block-served.1
submit-IsCommitted_example =
    submit-IsCommitted abci-Carries gql-PrintsHex chain-Encodes 7 (7 ∷ []) 0
      ((begin_block, pos 1) ∷ []) (7 ∷ []) (pos 1) tt (pos 1) start refl refl refl refl
      (ground arith) block-served.2
