-- ===== src/App/Tests.antt =====
-- The application on the chain of App/Fixture.antt.
use fuelmint.Common.{ℕ, List, [], ◌∷◌, false, ◌≡◌, refl, arith, Result, foldl}
use fuelmint.Common.Int.{pos, as_u64}
use fuelmint.Common.Exec.{Outcome, returned}
use fuelmint.State.{default}
use fuelmint.App.Messages.{Request, InfoResponse, Response}
use fuelmint.App.Handlers
use fuelmint.App.Call.{call}
use fuelmint.App.Deadlock.{IsUnlocked, Releases, call-Releases}
use fuelmint.App.Runs.{run}
use fuelmint.App.Commits.{committing, commit-last_block, KeepsHash, run-KeepsHash}
use fuelmint.App.Frames.{Agree, run-handled, handled, ending}
use fuelmint.App.Kinds.{Kind, IsOfKind, call-IsOfKind}
use fuelmint.App.Ledger.{ledger, advance, ledger-run}
use fuelmint.App.Success.{has_returned, accepts_all, run-accepts}
use fuelmint.App.Shuffles.{Shuffle, nil, left, right, run-Shuffle}
use fuelmint.App.Delivery.{Delivers, deliver_tx-Delivers}
use fuelmint.App.Blocks.{EndsBlock, end_block-EndsBlock}
use fuelmint.App.Reports.{info-end_block, run-info, report}
use fuelmint.App.Fixture.{chain, start, chain-TakesNonneg}

start-IsUnlocked : IsUnlocked start
start-IsUnlocked = ground arith

abbrev requests : List (Request ℕ)
requests =
    Request.begin_block 0
    ∷ Request.deliver_tx (7 ∷ [])
    ∷ Request.deliver_tx (150 ∷ [])
    ∷ Request.end_block (pos 1)
    ∷ Request.info 0
    ∷ Request.commit
    ∷ []

-- The valid transaction stays in the pool, the skipped one leaves it.
run-requests : (run requests start).1 ≡ record start {
  committed_state = record { value = record default { block_height = pos 1 }; held = false };
  current_state = record { value = record default { block_height = pos 1 }; held = false };
  world = record { pool = 7 ∷ []; blocks = 1 ∷ [] };
}
unfolding run call as_u64
run-requests = refl

-- A rejected transaction ends the sequence in a panic.
abbrev rejected : List (Request ℕ)
rejected = Request.end_block (pos 1) ∷ Request.deliver_tx (200 ∷ []) ∷ Request.commit ∷ []

abbrev no_block : Request ℕ
no_block = Request.end_block (pos 0)

call-Releases_example : Releases (call no_block) start
call-Releases_example = call-Releases no_block start start-IsUnlocked

abbrev answers : Outcome (List (Result ℕ (Response chain)))
answers = (run requests start).0

requests-returned : (responses : List (Result ℕ (Response chain))) × (answers ≡ returned responses)
unfolding run call as_u64
requests-returned = (_, refl)

run-accepts_example :
    has_returned (run requests start).0
    ≡ accepts_all chain start.config start.producer start.tx_pool (ledger start) requests
run-accepts_example = run-accepts requests start start-IsUnlocked

-- A commit of height 4, and a block at height 5 that is not committed.
abbrev two_blocks : List (Request ℕ)
two_blocks = committing requests (pos 4) (Request.flush ∷ []) (Request.end_block (pos 5) ∷ [])

two_blocks-returned :
    (responses : List (Result ℕ (Response chain))) × ((run two_blocks start).0 ≡ returned responses)
unfolding run call as_u64
two_blocks-returned = (_, refl)

commit-last_block_example : (run two_blocks start).1.committed_state.value.block_height ≡ pos 4
commit-last_block_example =
    commit-last_block requests (Request.flush ∷ []) (Request.end_block (pos 5) ∷ []) (pos 4) start
      start-IsUnlocked (refl, tt) (refl, tt) two_blocks-returned.1

run-handled_example :
    ((run (handled requests) start).1 ≡ (run requests start).1)
    × (ending (run (handled requests) start).0 ≡ ending answers)
run-handled_example = run-handled requests start

run-KeepsHash_example : KeepsHash [] (run rejected start).1
run-KeepsHash_example = run-KeepsHash [] rejected start (ground arith)

deliver_tx-Delivers_example : Delivers chain (200 ∷ []) start (Handlers.deliver_tx (200 ∷ []) start)
deliver_tx-Delivers_example = deliver_tx-Delivers (200 ∷ []) start

end_block-EndsBlock_example : EndsBlock chain (pos 9) start (Handlers.end_block (pos 9) start)
end_block-EndsBlock_example = end_block-EndsBlock (pos 9) start start-IsUnlocked

info-end_block_example :
    let app' = (Handlers.end_block (pos 9) start).1 in
    (Handlers.info app' ≡ (returned (report chain 9 []), app'))
    × (app'.committed_state.value ≡ default)
info-end_block_example = info-end_block chain-TakesNonneg 9 start (omega arith) start-IsUnlocked

run-info_example :
    let app' = (run rejected start).1 in
    (response : InfoResponse chain) × (Handlers.info app' ≡ (returned response, app'))
run-info_example =
    run-info chain-TakesNonneg rejected start (omega arith)
      (record { reportable = omega arith; unlocked = start-IsUnlocked })

abbrev seventh : Request ℕ
seventh = Request.deliver_tx (7 ∷ [])

delivered : (result : Result ℕ (Response chain)) × ((call seventh start).0 ≡ returned result)
unfolding call
delivered = (_, refl)

call-IsOfKind_example : IsOfKind Kind.deliver_tx (delivered.0)
call-IsOfKind_example = call-IsOfKind seventh start delivered.1

ledger-run_example :
    ledger (run requests start).1
    ≡ foldl (advance chain start.config start.producer start.tx_pool) (ledger start) requests
ledger-run_example = ledger-run requests start start-IsUnlocked requests-returned.1

-- The world of the specification at a sequence with a skipped transaction.
ledger_world :
    (foldl (advance chain start.config start.producer start.tx_pool) (ledger start) requests).world
    ≡ record { pool = 7 ∷ []; blocks = 1 ∷ [] }
unfolding as_u64
ledger_world = refl

abbrev consensus : List (Request ℕ)
consensus = Request.deliver_tx (7 ∷ []) ∷ Request.end_block (pos 1) ∷ Request.commit ∷ []

abbrev readers : List (Request ℕ)
readers = Request.info 0 ∷ Request.check_tx 5 ∷ Request.info 1 ∷ []

abbrev interleaved : List (Request ℕ)
interleaved =
    Request.info 0
    ∷ Request.deliver_tx (7 ∷ [])
    ∷ Request.end_block (pos 1)
    ∷ Request.check_tx 5
    ∷ Request.info 1
    ∷ Request.commit
    ∷ []

interleaved-Shuffle : Shuffle consensus readers interleaved
interleaved-Shuffle = right (Request.info 0) (
    left (Request.deliver_tx (7 ∷ [])) (
      left (Request.end_block (pos 1))
        (right (Request.check_tx 5) (right (Request.info 1) (left Request.commit nil)))))

run-Shuffle_example : Agree (run consensus start) (run interleaved start)
run-Shuffle_example =
    run-Shuffle chain-TakesNonneg start interleaved-Shuffle (omega arith) (omega arith)
      (record { reportable = omega arith; unlocked = start-IsUnlocked })
