-- ===== src/App/Ledger.antt =====
-- What the application does to the world. The specification has no locks, no responses and no
-- panics: only the two states and the world behind the handles.
use fuelmint.Common.{List, [], ◌∷◌, Result, ok, err, none, map, ◌≡◌, refl, ap, ◌∙◌, foldl, arith}
use fuelmint.Common.Int.{ℤ, as_u64}
use fuelmint.Common.Exec.{Outcome, returned, pure, state-bind-pure, ◌>>=◌}
use fuelmint.Fuel.{Fuel}
use fuelmint.State.{State}
use fuelmint.Config.{Config}
use fuelmint.App.Messages.{App, Request, Response, Defaulted}
use fuelmint.App.Handlers
use fuelmint.App.Call.{call}
use fuelmint.App.Deadlock.{IsUnlocked, call-Releases}
use fuelmint.App.Parts.{HasSameParts, call-HasSameParts}
use fuelmint.App.Blocks.{EndsBlock, not_produced, not_committed, done, end_block-EndsBlock}
use fuelmint.App.Runs.{run, run-cons}

pub record Ledger (F : Fuel) : Type 0 where
  pub current : State
  pub committed : State
  pub world : F.World

abbrev pub ledger : {F : Fuel} → App F → Ledger F
ledger app = record {
  current = app.current_state.value;
  committed = app.committed_state.value;
  world = app.world;
}

module _ (F : Fuel) (config : Config F) (producer : F.BlockProducer) (pool : F.TxPool) where
  -- the world after the bytes of a transaction, as they were decoded
  abbrev pub offered : F.World → Result F.Error F.Tx → F.World
  offered w (err _) = w
  offered w (ok tx) = (F.insert pool (F.precompute tx ∷ []) w).1

  -- the world after the database has been asked to take a block, with what the block has skipped
  abbrev pub cleaned : List (F.Tx × F.Error) → Result F.Error (Unit {0}) × F.World → F.World
  cleaned skipped (err _, w) = w
  cleaned skipped (ok _, w) = F.remove_txs pool (map (λ s. F.tx_id s.0) skipped) w

  -- the world after a block has been produced or not
  abbrev pub stored : Result F.Error (List (F.Tx × F.Error) × F.DbTransaction) × F.World → F.World
  stored (err _, w) = w
  stored (ok (skipped, changes), w) = cleaned skipped (F.commit changes w)

  -- the specification of `EndBlock`
  abbrev pub end_height : ℤ → Ledger F → Ledger F
  end_height height l = record l {
    current = record l.current { block_height = height };
    world = stored (
        F.produce_and_execute_block producer (F.block_height_from (as_u64 height)) none
          (F.block_gas_limit config.chain_conf) l.world);
  }

  -- the specification of one request
  abbrev pub advance : {P : Type 0} → Ledger F → Request P → Ledger F
  advance l (Request.deliver_tx bytes) = record l { world = offered l.world (F.from_bytes bytes) }
  advance l (Request.end_block height) = end_height height l
  advance l Request.commit = record l { committed = l.current }
  advance l _ = l

module _ {F : Fuel} where
  ledger-end_block :
      (height : ℤ) (app : App F) {r : Outcome Defaulted × App F}
      → EndsBlock F height app r
      → ledger r.1 ≡ end_height F app.config app.producer app.tx_pool height (ledger app)
  ledger-end_block height app (not_produced e w made d) = rw (d, made)
  ledger-end_block height app (not_committed e skipped changes w w' made refused d) =
      rw (d, made, refused)
  ledger-end_block height app (done skipped changes w w' made taken d) = rw (d, made, taken)

module _ {F : Fuel} {P : Type 0} where
  abbrev pub advance_by : App F → Ledger F → Request P → Ledger F
  advance_by app = advance F app.config app.producer app.tx_pool

  -- Every request moves the ledger as the specification says, also one that panics.
  pub ledger-call :
      (request : Request P) (app : App F)
      → IsUnlocked app
      → ledger (call request app).1 ≡ advance_by app (ledger app) request
  unfolding call
  ledger-call (Request.info _) app free = ground arith
  ledger-call (Request.deliver_tx tx) app free = ground arith
  ledger-call (Request.end_block h) app free =
      ap ledger (
        state-bind-pure (Handlers.end_block h >>= λ r. pure (Response.end_block r)) ok app
        ∙ state-bind-pure (Handlers.end_block h) Response.end_block app)
      ∙ ledger-end_block h app (end_block-EndsBlock h app free)
  ledger-call Request.commit app free = ground arith
  ledger-call _ app free = ground arith

  advance_by-parts :
      (app app' : App F) (l : Ledger F) (requests : List (Request P))
      → HasSameParts app app'
      → foldl (advance_by app') l requests ≡ foldl (advance_by app) l requests
  advance_by-parts app app' l requests same =
      rw (same.same_config, same.same_producer, same.same_pool)

  -- From free locks, a sequence of requests that comes to its end leaves the two states and the world
  -- that the specification computes from those at its start, with one configuration, producer and
  -- pool throughout.
  pub ledger-run :
      (requests : List (Request P)) (app : App F) {responses : List (Result F.Error (Response F))}
      → IsUnlocked app
      → (run requests app).0 ≡ returned responses
      → ledger (run requests app).1
        ≡ foldl (advance F app.config app.producer app.tx_pool) (ledger app) requests
  ledger-run [] app free h = unfold run in refl
  ledger-run (request ∷ rest) app free h =
      let (ys, e, same) = run-cons request rest app h in
      let app' = (call request app).1 in
      ap ledger same
      ∙ ledger-run rest app' (call-Releases request app free).unlocked e
      ∙ ap (λ l. foldl (advance_by app') l rest) (ledger-call request app free)
      ∙ advance_by-parts app app' (advance_by app (ledger app) request) rest
          (call-HasSameParts request app)
