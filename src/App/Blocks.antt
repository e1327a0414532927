-- ===== src/App/Blocks.antt =====
-- `EndBlock`: the order of block production, commit of the database and cleaning of the pool.
use fuelmint.Common.{
  List, [], ◌∷◌, Result, ok, err, none, ◌≡◌, inl, inr, refl, Result-cases, false, map,
}
use fuelmint.Common.Int.{ℤ, as_u64}
use fuelmint.Common.Exec.{Outcome, returned, panicked, produce_block, commit_block}
use fuelmint.Fuel.{Fuel}
use fuelmint.App.Messages.{App, Defaulted, defaulted}
use fuelmint.App.Handlers
use fuelmint.App.Handlers.{tx_ids_to_remove}
use fuelmint.App.Deadlock.{IsUnlocked}

module _ (F : Fuel) where
  -- The app after `EndBlock`: only the current height and the world are new.
  abbrev pub at_block : App F → ℤ → F.World → App F
  at_block app height world = record app {
    current_state = record {
      value = record app.current_state.value { block_height = height };
      held = false;
    };
    world = world;
  }

  -- the block that the producer is asked for
  abbrev pub produces :
      App F → ℤ → Result F.Error (List (F.Tx × F.Error) × F.DbTransaction) × F.World
  produces app height =
      F.produce_and_execute_block app.producer (F.block_height_from (as_u64 height)) none
        (F.block_gas_limit app.config.chain_conf) app.world

-- What `EndBlock` may do at a height. The height is set in every case.
pub data EndsBlock (F : Fuel) (height : ℤ) (app : App F) (r : Outcome Defaulted × App F)
    : Type 0 where
  -- no block: nothing is committed, and the pool is not cleaned
  not_produced :
      (e : F.Error) (w : F.World)
      → produces F app height ≡ (err e, w)
      → r ≡ (panicked produce_block, at_block F app height w)
      → EndsBlock F height app r
  -- a block that the database does not take: the pool is not cleaned
  not_committed :
      (e : F.Error) (skipped : List (F.Tx × F.Error)) (changes : F.DbTransaction) (w w' : F.World)
      → produces F app height ≡ (ok (skipped, changes), w)
      → F.commit changes w ≡ (err e, w')
      → r ≡ (panicked commit_block, at_block F app height w')
      → EndsBlock F height app r
  -- a block: its changes are committed, and then the skipped transactions leave the pool
  done :
      (skipped : List (F.Tx × F.Error)) (changes : F.DbTransaction) (w w' : F.World)
      → produces F app height ≡ (ok (skipped, changes), w)
      → F.commit changes w ≡ (ok tt, w')
      → r ≡ (
        returned defaulted,
        at_block F app height (F.remove_txs app.tx_pool (map (λ s. F.tx_id s.0) skipped) w'),
      )
      → EndsBlock F height app r

tx_ids_to_remove-map :
    (F : Fuel) (skipped : List (F.Tx × F.Error))
    → tx_ids_to_remove F skipped ≡ map (λ s. F.tx_id s.0) skipped
tx_ids_to_remove-map F [] = refl
tx_ids_to_remove-map F (s ∷ rest) = rw (tx_ids_to_remove-map F rest)

module _ {F : Fuel} where
  -- From free locks, `EndBlock` does one of these three things at any height.
  pub end_block-EndsBlock :
      (height : ℤ) (app : App F)
      → IsUnlocked app
      → EndsBlock F height app (Handlers.end_block height app)
  unfolding Handlers.end_block
  end_block-EndsBlock height app free =
      let (produced, w) = produces F app height in
      elim (Result-cases produced) [
        | inr (e, bad) ↦ not_produced e w (λ i. (bad i, w)) (rw (free.current_free, bad))
        | inl ((skipped, changes), good) ↦
            let (committed, w') = F.commit changes w in
            elim (Result-cases committed) [
              | inr (e, bad) ↦
                  not_committed e skipped changes w w' (λ i. (good i, w)) (λ i. (bad i, w'))
                    (rw (free.current_free, good, bad))
              | inl (_, fine) ↦
                  done skipped changes w w' (λ i. (good i, w)) (λ i. (fine i, w'))
                    (rw (free.current_free, good, fine, ← tx_ids_to_remove-map F skipped))
            ]
      ]
