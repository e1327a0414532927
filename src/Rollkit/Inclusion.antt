-- ===== src/Rollkit/Inclusion.antt =====
-- A transaction from `DeliverTx` to the block: what three requests in a row do, where each of them is
-- answered.
use mathlib.Core.Path.{subst}
use fuelmint.Common.{ℕ, List, [], ◌∷◌, Result, ok, map, ◌≡◌, sym, ap, ◌∙◌, All}
use fuelmint.Common.Int.{ℤ}
use fuelmint.Common.Exec.{Outcome, returned, returned-last, pure, ◌>>=◌}
use fuelmint.Fuel.{Fuel}
use fuelmint.App.Messages.{App, Request, Response, DeliverTxResponse, Defaulted}
use fuelmint.App.Handlers
use fuelmint.App.Call.{call}
use fuelmint.App.Deadlock.{IsUnlocked, call-Releases}
use fuelmint.App.Delivery.{IsOk, deliver_tx-Delivers}
use fuelmint.App.Blocks.{
  EndsBlock, produces, at_block, not_produced, not_committed, done, end_block-EndsBlock,
}
use fuelmint.App.Ledger.{ledger, ledger-call}
use fuelmint.Client.RoundTrip.{Encodes, Offers, taken, turned_down, Delivers-Offers}

module _ {F : Fuel} where
  -- The bytes of `tx` and `EndBlock` at `height` have led from one app to the other: the pool took
  -- `tx` without an error, a block was produced at `height` from the world with it, the database
  -- took the block, and then the transactions that the block had skipped left the pool.
  pub record IsIncluded (tx : F.Tx) (height : ℤ) (app app' : App F) : Type 0 where
    pub results : List (Result F.Error F.Inserted)
    pub skipped : List (F.Tx × F.Error)
    pub changes : F.DbTransaction
    pub offered : F.World
    pub produced : F.World
    pub stored : F.World
    pub inserts : F.insert app.tx_pool (F.precompute tx ∷ []) app.world ≡ (results, offered)
    pub all_taken : All IsOk results
    pub makes :
        produces F (record app { world = offered }) height ≡ (ok (skipped, changes), produced)
    pub commits : F.commit changes produced ≡ (ok tt, stored)
    pub leaves :
        app'
        ≡ at_block F app height (F.remove_txs app.tx_pool (map (λ s. F.tx_id s.0) skipped) stored)

module _ {F : Fuel} (P : Type 0) where
  -- A request that a handler answers: the handler has come to its end.
  call-deliver_tx :
      (bytes : List ℕ) (app : App F) {x : Result F.Error (Response F)} {app' : App F}
      → call {P = P} (Request.deliver_tx bytes) app ≡ (returned x, app')
      → (r : DeliverTxResponse) × (Handlers.deliver_tx bytes app ≡ (returned r, app'))
  unfolding call
  call-deliver_tx bytes app h =
      returned-last (Handlers.deliver_tx bytes) Response.deliver_tx app
        (returned-last (Handlers.deliver_tx bytes >>= λ r. pure (Response.deliver_tx r)) ok app h).1

  call-end_block :
      (height : ℤ) (app : App F) {x : Result F.Error (Response F)} {app' : App F}
      → call {P = P} (Request.end_block height) app ≡ (returned x, app')
      → (r : Defaulted) × (Handlers.end_block height app ≡ (returned r, app'))
  unfolding call
  call-end_block height app h =
      returned-last (Handlers.end_block height) Response.end_block app
        (returned-last (Handlers.end_block height >>= λ r. pure (Response.end_block r)) ok app h).1

module _ {F : Fuel} (tx : F.Tx) (height : ℤ) (app : App F) where
  block_after :
      (results : List (Result F.Error F.Inserted)) (world : F.World) {ending : Defaulted}
      {app' : App F}
      → F.insert app.tx_pool (F.precompute tx ∷ []) app.world ≡ (results, world)
      → All IsOk results
      → EndsBlock F height (record app { world = world }) (returned ending, app')
      → IsIncluded tx height app app'
  block_after results world inserts all (not_produced e w made d) = cc
  block_after results world inserts all (not_committed e skipped changes w w' made bad d) = cc
  block_after results world inserts all (done skipped changes w w' made fine d) = record {
    results = results;
    skipped = skipped;
    changes = changes;
    offered = world;
    produced = w;
    stored = w';
    inserts = inserts;
    all_taken = all;
    makes = made;
    commits = fine;
    leaves = ap (λ x. x.1) d;
  }

  -- `EndBlock` has come to its end after the pool took `tx`.
  offer-IsIncluded :
      {taking : DeliverTxResponse} {ending : Defaulted} {offered app' : App F}
      → Offers F tx app (returned taking, offered)
      → EndsBlock F height offered (returned ending, app')
      → IsIncluded tx height app app'
  offer-IsIncluded (turned_down results world inserts bad d) e = cc
  offer-IsIncluded {ending = ending} {app' = app'} (taken results world inserts all d) e =
      block_after results world inserts all
        (subst (λ a. EndsBlock F height a (returned ending, app')) (ap (λ x. x.1) d) e)

-- `DeliverTx` of the bytes of `tx`, `EndBlock` at `height` and `Commit` have led from `app` to `last`.
abbrev pub IsCommitted : {F : Fuel} → F.Tx → ℤ → App F → App F → Type 0
IsCommitted {F} tx height app last =
    let state = record app.current_state.value { block_height = height } in
    (app' : App F) × IsIncluded tx height app app'
    × (ledger last ≡ record { current = state; committed = state; world = app'.world })

module _ {F : Fuel} {P : Type 0} where
  still_free :
      (request : Request P) (app : App F) {x : Outcome (Result F.Error (Response F))} {app' : App F}
      → IsUnlocked app
      → call request app ≡ (x, app')
      → IsUnlocked app'
  still_free request app free e =
      subst IsUnlocked (ap (λ r. r.1) e) (call-Releases request app free).unlocked

module _ {F : Fuel} (P : Type 0) where
  ledger-commit :
      (app : App F) {x : Outcome (Result F.Error (Response F))} {last : App F}
      → IsUnlocked app
      → call {P = P} Request.commit app ≡ (x, last)
      → ledger last ≡ record (ledger app) { committed = (ledger app).current }
  ledger-commit app free e =
      sym (ap (λ r. ledger r.1) e) ∙ ledger-call {P = P} Request.commit app free

module _ {F : Fuel} (P : Type 0) (codec : Encodes F) (tx : F.Tx) (height : ℤ) (app : App F) where
  pub calls-IsCommitted :
      {x y z : Result F.Error (Response F)} {app₂ app₃ last : App F}
      → IsUnlocked app
      → call {P = P} (Request.deliver_tx (codec.to_bytes tx)) app ≡ (returned x, app₂)
      → call {P = P} (Request.end_block height) app₂ ≡ (returned y, app₃)
      → call {P = P} Request.commit app₃ ≡ (returned z, last)
      → IsCommitted tx height app last
  calls-IsCommitted {app₂ = app₂} {app₃ = app₃} free delivered ended committed =
      let free₂ = still_free {P = P} (Request.deliver_tx (codec.to_bytes tx)) app free delivered in
      let free₃ = still_free {P = P} (Request.end_block height) app₂ free₂ ended in
      let (taking, delivers) = call-deliver_tx P (codec.to_bytes tx) app delivered in
      let (ending, ends) = call-end_block P height app₂ ended in
      let offers : Offers F tx app (returned taking, app₂) = subst (Offers F tx app) delivers (
        Delivers-Offers (codec.to_bytes tx) tx app (codec.read_back tx)
          (deliver_tx-Delivers (codec.to_bytes tx) app)) in
      let block : EndsBlock F height app₂ (returned ending, app₃) =
        subst (EndsBlock F height app₂) ends (end_block-EndsBlock height app₂ free₂) in
      let included = offer-IsIncluded tx height app offers block in
      (
        app₃,
        included,
        ledger-commit P app₃ free₃ committed
            ∙ ap
                (λ a. record {
                  current = a.current_state.value;
                  committed = a.current_state.value;
                  world = app₃.world;
                })
                included.leaves,
      )
