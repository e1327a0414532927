-- ===== src/Client/Mutations.antt =====
-- What the two mutations do, on a text that a `HexString` prints: they never panic at its digits,
-- they agree on which transactions are malformed, and they differ in what they send.
use fuelmint.Common.{
  ap, ℕ, List, Bool, Option, some, none, Result, ok, err, ◌≡◌, ◌≢◌, map, text, inl, inr,
  Result-cases,
}
use fuelmint.Common.Exec.{Outcome, returned, panicked, from_bytes}
use fuelmint.Fuel.{Fuel}
use fuelmint.App.Messages.{App, DeliverTxResponse}
use fuelmint.App.Handlers
use fuelmint.App.Delivery.{Delivers, deliver_tx-Delivers}
use fuelmint.Client.Gql.{Gql, PrintsHex}
use fuelmint.Client.Tx.{dry_run, submit}

module _ {F : Fuel} (G : Gql F) where
  -- What `dry_run` may do with the bytes `bs` from `w`.
  pub data DryRuns (producer : G.BlockProducer) (bs : List ℕ) (utxo_validation : Option Bool)
      (w : G.World) (r : Outcome (Result G.Error (List G.ReceiptNode)) × G.World) : Type 0 where
    malformed :
        (e : F.Error)
        → F.from_bytes bs ≡ err e
        → r ≡ (returned (err (G.from_error e)), w)
        → DryRuns producer bs utxo_validation w r
    failed :
        (tx : F.Tx) (e : G.Error) (w' : G.World)
        → F.from_bytes bs ≡ ok tx
        → G.dry_run_tx producer (F.precompute tx) none utxo_validation w ≡ (err e, w')
        → r ≡ (returned (err e), w')
        → DryRuns producer bs utxo_validation w r
    ran :
        (tx : F.Tx) (receipts : List G.Receipt) (w' : G.World)
        → F.from_bytes bs ≡ ok tx
        → G.dry_run_tx producer (F.precompute tx) none utxo_validation w ≡ (ok receipts, w')
        → r ≡ (returned (ok (map G.receipt_into receipts)), w')
        → DryRuns producer bs utxo_validation w r

  -- What `submit` may do with the bytes `bs` from `w`. Any answer of the node counts as success.
  pub data Submits (bs : List ℕ) (w : G.World)
      (r : Outcome (Result G.Error G.TransactionNode) × G.World) : Type 0 where
    malformed :
        (e : F.Error)
        → F.from_bytes bs ≡ err e
        → r ≡ (returned (err (G.from_error e)), w)
        → Submits bs w r
    unreachable :
        (tx : F.Tx) (e : G.Error) (w' : G.World)
        → F.from_bytes bs ≡ ok tx
        → G.post (text "http://127.0.0.1:26657") (G.tx_commit_body bs) w ≡ (err e, w')
        → r ≡ (returned (err e), w')
        → Submits bs w r
    posted :
        (tx : F.Tx) (answer : G.HttpResponse) (w' : G.World)
        → F.from_bytes bs ≡ ok tx
        → G.post (text "http://127.0.0.1:26657") (G.tx_commit_body bs) w ≡ (ok answer, w')
        → r ≡ (returned (ok (G.transaction_from (F.precompute tx))), w')
        → Submits bs w r

  submitted-decodes :
      (bs : List ℕ) (w : G.World) {r : Outcome (Result G.Error G.TransactionNode) × G.World}
      {node : G.TransactionNode} {w' : G.World}
      → Submits bs w r
      → r ≡ (returned (ok node), w')
      → (tx : F.Tx) × (F.from_bytes bs ≡ ok tx)
  submitted-decodes bs w (malformed e bad d) h = cc
  submitted-decodes bs w (unreachable tx e w' good sent d) h = (tx, good)
  submitted-decodes bs w (posted tx answer w' good sent d) h = (tx, good)

decoded-ne-panicked :
    {F : Fuel} (bs : List ℕ) (app : App F) {tx : F.Tx} {r : Outcome DeliverTxResponse × App F}
    → F.from_bytes bs ≡ ok tx
    → Delivers F bs app r
    → r.0 ≢ panicked from_bytes
decoded-ne-panicked bs app good (Delivers.malformed e bad d) p = cc
decoded-ne-panicked bs app good (Delivers.accepted t rs w g i all d) p = cc (ap (λ x. x.0) d)
decoded-ne-panicked bs app good (Delivers.refused t rs w g i some_bad d) p = cc (ap (λ x. x.0) d)

module _ {F : Fuel} {G : Gql F} (hex : PrintsHex G) (tx : G.HexString) (w : G.World) where
  -- With a producer in the context, `dry_run` does one of these three things.
  pub dry_run-DryRuns :
      (ctx : G.Context) (utxo_validation : Option Bool) {producer : G.BlockProducer}
      → G.producer_of ctx ≡ some producer
      → DryRuns G producer (hex.bytes tx) utxo_validation w (dry_run G ctx tx utxo_validation w)
  unfolding dry_run
  dry_run-DryRuns ctx utxo_validation {producer} there =
      rw (there, hex.printed tx, hex.decoded tx)
        (elim (Result-cases (F.from_bytes (hex.bytes tx))) [
          | inr (e, bad) ↦ malformed e bad (rw bad)
          | inl (fuel_tx, good) ↦
              let (outcome, w') =
                G.dry_run_tx producer (F.precompute fuel_tx) none utxo_validation w in
              elim (Result-cases outcome) [
                | inr (e, bad) ↦ failed fuel_tx e w' good (λ i. (bad i, w')) (rw (good, bad))
                | inl (receipts, fine) ↦
                    ran fuel_tx receipts w' good (λ i. (fine i, w')) (rw (good, fine))
              ]
        ])

  -- `submit` does one of these three things.
  pub submit-Submits : Submits G (hex.bytes tx) w (submit G tx w)
  unfolding submit
  submit-Submits =
      rw (hex.printed tx, hex.decoded tx)
        (elim (Result-cases (F.from_bytes (hex.bytes tx))) [
          | inr (e, bad) ↦ malformed e bad (rw bad)
          | inl (fuel_tx, good) ↦
              let (outcome, w') =
                G.post (text "http://127.0.0.1:26657") (G.tx_commit_body (hex.bytes tx)) w in
              elim (Result-cases outcome) [
                | inr (e, bad) ↦ unreachable fuel_tx e w' good (λ i. (bad i, w')) (rw (good, bad))
                | inl (answer, fine) ↦
                    posted fuel_tx answer w' good (λ i. (fine i, w')) (rw (good, fine))
              ]
        ])

  -- The bytes of a transaction that `submit` has accepted do not make `DeliverTx` panic at decoding.
  submit-deliver_tx :
      (app : App F) {node : G.TransactionNode} {w' : G.World}
      → submit G tx w ≡ (returned (ok node), w')
      → (Handlers.deliver_tx (hex.bytes tx) app).0 ≢ panicked from_bytes
  submit-deliver_tx app h =
      let (fuel_tx, good) = submitted-decodes G _ w submit-Submits h in
      decoded-ne-panicked _ app good (deliver_tx-Delivers (hex.bytes tx) app)
