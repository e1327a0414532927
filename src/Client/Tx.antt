-- ===== src/Client/Tx.antt =====
-- fuelmint/src/client/tx.rs: the mutations `dry_run` and `submit`.
use fuelmint.Common.{List, Bool, Option, none, map, text, strip_prefix, map_err}
use fuelmint.Common.Exec.{unwrap, hex_decode, no_data}
use fuelmint.Common.Exec
use fuelmint.Common.Try.{Try, pure, lift, call, or_panic, total, ◌>>=◌}
use fuelmint.Fuel.{Fuel}
use fuelmint.Client.Gql.{Gql}

module _ {F : Fuel} (G : Gql F) where
  unfoldable pub dry_run :
      G.Context → G.HexString → Option Bool → Try G.World G.Error (List G.ReceiptNode)
  dry_run ctx tx utxo_validation = do
    block_producer ← or_panic no_data (G.producer_of ctx)
    let hex_string = G.to_string tx
    digits ← or_panic Exec.strip_prefix (strip_prefix (text "0x") hex_string)
    bytes ← total (unwrap hex_decode (G.decode digits))
    decoded ← lift (map_err G.from_error (F.from_bytes bytes))
    let fuel_tx = F.precompute decoded
    receipts ← call (G.dry_run_tx block_producer fuel_tx none utxo_validation)
    pure (map G.receipt_into receipts)

  unfoldable pub submit : G.HexString → Try G.World G.Error G.TransactionNode
  submit tx = do
    let hex_string = G.to_string tx
    digits ← or_panic Exec.strip_prefix (strip_prefix (text "0x") hex_string)
    bytes ← total (unwrap hex_decode (G.decode digits))
    decoded ← lift (map_err G.from_error (F.from_bytes bytes))
    let fuel_tx = F.precompute decoded
    let req = G.tx_commit_body bytes
    _ ← call (G.post (text "http://127.0.0.1:26657") req)
    pure (G.transaction_from fuel_tx)
