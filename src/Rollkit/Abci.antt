-- ===== src/Rollkit/Abci.antt =====
-- What rollkit-node/app.go calls of tendermint.
use fuelmint.Common.{ℕ, List, Bool, Option, Result}
use fuelmint.Common.Int.{ℤ}

-- The methods of `abcitypes.Application`.
pub data Method : Type 0 where
  info set_option deliver_tx check_tx commit query init_chain begin_block end_block : Method
  list_snapshots offer_snapshot load_snapshot_chunk apply_snapshot_chunk : Method
  generate_fraud_proof get_app_hash verify_fraud_proof : Method

pub record Abci : Type 1 where
  pub Error : Type 0
  pub World : Type 0
  pub Client : Type 0
  -- `abcitypes.RequestInfo` and so on, where `Commit` takes nothing, and `abcitypes.ResponseInfo`
  pub Req : Method → Type 0
  pub Res : Method → Type 0
  -- `abcitypes.ResponseInfo{}`
  pub zero_response : (m : Method) → Res m
  -- `req.Header.Height`
  pub height : Req begin_block → ℤ
  -- `abcicli.NewSocketClient`
  pub new_socket_client : List ℕ → Bool → World → Client × World
  -- `client.Start`, with `none` for the error `nil`
  pub start : Client → World → Option Error × World
  -- `client.InfoSync` and so on
  pub sync : (m : Method) → Client → Req m → World → Result Error (Res m) × World
