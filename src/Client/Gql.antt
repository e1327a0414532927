-- ===== src/Client/Gql.antt =====
-- What fuelmint/src/client/tx.rs calls of fuel-core, hex, tendermint-rpc and reqwest.
use fuelmint.Common.{ℕ, List, Bool, Option, Result, ok, ◌≡◌, ◌++◌, text}
use fuelmint.Fuel.{Fuel}

pub record Gql (F : Fuel) : Type 1 where
  pub Error : Type 0  -- `async_graphql::Error`
  pub World : Type 0
  pub Context : Type 0
  pub HexString : Type 0
  pub BlockProducer : Type 0
  pub Height : Type 0
  pub Receipt : Type 0
  pub ReceiptNode : Type 0  -- `receipt::Receipt` of the schema
  pub TransactionNode : Type 0  -- `types::Transaction` of the schema
  pub HttpResponse : Type 0
  pub HexError : Type 0
  -- `From` for the errors of `from_bytes`
  pub from_error : F.Error → Error
  -- `ctx.data_unchecked`, with `none` where it panics
  pub producer_of : Context → Option BlockProducer
  -- `HexString::to_string` and `hex::decode`
  pub to_string : HexString → List ℕ
  pub decode : List ℕ → Result HexError (List ℕ)
  pub dry_run_tx :
      BlockProducer
      → F.Tx
      → Option Height
      → Option Bool
      → World
      → Result Error (List Receipt) × World
  pub receipt_into : Receipt → ReceiptNode
  pub transaction_from : F.Tx → TransactionNode
  -- `tx_commit::Request::new(tx).into_json().into_bytes()`
  pub tx_commit_body : List ℕ → List ℕ
  -- `client.post(url).body(body).send()`
  pub post : List ℕ → List ℕ → World → Result Error HttpResponse × World

-- A `HexString` holds bytes, and prints as `0x` and digits that `hex::decode` reads back.
pub record PrintsHex {F : Fuel} (G : Gql F) : Type 0 where
  pub bytes : G.HexString → List ℕ
  pub digits : G.HexString → List ℕ
  pub printed : (h : G.HexString) → G.to_string h ≡ text "0x" ++ digits h
  pub decoded : (h : G.HexString) → G.decode (digits h) ≡ ok (bytes h)
