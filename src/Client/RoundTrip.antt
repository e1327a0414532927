-- ===== src/Client/RoundTrip.antt =====
-- A transaction on its way: a client encodes it, `submit` posts it, and it comes back as `DeliverTx`.
use fuelmint.Common.{ℕ, List, [], ◌∷◌, Result, ok, err, ◌≡◌, All, text}
use fuelmint.Common.Exec.{Outcome, returned, panicked, insert_tx}
use fuelmint.Fuel.{Fuel}
use fuelmint.App.Messages.{App, DeliverTxResponse, defaulted}
use fuelmint.App.Delivery.{Delivers, IsOk, HasError}
use fuelmint.Client.Gql.{Gql, PrintsHex}
use fuelmint.Client.Tx.{submit}
use fuelmint.Client.Mutations.{Submits, submit-Submits}

-- `Serializable` of fuel-types: what it writes is read back.
pub record Encodes (F : Fuel) : Type 0 where
  pub to_bytes : F.Tx → List ℕ
  pub read_back : (tx : F.Tx) → F.from_bytes (to_bytes tx) ≡ ok tx

-- The pool was offered `tx` with its cached fields, and the answer is the JSON of that.
pub data Offers (F : Fuel) (tx : F.Tx) (app : App F) (r : Outcome DeliverTxResponse × App F)
    : Type 0 where
  taken :
      (results : List (Result F.Error F.Inserted)) (world : F.World)
      → F.insert app.tx_pool (F.precompute tx ∷ []) app.world ≡ (results, world)
      → All IsOk results
      → r ≡ (
        returned (record { tx_data = F.to_json (F.precompute tx); others = defaulted }),
        record app { world = world },
      )
      → Offers F tx app r
  turned_down :
      (results : List (Result F.Error F.Inserted)) (world : F.World)
      → F.insert app.tx_pool (F.precompute tx ∷ []) app.world ≡ (results, world)
      → HasError results
      → r ≡ (panicked insert_tx, record app { world = world })
      → Offers F tx app r

-- The bytes of `tx` were posted once, and the answer is `tx` with its cached fields.
pub data Posts {F : Fuel} (G : Gql F) (bytes : List ℕ) (tx : F.Tx) (w : G.World)
    (r : Outcome (Result G.Error G.TransactionNode) × G.World) : Type 0 where
  lost :
      (e : G.Error) (w' : G.World)
      → G.post (text "http://127.0.0.1:26657") (G.tx_commit_body bytes) w ≡ (err e, w')
      → r ≡ (returned (err e), w')
      → Posts G bytes tx w r
  sent :
      (answer : G.HttpResponse) (w' : G.World)
      → G.post (text "http://127.0.0.1:26657") (G.tx_commit_body bytes) w ≡ (ok answer, w')
      → r ≡ (returned (ok (G.transaction_from (F.precompute tx))), w')
      → Posts G bytes tx w r

pub Delivers-Offers :
    {F : Fuel} (bytes : List ℕ) (tx : F.Tx) (app : App F) {r : Outcome DeliverTxResponse × App F}
    → F.from_bytes bytes ≡ ok tx
    → Delivers F bytes app r
    → Offers F tx app r
Delivers-Offers bytes tx app reads (Delivers.malformed e bad d) = cc
Delivers-Offers bytes tx app reads (Delivers.accepted tx' results world good i all d) =
    let same : tx' ≡ tx = cc in taken results world (rw same at i) all (rw same at d)
Delivers-Offers bytes tx app reads (Delivers.refused tx' results world good i some_bad d) =
    let same : tx' ≡ tx = cc in turned_down results world (rw same at i) some_bad d

Submits-Posts :
    {F : Fuel} (G : Gql F) (bytes : List ℕ) (tx : F.Tx) (w : G.World)
    {r : Outcome (Result G.Error G.TransactionNode) × G.World}
    → F.from_bytes bytes ≡ ok tx
    → Submits G bytes w r
    → Posts G bytes tx w r
Submits-Posts G bytes tx w reads (Submits.malformed e bad d) = cc
Submits-Posts G bytes tx w reads (Submits.unreachable tx' e w' good post d) = lost e w' post d
Submits-Posts G bytes tx w reads (Submits.posted tx' answer w' good post d) =
    let same : tx' ≡ tx = cc in sent answer w' post (rw same at d)

module _ {F : Fuel} {G : Gql F} (hex : PrintsHex G) (codec : Encodes F) where
  -- `submit` of a text of the bytes of `tx` posts those bytes.
  pub submit-Posts :
      (tx : F.Tx) (h : G.HexString) (w : G.World)
      → hex.bytes h ≡ codec.to_bytes tx
      → Posts G (codec.to_bytes tx) tx w (submit G h w)
  submit-Posts tx h w encoded =
      Submits-Posts G (codec.to_bytes tx) tx w (codec.read_back tx)
        (rw encoded at (submit-Submits {G = G} hex h w))
