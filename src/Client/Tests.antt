-- ===== src/Client/Tests.antt =====
-- The mutations over the chain of App/Fixture.antt. A digit of the model is a byte, and the node
-- answers every request with the status 200, but the empty one.
use fuelmint.Common.{ℕ, List, [], ◌∷◌, ◌++◌, Option, none, some, Result, ok, err, ◌≡◌, refl, text}
use fuelmint.Common.Exec.{returned}
use fuelmint.App.Fixture.{chain}
use fuelmint.Client.Gql.{Gql, PrintsHex}
use fuelmint.Client.Tx.{dry_run, submit}
use fuelmint.Client.RoundTrip.{Encodes}
use fuelmint.Client.Mutations.{DryRuns, dry_run-DryRuns, Submits, submit-Submits}

abbrev simulate : ℕ → ℕ → Result ℕ (List ℕ) × ℕ
simulate tx w = (ok (tx ∷ []), w)

abbrev send : List ℕ → ℕ → Result ℕ ℕ × ℕ
send [] w = (err 7, w)
send (_ ∷ _) w = (ok 200, w)

abbrev pub gql : Gql chain
gql = record {
  Error = ℕ;
  World = ℕ;
  Context = Option ℕ;
  HexString = List ℕ;
  BlockProducer = ℕ;
  Height = ℕ;
  Receipt = ℕ;
  ReceiptNode = ℕ;
  TransactionNode = ℕ;
  HttpResponse = ℕ;
  HexError = ℕ;
  from_error = λ e. e;
  producer_of = λ ctx. ctx;
  to_string = λ h. text "0x" ++ h;
  decode = λ s. ok s;
  dry_run_tx = λ _ tx _ _. simulate tx;
  receipt_into = λ r. r;
  transaction_from = λ t. t;
  tx_commit_body = λ b. b;
  post = λ _. send;
}

abbrev pub gql-PrintsHex : PrintsHex gql
gql-PrintsHex = record { bytes = λ h. h; digits = λ h. h; printed = λ h. refl; decoded = λ h. refl }

dry_run-DryRuns_example : DryRuns gql 1 (7 ∷ []) none 0 (dry_run gql (some 1) (7 ∷ []) none 0)
dry_run-DryRuns_example = dry_run-DryRuns gql-PrintsHex (7 ∷ []) 0 (some 1) none refl

submit-Submits_example : Submits gql (7 ∷ []) 0 (submit gql (7 ∷ []) 0)
submit-Submits_example = submit-Submits gql-PrintsHex (7 ∷ []) 0

submit_seven : submit gql (7 ∷ []) 0 ≡ (returned (ok 7), 0)
unfolding submit
submit_seven = refl

-- A transaction is written as its one byte.
abbrev pub chain-Encodes : Encodes chain
chain-Encodes = record { to_bytes = λ t. t ∷ []; read_back = λ t. refl }
