-- ===== src/App/Parts.antt =====
-- What an application keeps for life: its configuration, its producer and its pool.
use fuelmint.Common.{ℕ, List, ◌≡◌, arith}
use fuelmint.Common.Int.{ℤ}
use fuelmint.Fuel.{Fuel}
use fuelmint.App.Messages.{App, Request}
use fuelmint.App.Handlers
use fuelmint.App.Call.{call}

pub record HasSameParts {F : Fuel} (app app' : App F) : Type 0 where
  pub same_config : app'.config ≡ app.config
  pub same_producer : app'.producer ≡ app.producer
  pub same_pool : app'.tx_pool ≡ app.tx_pool

module _ {F : Fuel} (app : App F) where
  info-HasSameParts : HasSameParts app (Handlers.info app).1
  unfolding Handlers.info
  info-HasSameParts = ground arith

  deliver_tx-HasSameParts : (tx : List ℕ) → HasSameParts app (Handlers.deliver_tx tx app).1
  unfolding Handlers.deliver_tx
  deliver_tx-HasSameParts tx = ground arith

  end_block-HasSameParts : (height : ℤ) → HasSameParts app (Handlers.end_block height app).1
  unfolding Handlers.end_block
  end_block-HasSameParts height = ground arith

  commit-HasSameParts : HasSameParts app (Handlers.commit app).1
  unfolding Handlers.commit
  commit-HasSameParts = ground arith

module _ {F : Fuel} {P : Type 0} where
  pub call-HasSameParts :
      (request : Request P) (app : App F) → HasSameParts app (call request app).1
  unfolding call
  call-HasSameParts (Request.info _) app = ground (arith, info-HasSameParts app)
  call-HasSameParts (Request.deliver_tx tx) app = ground (arith, deliver_tx-HasSameParts app tx)
  call-HasSameParts (Request.end_block h) app = ground (arith, end_block-HasSameParts app h)
  call-HasSameParts Request.commit app = ground (arith, commit-HasSameParts app)
  call-HasSameParts _ app = ground arith
