-- ===== src/App/Call.antt =====
-- fuelmint/src/types.rs: `impl Service<Request> for App`.
use fuelmint.Common.{Result, ok, text}
use fuelmint.Common.Exec.{Exec, pure, ◌>>=◌}
use fuelmint.Fuel.{Fuel}
use fuelmint.App.Messages.{App, Request, Response, defaulted}
use fuelmint.App.Handlers

-- `Poll` of the standard library
pub data Poll (A : Type 0) : Type 0 where
  ready : A → Poll A
  pending : Poll A

module _ {F : Fuel} where
  unfoldable pub poll_ready : Exec (App F) (Poll (Result F.Error (Unit {0})))
  poll_ready = pure (ready (ok tt))

module _ {F : Fuel} {P : Type 0} where
  -- the `match` of `call`; `block_on` runs a handler to its end
  unfoldable pub respond : Request P → Exec (App F) (Response F)
  unfolding Handlers.info Handlers.deliver_tx Handlers.end_block Handlers.commit
  respond (Request.info _) = do r ← Handlers.info; pure (Response.info r)
  respond (Request.deliver_tx tx) = do r ← Handlers.deliver_tx tx; pure (Response.deliver_tx r)
  respond (Request.end_block height) = do r ← Handlers.end_block height; pure (Response.end_block r)
  respond Request.commit = do r ← Handlers.commit; pure (Response.commit r)
  respond (Request.query _) = pure (Response.query defaulted)
  respond Request.flush = pure Response.flush
  respond (Request.echo _) = pure (Response.echo defaulted)
  respond (Request.init_chain _) = pure (Response.init_chain defaulted)
  respond (Request.begin_block _) = pure (Response.begin_block defaulted)
  respond (Request.check_tx _) = pure (Response.check_tx defaulted)
  respond Request.list_snapshots = pure (Response.list_snapshots defaulted)
  respond (Request.offer_snapshot _) = pure (Response.offer_snapshot defaulted)
  respond (Request.load_snapshot_chunk _) = pure (Response.load_snapshot_chunk defaulted)
  respond (Request.apply_snapshot_chunk _) = pure (Response.apply_snapshot_chunk defaulted)
  respond (Request.set_option _) =
      pure (Response.set_option (record { code = 0; log = text "N/A"; info_text = text "N/A" }))

  -- The response is ready when `call` comes back: the future only hands it over, as `Ok`.
  unfoldable pub call : Request P → Exec (App F) (Result F.Error (Response F))
  unfolding respond
  call request = do response ← respond request; pure (ok response)
