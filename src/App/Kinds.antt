-- ===== src/App/Kinds.antt =====
-- The kinds of requests and responses. The server hands a response to the part of the protocol that
-- its request came from, so the two have one kind.
use fuelmint.Common.{ok, Result, ◌≡◌, refl, ap, ◌∙◌}
use fuelmint.Common.Exec.{Exec, Outcome, returned, pure, returned-pure, ◌>>=◌}
use fuelmint.Fuel.{Fuel}
use fuelmint.App.Messages.{App, Request, Response}
use fuelmint.App.Handlers
use fuelmint.App.Call.{call}

pub data Kind : Type 0 where
  info deliver_tx end_block commit query flush echo init_chain begin_block check_tx : Kind
  list_snapshots offer_snapshot load_snapshot_chunk apply_snapshot_chunk set_option : Kind

abbrev pub request_kind : {P : Type 0} → Request P → Kind
request_kind (Request.info _) = info
request_kind (Request.deliver_tx _) = deliver_tx
request_kind (Request.end_block _) = end_block
request_kind Request.commit = commit
request_kind (Request.query _) = query
request_kind Request.flush = flush
request_kind (Request.echo _) = echo
request_kind (Request.init_chain _) = init_chain
request_kind (Request.begin_block _) = begin_block
request_kind (Request.check_tx _) = check_tx
request_kind Request.list_snapshots = list_snapshots
request_kind (Request.offer_snapshot _) = offer_snapshot
request_kind (Request.load_snapshot_chunk _) = load_snapshot_chunk
request_kind (Request.apply_snapshot_chunk _) = apply_snapshot_chunk
request_kind (Request.set_option _) = set_option

abbrev pub response_kind : {F : Fuel} → Response F → Kind
response_kind (Response.info _) = info
response_kind (Response.deliver_tx _) = deliver_tx
response_kind (Response.end_block _) = end_block
response_kind (Response.commit _) = commit
response_kind (Response.query _) = query
response_kind Response.flush = flush
response_kind (Response.echo _) = echo
response_kind (Response.init_chain _) = init_chain
response_kind (Response.begin_block _) = begin_block
response_kind (Response.check_tx _) = check_tx
response_kind (Response.list_snapshots _) = list_snapshots
response_kind (Response.offer_snapshot _) = offer_snapshot
response_kind (Response.load_snapshot_chunk _) = load_snapshot_chunk
response_kind (Response.apply_snapshot_chunk _) = apply_snapshot_chunk
response_kind (Response.set_option _) = set_option

-- A result is `Ok`, with a response of this kind.
abbrev pub IsOfKind {ℓ} : {E : Type ℓ} {F : Fuel} → Kind → Result E (Response F) → Type ℓ
IsOfKind {F = F} kind result =
    (response : Response F) × (result ≡ ok response) × (response_kind response ≡ kind)

module _ {F : Fuel} where
  -- an arm of `call` that wraps what a handler returns
  named :
      {A : Type 0} (handler : Exec (App F) A) (wrap : A → Response F) (app : App F) (kind : Kind)
      → ((a : A) → response_kind (wrap a) ≡ kind)
      → {result : Result F.Error (Response F)}
      → ((do response ← (do a ← handler; pure (wrap a)); pure (ok response)) app).0
        ≡ returned result
      → IsOfKind kind result
  named handler wrap app kind tagged h =
      let (response, whole, same) =
        returned-pure (((handler >>= λ a. pure (wrap a)) app).0) ok _ h in
      let (a, _, wrapped) = returned-pure (handler app).0 wrap (handler app).1 whole in
      (response, same, ap response_kind wrapped ∙ tagged a)

  told :
      (response : Response F) {result : Result F.Error (Response F)}
      → ◌≡◌ {A = Outcome (Result F.Error (Response F))} (returned (ok response)) (returned result)
      → IsOfKind (response_kind response) result
  told response h = (response, cc, refl)

module _ {F : Fuel} {P : Type 0} where
  -- A request that is answered is answered with `Ok`, by a response of its own kind.
  pub call-IsOfKind :
      (request : Request P) (app : App F) {result : Result F.Error (Response F)}
      → (call request app).0 ≡ returned result
      → IsOfKind (request_kind request) result
  unfolding call
  call-IsOfKind (Request.info _) app h = named Handlers.info Response.info app info (λ _. refl) h
  call-IsOfKind (Request.deliver_tx tx) app h =
      named (Handlers.deliver_tx tx) Response.deliver_tx app deliver_tx (λ _. refl) h
  call-IsOfKind (Request.end_block height) app h =
      named (Handlers.end_block height) Response.end_block app end_block (λ _. refl) h
  call-IsOfKind Request.commit app h =
      named Handlers.commit Response.commit app commit (λ _. refl) h
  call-IsOfKind _ app h = told _ h
