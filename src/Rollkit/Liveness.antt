-- ===== src/Rollkit/Liveness.antt =====
-- When the relay comes to the end of the calls of the consensus.
use fuelmint.Common.{
  All, ◌↔◌, List, [], ◌∷◌, Bool, true, false, ◌&&◌, ok, ◌≡◌, refl, sym, ap, ◌∙◌, inl, inr,
  Bool-cases,
}
use fuelmint.Common.Exec.{returned}
use fuelmint.Fuel.{Fuel}
use fuelmint.App.Call.{call}
use fuelmint.App.Deadlock.{IsUnlocked}
use fuelmint.App.Ledger.{ledger}
use fuelmint.App.Runs.{run}
use fuelmint.App.Success.{has_returned, accepts_all, has_returned-cons, run-accepts}
use fuelmint.Rollkit.Abci.{Abci, Method}
use fuelmint.Rollkit.Relay.{AbciRelayer, relay}
use fuelmint.Rollkit.Answers.{is_relayed, handle-relayed, handle-answered}
use fuelmint.Rollkit.Forwarding.{Call, Answer, serve, serve-run, serve-step, Carries, forwarded}

and_true : (a b : Bool) → (a && b) ≡ true → (a ≡ true) × (b ≡ true)
and_true true b h = (refl, h)
and_true false b h = cc

module _ {A : Abci} {F : Fuel} {P : Type 0} {relayer : AbciRelayer A}
    (wire : Carries A relayer.client F P) where
  forwarded-alone :
      (m : Method) (req : A.Req m) (calls : List (Call A))
      → is_relayed A m req ≡ false
      → forwarded wire ((m, req) ∷ calls) ≡ forwarded wire calls
  forwarded-alone m req calls h = rw h

  forwarded-sent :
      (m : Method) (req : A.Req m) (calls : List (Call A))
      → is_relayed A m req ≡ true
      → forwarded wire ((m, req) ∷ calls) ≡ wire.request m req ∷ forwarded wire calls
  forwarded-sent m req calls h = rw h

  -- A client that hears what is said: where the ABCI server takes a request in, and the application
  -- answers, the call is answered. The server need not take in every request: it may refuse `BeginBlock`
  -- at height 1, and shed a request of its services.
  pub record Hears : Type 0 where
    pub takes_in : (m : Method) → A.Req m → Bool
    pub heard :
        (m : Method) (req : A.Req m) (w : A.World)
        → takes_in m req ≡ true
        → has_returned (call (wire.request m req) (wire.app w)).0 ≡ true
        → (res : A.Res m) × (w' : A.World) × (A.sync m relayer.client req w ≡ (ok res, w'))

  module _ (hears : Hears) where
    -- a call whose request, where the relay hands it on, is taken in
    abbrev pub TakenIn : Call A → Type 0
    TakenIn (m, req) = is_relayed A m req ≡ true → hears.takes_in m req ≡ true

    relay-returns :
        (m : Method) (req : A.Req m) (v : A.World)
        → hears.takes_in m req ≡ true
        → has_returned (call (wire.request m req) (wire.app v)).0 ≡ true
        → (res : A.Res m) × (v' : A.World) × (relay A m relayer.client req v ≡ (returned res, v'))
          × ((call (wire.request m req) (wire.app v)).1 ≡ wire.app v')
    relay-returns m req v taken h =
        let (res, v', said) = hears.heard m req v taken h in
        (res, v', rw said, ap (λ x. x.1) (wire.delivered m req v said))

    serve-run_returns :
        (calls : List (Call A)) (v : A.World)
        → All TakenIn calls
        → has_returned (run (forwarded wire calls) (wire.app v)).0 ≡ true
        → (answers : List (Answer A)) × (v' : A.World) × (serve A relayer calls v
            ≡ (returned answers, v'))
    serve-run_returns [] v _ h = ([], v, (unfold serve in refl))
    serve-run_returns ((m, req) ∷ calls) v (taken, all) h = elim (Bool-cases (is_relayed A m req)) [
      | inr alone ↦
          let (answers, v', rest) = serve-run_returns calls v all (
            sym
              (ap (λ rs. has_returned (run rs (wire.app v)).0) (forwarded-alone m req calls alone))
            ∙ h) in
          (
            (m, A.zero_response m) ∷ answers,
            v',
            serve-step A relayer m req calls v
                (ap (λ f. f v) (handle-answered A relayer m req alone)) rest,
          )
      | inl sent ↦
          let app = wire.app v in
          let request = wire.request m req in
          let (now, later) = and_true (has_returned (call request app).0) _ (
            sym (has_returned-cons request (forwarded wire calls) app)
            ∙ sym (ap (λ rs. has_returned (run rs app).0) (forwarded-sent m req calls sent))
            ∙ h) in
          let (res, v₁, said, left) = relay-returns m req v (taken sent) now in
          let (answers, v', rest) =
            serve-run_returns calls v₁ all
              (sym (ap (λ a. has_returned (run (forwarded wire calls) a).0) left) ∙ later) in
          (
            (m, res) ∷ answers,
            v',
            serve-step A relayer m req calls v
                (ap (λ f. f v) (handle-relayed A relayer m req sent) ∙ said) rest,
          )
    ]

    -- If the client carries requests to the application, and hears what the application answers to
    -- requests that the server takes in, then from free locks, and of calls that are taken in where
    -- they are handed on, the relay comes to the end exactly if the specification accepts the requests
    -- that are handed on.
    pub serve-returns_iff :
        (calls : List (Call A)) (v : A.World)
        → let app = wire.app v in
          IsUnlocked app
          → All TakenIn calls
          → ((answers : List (Answer A)) × (v' : A.World) × (serve A relayer calls v
                ≡ (returned answers, v')))
            ↔ (accepts_all F app.config app.producer app.tx_pool (ledger app) (forwarded wire calls)
                ≡ true)
    serve-returns_iff calls v free taken =
        let same = run-accepts (forwarded wire calls) (wire.app v) free in
        (
          λ (answers, v', served).
              sym same ∙ ap (λ r. has_returned r.0) (serve-run wire calls v served),
          λ accepted. serve-run_returns calls v taken (same ∙ accepted),
        )
