-- ===== src/Rollkit/Fixture.antt =====
-- A client whose other end is the application on the chain of App/Fixture.antt: the world is that
-- application, and a call that it does not answer is an error.
use fuelmint.Common.{refl, ℕ, List, Bool, true, not, Result, ok, err, none, ◌≡◌}
use fuelmint.Common.Int.{ℤ}
use fuelmint.Common.Exec.{Outcome, returned, panicked, blocked, then_run, pure}
use fuelmint.App.Success.{has_returned}
use fuelmint.App.Messages.{App, Request, Response, defaulted}
use fuelmint.App.Call.{call, respond}
use fuelmint.App.Fixture.{chain}
use fuelmint.Rollkit.Abci.{
  Abci, Method, info, deliver_tx, check_tx, commit, query, init_chain, begin_block, end_block,
  list_snapshots, offer_snapshot, load_snapshot_chunk, apply_snapshot_chunk,
}
use fuelmint.Rollkit.Relay.{is_one}
use fuelmint.Rollkit.Forwarding.{Carries}
use fuelmint.Rollkit.Liveness.{Hears}

abbrev Req : Method → Type 0
Req deliver_tx = List ℕ
Req begin_block = ℤ
Req end_block = ℤ
Req _ = Unit

abbrev request : (m : Method) → Req m → Request (Unit {0})
request info _ = Request.info tt
request deliver_tx tx = Request.deliver_tx tx
request check_tx _ = Request.check_tx tt
request commit _ = Request.commit
request query _ = Request.query tt
request init_chain _ = Request.init_chain tt
request begin_block _ = Request.begin_block tt
request end_block height = Request.end_block height
request list_snapshots _ = Request.list_snapshots
request offer_snapshot _ = Request.offer_snapshot tt
request load_snapshot_chunk _ = Request.load_snapshot_chunk tt
request apply_snapshot_chunk _ = Request.apply_snapshot_chunk tt
request _ _ = Request.set_option tt

abbrev answer :
    Outcome (Result ℕ (Response chain)) × App chain → Result ℕ (Response chain) × App chain
answer (returned r, app) = (r, app)
answer (panicked _, app) = (err 1, app)
answer (blocked, app) = (err 2, app)

abbrev pub abci : Abci
abci = record {
  Error = ℕ;
  World = App chain;
  Client = Unit;
  Req = Req;
  Res = λ _. Response chain;
  zero_response = λ _. Response.begin_block defaulted;
  height = λ h. h;
  new_socket_client = λ _ _ app. (tt, app);
  start = λ _ app. (none, app);
  sync = λ m _ req app. answer (call (request m req) app);
}

pub answered :
    (x : Outcome (Result ℕ (Response chain)) × App chain) {r : Response chain} {app : App chain}
    → answer x ≡ (ok r, app)
    → x ≡ (returned (ok r), app)
answered (returned r, app) h = cc (h)
answered (panicked p, app) h = cc
answered (blocked, app) h = cc

abbrev pub abci-Carries : Carries abci tt chain (Unit {0})
abci-Carries = record {
  app = λ app. app;
  request = request;
  response = λ _ r. r;
  delivered = λ m req app. answered (call (request m req) app);
}

answer-ok :
    (o : Outcome (Response chain)) (app : App chain)
    → has_returned (then_run {B = Result ℕ (Response chain)} (λ r. pure (ok r)) o app).0 ≡ true
    → (r : Response chain) × (app' : App chain) × (answer (then_run (λ r. pure (ok r)) o app)
        ≡ (ok r, app'))
answer-ok (returned r) app h = (r, app, refl)
answer-ok (panicked p) app h = cc
answer-ok blocked app h = cc

-- The server refuses `BeginBlock` at height 1.
abbrev pub taken : (m : Method) → Req m → Bool
taken begin_block height = not (is_one height)
taken _ _ = true

pub abci-heard :
    (m : Method) (req : Req m) (app : App chain)
    → has_returned (call (request m req) app).0 ≡ true
    → (r : Response chain) × (app' : App chain) × (answer (call (request m req) app) ≡ (ok r, app'))
unfolding call
abci-heard m req app = answer-ok (respond (request m req) app).0 (respond (request m req) app).1

abbrev pub abci-Hears : Hears abci-Carries
abci-Hears = record { takes_in = taken; heard = λ m req app _. abci-heard m req app }
