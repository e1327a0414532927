-- ===== src/App/Runs.antt =====
-- Sequences of requests. `call` takes `&mut self` and runs each handler to its end, so the requests
-- are handled one after the other; a panic ends the sequence. The two states follow a machine that
-- knows nothing of transactions, blocks or locks.
use fuelmint.Common.{List, [], ◌∷◌, Result, ◌≡◌, ◌≢◌, refl, ap, ◌∙◌, foldl, arith, All, All-Unit}
use fuelmint.Common.Exec.{Exec, returned, blocked, pure, then_run_inv, state-bind-pure, ◌>>=◌}
use fuelmint.Fuel.{Fuel}
use fuelmint.State.{State}
use fuelmint.App.Messages.{App, Request, Response}
use fuelmint.App.Call.{call}
use fuelmint.App.Deadlock.{IsUnlocked, call-Releases}

module _ {F : Fuel} {P : Type 0} where
  unfoldable pub run : List (Request P) → Exec (App F) (List (Result F.Error (Response F)))
  run [] = pure []
  run (request ∷ rest) = do
    response ← call request
    responses ← run rest
    pure (response ∷ responses)

-- The specification: the state of the last block, and the state of the last commit.
pub record States : Type 0 where
  pub current : State
  pub committed : State

abbrev pub view : {F : Fuel} → App F → States
view app = record { current = app.current_state.value; committed = app.committed_state.value }

abbrev pub step : {P : Type 0} → States → Request P → States
step s (Request.end_block height) = record s {
  current = record s.current { block_height = height };
}
step s Request.commit = record s { committed = s.current }
step s _ = s

module _ {F : Fuel} {P : Type 0} where
  -- Every request moves the two states as the specification says, also one that panics.
  pub view-call :
      (request : Request P) (app : App F)
      → IsUnlocked app
      → view (call request app).1 ≡ step (view app) request
  unfolding call
  view-call (Request.info _) app free = ground arith
  view-call (Request.deliver_tx tx) app free = ground arith
  view-call (Request.end_block h) app free = ground arith
  view-call Request.commit app free = ground arith
  view-call _ app free = ground arith

  -- What every request of a kind keeps, a sequence of such requests keeps, whether or not it ends in
  -- a panic.
  pub run_induction_on :
      (Q : Request P → Type 0) (I : App F → Type 0)
      → ((request : Request P) (app : App F) → Q request → I app → I (call request app).1)
      → (requests : List (Request P)) (app : App F) → All Q requests
      → I app
      → I (run requests app).1
  unfolding run
  run_induction_on Q I keep [] app q h = h
  run_induction_on Q I keep (request ∷ rest) app q h =
      let (r, app') = call request app in
      let now = keep request app q.0 h in
      let later = run_induction_on Q I keep rest app' q.1 now in
      then_run_inv I _ r app' now λ x. rw (state-bind-pure (run rest) (λ xs. x ∷ xs) app') later

  pub run_induction :
      (I : App F → Type 0)
      → ((request : Request P) (app : App F) → I app → I (call request app).1)
      → (requests : List (Request P)) (app : App F) → I app
      → I (run requests app).1
  run_induction I keep requests app =
      run_induction_on (λ _. Unit {0}) I (λ r a _. keep r a) requests app (All-Unit requests)

  -- A sequence that comes to its end has come through its first request.
  pub run-cons :
      (request : Request P) (rest : List (Request P)) (app : App F)
      {xs : List (Result F.Error (Response F))}
      → (run (request ∷ rest) app).0 ≡ returned xs
      → (ys : List (Result F.Error (Response F))) × ((run rest (call request app).1).0
          ≡ returned ys)
        × ((run (request ∷ rest) app).1 ≡ (run rest (call request app).1).1)
  unfolding run
  run-cons request rest app h = ground arith

  pub run-IsUnlocked :
      (requests : List (Request P)) (app : App F) → IsUnlocked app → IsUnlocked (run requests app).1
  run-IsUnlocked =
      run_induction IsUnlocked λ request app free. (call-Releases request app free).unlocked

  -- From free locks no sequence of requests waits without end.
  pub run-ne-blocked :
      (requests : List (Request P)) (app : App F) → IsUnlocked app → (run requests app).0 ≢ blocked
  unfolding run
  run-ne-blocked [] app free = ground arith
  run-ne-blocked (request ∷ rest) app free =
      let first = call-Releases request app free in
      ground (arith, first.progress, run-ne-blocked rest (call request app).1 first.unlocked)

  -- A sequence that comes to its end leaves the two states that the specification computes.
  pub view-run :
      (requests : List (Request P)) (app : App F) {responses : List (Result F.Error (Response F))}
      → IsUnlocked app
      → (run requests app).0 ≡ returned responses
      → view (run requests app).1 ≡ foldl step (view app) requests
  view-run [] app free h = unfold run in refl
  view-run (request ∷ rest) app free h =
      let (ys, e, same) = run-cons request rest app h in
      let free' = (call-Releases request app free).unlocked in
      ap view same
      ∙ view-run rest (call request app).1 free' e
      ∙ ap (λ s. foldl step s rest) (view-call request app free)
