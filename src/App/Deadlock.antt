-- ===== src/App/Deadlock.antt =====
-- The locks of the two states: no request waits for a lock that is held, and each request gives
-- back what it took, also when it panics.
use fuelmint.Common.{ℕ, List, ◌≡◌, ◌≢◌, false, arith}
use fuelmint.Common.Int.{ℤ}
use fuelmint.Common.Exec.{Exec, blocked}
use fuelmint.Fuel.{Fuel}
use fuelmint.App.Messages.{App, Request}
use fuelmint.App.Handlers
use fuelmint.App.Call.{call}

pub record IsUnlocked {F : Fuel} (app : App F) : Type 0 where
  pub committed_free : app.committed_state.held ≡ false
  pub current_free : app.current_state.held ≡ false

-- `m` neither blocks nor keeps a lock.
pub record Releases {F : Fuel} {A : Type 0} (m : Exec (App F) A) (app : App F) : Type 0 where
  pub progress : (m app).0 ≢ blocked
  pub unlocked : IsUnlocked (m app).1

module _ {F : Fuel} (app : App F) (free : IsUnlocked app) where
  info-Releases : Releases Handlers.info app
  unfolding Handlers.info
  info-Releases = ground arith

  deliver_tx-Releases : (tx : List ℕ) → Releases (Handlers.deliver_tx tx) app
  unfolding Handlers.deliver_tx
  deliver_tx-Releases tx = ground arith

  pub end_block-Releases : (height : ℤ) → Releases (Handlers.end_block height) app
  unfolding Handlers.end_block
  end_block-Releases height = ground arith

  commit-Releases : Releases Handlers.commit app
  unfolding Handlers.commit
  commit-Releases = ground arith

module _ {F : Fuel} {P : Type 0} where
  -- From an app whose locks are free, every request is answered or panics, without waiting for a
  -- lock, and leaves both locks free.
  pub call-Releases :
      (request : Request P) (app : App F) → IsUnlocked app → Releases (call request) app
  unfolding call
  call-Releases (Request.info _) app free = ground (arith, info-Releases app free)
  call-Releases (Request.deliver_tx tx) app free = ground (arith, deliver_tx-Releases app free tx)
  call-Releases (Request.end_block h) app free = ground (arith, end_block-Releases app free h)
  call-Releases Request.commit app free = ground (arith, commit-Releases app free)
  call-Releases _ app free = ground arith
