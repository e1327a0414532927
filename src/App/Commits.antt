-- ===== src/App/Commits.antt =====
-- What `Commit` and `EndBlock` make of the two states over a sequence of requests.
use mathlib.Core.List.{foldl-append}
use fuelmint.Common.{
  List, [], ◌∷◌, ◌++◌, Result, ◌≡◌, refl, ap, ◌∙◌, foldl, arith, Bool, true, false, All, ℕ,
}
use fuelmint.Common.Int.{ℤ}
use fuelmint.Common.Exec.{returned}
use fuelmint.Fuel.{Fuel}
use fuelmint.App.Messages.{App, Request, Response}
use fuelmint.App.Deadlock.{IsUnlocked, call-Releases}
use fuelmint.App.Call.{call}
use fuelmint.App.Runs.{run, view, States, step, view-run, view-call, run_induction}

module _ {P : Type 0} where
  abbrev pub ends_block : Request P → Bool
  ends_block (Request.end_block _) = true
  ends_block _ = false

  abbrev pub commits : Request P → Bool
  commits Request.commit = true
  commits _ = false

  -- Between two `EndBlock`s the current height stays.
  height-step_no_block :
      (requests : List (Request P)) (s : States)
      → All (λ r. ends_block r ≡ false) requests
      → (foldl step s requests).current ≡ s.current
  height-step_no_block [] s h = refl
  height-step_no_block (r ∷ rest) s h = height-step_no_block rest (step s r) h.1 ∙ one r h.0
    where
      one : (r : Request P) → ends_block r ≡ false → (step s r).current ≡ s.current
      one (Request.end_block _) e = cc
      one Request.commit e = refl
      one _ e = refl

  committed-step_no_commit :
      (requests : List (Request P)) (s : States)
      → All (λ r. commits r ≡ false) requests
      → (foldl step s requests).committed ≡ s.committed
  committed-step_no_commit [] s h = refl
  committed-step_no_commit (r ∷ rest) s h = committed-step_no_commit rest (step s r) h.1 ∙ one r h.0
    where
      one : (r : Request P) → commits r ≡ false → (step s r).committed ≡ s.committed
      one Request.commit e = cc
      one (Request.end_block _) e = refl
      one _ e = refl

  -- An `EndBlock`, a `Commit` after it with no other `EndBlock` between, and no `Commit` after that.
  abbrev pub committing :
      List (Request P) → ℤ → List (Request P) → List (Request P) → List (Request P)
  committing before height between after =
      (before ++ Request.end_block height ∷ between) ++ Request.commit ∷ after

  committed-step :
      (before between after : List (Request P)) (height : ℤ) (s : States)
      → All (λ r. ends_block r ≡ false) between
      → All (λ r. commits r ≡ false) after
      → (foldl step s (committing before height between after)).committed.block_height ≡ height
  committed-step before between after height s quiet final =
      let t = foldl step s before in
      rw (foldl-append step s (before ++ Request.end_block height ∷ between)) (
        rw (foldl-append step s before) (
          cc (
            committed-step_no_commit after
                (step (foldl step (step t (Request.end_block height)) between) Request.commit)
                final,
            height-step_no_block between (step t (Request.end_block height)) quiet,
          )))

module _ {F : Fuel} {P : Type 0} where
  -- From free locks, after a sequence that comes to its end, the committed height is that of the last
  -- `EndBlock` before the last `Commit`.
  pub commit-last_block :
      (before between after : List (Request P)) (height : ℤ) (app : App F)
      {responses : List (Result F.Error (Response F))}
      → IsUnlocked app
      → All (λ r. ends_block r ≡ false) between
      → All (λ r. commits r ≡ false) after
      → (run (committing before height between after) app).0 ≡ returned responses
      → (run (committing before height between after) app).1.committed_state.value.block_height
        ≡ height
  commit-last_block before between after height app free quiet final done =
      ap (λ s. s.committed.block_height)
        (view-run (committing before height between after) app free done)
      ∙ committed-step before between after height (view app) quiet final

-- Both states hold the app hash `hash`, and no lock is held.
pub record KeepsHash {F : Fuel} (hash : List ℕ) (app : App F) : Type 0 where
  pub current_hash : app.current_state.value.app_hash ≡ hash
  pub committed_hash : app.committed_state.value.app_hash ≡ hash
  pub unlocked : IsUnlocked app

module _ {F : Fuel} {P : Type 0} where
  pub call-KeepsHash :
      (hash : List ℕ) (request : Request P) (app : App F)
      → KeepsHash hash app
      → KeepsHash hash (call request app).1
  call-KeepsHash hash request app h =
      hash_step request (view-call request app h.unlocked)
        (call-Releases request app h.unlocked).unlocked
    where
      hash_step :
          (r : Request P) {app' : App F}
          → view app' ≡ step (view app) r
          → IsUnlocked app'
          → KeepsHash hash app'
      hash_step (Request.end_block _) e u = ground (arith, h.current_hash, h.committed_hash)
      hash_step Request.commit e u = ground (arith, h.current_hash, h.committed_hash)
      hash_step _ e u = ground (arith, h.current_hash, h.committed_hash)

  -- No sequence of requests, also one that panics, changes the app hash of either state.
  pub run-KeepsHash :
      (hash : List ℕ) (requests : List (Request P)) (app : App F)
      → KeepsHash hash app
      → KeepsHash hash (run requests app).1
  run-KeepsHash hash = run_induction (KeepsHash hash) (call-KeepsHash hash)
