-- ===== src/App/Reports.antt =====
-- `Info`: the height that the application reports to its node.
use fuelmint.Common.{ℕ, ◌^◌, ◌<◌, List, ok, err, ◌≡◌, ◌↔◌, refl, ap, ◌∙◌, text, All, arith}
use fuelmint.Common.Int.{ℤ, pos, negsuc, InI64, IsNonneg}
use fuelmint.Common.Exec.{returned, panicked, height_try_from}
use fuelmint.Fuel.{Fuel}
use fuelmint.App.Messages.{App, Request, InfoResponse}
use fuelmint.App.Handlers
use fuelmint.App.Call.{call}
use fuelmint.App.Deadlock.{IsUnlocked, call-Releases, end_block-Releases}
use fuelmint.App.Runs.{run, run_induction_on, view, step, view-call}

-- `Height::try_from` takes the `i64`s that are not negative, and no others.
pub record TakesNonneg (F : Fuel) : Type 0 where
  pub height : ℕ → F.Height
  pub taken : (n : ℕ) → n < 2 ^ 63 → F.height_try_from (pos n) ≡ ok (height n)
  pub refused : (n : ℕ) → (e : F.Error) × (F.height_try_from (negsuc n) ≡ err e)

-- The reply to `Info` at a height and an app hash.
abbrev pub report : (F : Fuel) → F.Height → List ℕ → InfoResponse F
report F height app_hash = record {
  info_data = text "fuelmint";
  version = text "0.1.0";
  app_version = 1;
  last_block_height = height;
  last_block_app_hash = app_hash;
}

-- A height that `Info` can report.
abbrev pub IsReportable : ℤ → Type 0
IsReportable h = IsNonneg h × InI64 h

module _ {F : Fuel} (law : TakesNonneg F) (app : App F) (free : IsUnlocked app) where
  pub info-pos :
      (n : ℕ)
      → n < 2 ^ 63
      → app.current_state.value.block_height ≡ pos n
      → Handlers.info app
        ≡ (returned (report F (law.height n) app.current_state.value.app_hash), app)
  unfolding Handlers.info
  info-pos n range e = ground (arith, law.taken n range)

  info-negsuc :
      (n : ℕ)
      → app.current_state.value.block_height ≡ negsuc n
      → Handlers.info app ≡ (panicked height_try_from, app)
  unfolding Handlers.info
  info-negsuc n e = let (x, r) = law.refused n in ground arith

  info-by_height :
      (h : ℤ)
      → InI64 h
      → app.current_state.value.block_height ≡ h
      → (Handlers.info app ≡ (panicked height_try_from, app)) ↔ ¬ (IsNonneg h)
  info-by_height (pos n) range e =
      (λ bad. cc (bad, info-pos n range e), λ no_sign. absurd (no_sign tt))
  info-by_height (negsuc n) range e = (λ _ absurdity. absurdity, λ _. info-negsuc n e)

  pub answered :
      (h : ℤ)
      → IsReportable h
      → app.current_state.value.block_height ≡ h
      → (height : F.Height) × (Handlers.info app
          ≡ (returned (report F height app.current_state.value.app_hash), app))
  answered (pos n) (_, range) e = (_, info-pos n range e)
  answered (negsuc n) (sign, _) e = absurd sign

  -- From free locks and a height in the range of `i64`, `Info` panics, and changes nothing, exactly
  -- if the current height is negative.
  info_panics_iff :
      InI64 app.current_state.value.block_height
      → (Handlers.info app ≡ (panicked height_try_from, app))
        ↔ ¬ (IsNonneg app.current_state.value.block_height)
  info_panics_iff range = info-by_height app.current_state.value.block_height range refl

module _ {F : Fuel} where
  view-end_block :
      (height : ℤ) (app : App F)
      → IsUnlocked app
      → view (Handlers.end_block height app).1 ≡ record {
        current = record app.current_state.value { block_height = height };
        committed = app.committed_state.value;
      }
  unfolding Handlers.end_block
  view-end_block height app free = ground arith

  -- Where heights are the `i64`s that are not negative, and from free locks: after `EndBlock` at a
  -- height that is no negative `i64`, `Info` reports that height, whether the block was produced or
  -- `EndBlock` panicked, and with nothing committed: the committed state is still the one from before.
  pub info-end_block :
      (law : TakesNonneg F) (n : ℕ) (app : App F)
      → n < 2 ^ 63
      → IsUnlocked app
      → let app' = (Handlers.end_block (pos n) app).1 in
        (Handlers.info app'
          ≡ (returned (report F (law.height n) app.current_state.value.app_hash), app'))
        × (app'.committed_state.value ≡ app.committed_state.value)
  info-end_block law n app range free =
      let app' = (Handlers.end_block (pos n) app).1 in
      let seen = view-end_block (pos n) app free in
      let free' = (end_block-Releases app free (pos n)).unlocked in
      (
        info-pos law app' free' n range (ap (λ s. s.current.block_height) seen)
            ∙ ap (λ hash. (returned (report F (law.height n) hash), app'))
                (ap (λ s. s.current.app_hash) seen),
        ap (λ s. s.committed) seen,
      )

-- An app that can answer `Info`.
pub record CanReport {F : Fuel} (app : App F) : Type 0 where
  pub reportable : IsReportable app.current_state.value.block_height
  pub unlocked : IsUnlocked app

-- No `EndBlock` is asked at a height that `Info` cannot report.
abbrev pub AsksReportable : {P : Type 0} → Request P → Type 0
AsksReportable (Request.end_block height) = IsReportable height
AsksReportable _ = Unit

module _ {F : Fuel} {P : Type 0} where
  pub call-CanReport :
      (request : Request P) (app : App F)
      → AsksReportable request
      → CanReport app
      → CanReport (call request app).1
  call-CanReport request app q h =
      kept request q (view-call request app h.unlocked)
        (call-Releases request app h.unlocked).unlocked
    where
      kept :
          (r : Request P) {app' : App F}
          → AsksReportable r
          → view app' ≡ step (view app) r
          → IsUnlocked app'
          → CanReport app'
      kept (Request.end_block _) q e u = record {
        reportable = rw (ap (λ s. s.current.block_height) e) q;
        unlocked = u;
      }
      kept _ q e u = record {
        reportable = rw (ap (λ s. s.current.block_height) e) h.reportable;
        unlocked = u;
      }

  -- Where heights are the `i64`s that are not negative: if every `EndBlock` of a sequence is at a
  -- height that is no negative `i64`, then from an app that can report its height, `Info` after the
  -- sequence is answered, also after a panic.
  pub run-info :
      (law : TakesNonneg F) (requests : List (Request P)) (app : App F)
      → All AsksReportable requests
      → CanReport app
      → let app' = (run requests app).1 in
        (response : InfoResponse F) × (Handlers.info app' ≡ (returned response, app'))
  run-info law requests app q h =
      let h' = run_induction_on AsksReportable CanReport call-CanReport requests app q h in
      let (_, same) =
        answered law (run requests app).1 h'.unlocked
          (run requests app).1.current_state.value.block_height h'.reportable refl in
      (_, same)
