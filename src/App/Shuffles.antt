-- ===== src/App/Shuffles.antt =====
-- The connections of the node. The server splits the application by the kind of request, and the
-- requests of its connections reach it in any order: those of the consensus are not disturbed.
use fuelmint.Common.{List, [], ◌∷◌, ok, ◌≡◌, refl, ◌∙◌, All}
use fuelmint.Common.Exec.{returned}
use fuelmint.Fuel.{Fuel}
use fuelmint.App.Messages.{App, Request, Response}
use fuelmint.App.Call.{call}
use fuelmint.App.Frames.{Agree, run-skip, run-cons_congr}
use fuelmint.App.Reports.{TakesNonneg, AsksReportable, CanReport, call-CanReport, answered, report}
use fuelmint.App.Runs.{run}

-- `zs` is an interleaving of `xs` and `ys`, each in its order.
pub data Shuffle {A : Type 0} : List A → List A → List A → Type 0 where
  nil : Shuffle [] [] []
  left : (x : A) {xs ys zs : List A} → Shuffle xs ys zs → Shuffle (x ∷ xs) ys (x ∷ zs)
  right : (y : A) {xs ys zs : List A} → Shuffle xs ys zs → Shuffle xs (y ∷ ys) (y ∷ zs)

-- The requests that only read: all but those by which the consensus changes something.
abbrev pub Reads : {P : Type 0} → Request P → Type 0
Reads (Request.deliver_tx _) = ⊥
Reads (Request.end_block _) = ⊥
Reads Request.commit = ⊥
Reads _ = Unit

module _ {F : Fuel} {P : Type 0} (heights : TakesNonneg F) where
  -- From an app that can report its height, a request that reads is answered and changes nothing.
  call-Reads :
      (request : Request P) (app : App F)
      → Reads request
      → CanReport app
      → (response : Response F) × (call request app ≡ (returned (ok response), app))
  unfolding call
  call-Reads (Request.info _) app reads h =
      let (height, same) =
        answered heights app h.unlocked app.current_state.value.block_height h.reportable refl in
      (Response.info (report F height app.current_state.value.app_hash), rw same)
  call-Reads (Request.deliver_tx _) app reads h = absurd reads
  call-Reads (Request.end_block _) app reads h = absurd reads
  call-Reads Request.commit app reads h = absurd reads
  call-Reads _ app reads h = (_, refl)

  -- Where heights are the `i64`s that are not negative: if every `EndBlock` is at such a height, then
  -- from an app that can report its height, requests that only read, put between those of the
  -- consensus in any order, change neither the app at the end nor the panic that ends the sequence, if
  -- one does.
  pub run-Shuffle :
      {consensus readers requests : List (Request P)} (app : App F)
      → Shuffle consensus readers requests
      → All AsksReportable consensus
      → All Reads readers
      → CanReport app
      → Agree (run consensus app) (run requests app)
  run-Shuffle app nil asked reads h = (refl, refl)
  run-Shuffle app (left x rest) asked reads h =
      run-cons_congr x _ _ app
        (run-Shuffle (call x app).1 rest asked.1 reads (call-CanReport x app asked.0 h))
  run-Shuffle app (right y rest) asked reads h =
      let (e, d) = run-Shuffle app rest asked reads.1 h in
      let (x, same) = call-Reads y app reads.0 h in
      let (e', d') = run-skip y _ app (ok x) same in (e ∙ e', d ∙ d')
