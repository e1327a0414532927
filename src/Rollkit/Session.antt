-- ===== src/Rollkit/Session.antt =====
-- The two programs together: the rollup node drives, by its relay, the application that `exec` of
-- fuelmint has made.
use mathlib.Core.List.{foldl-append}
use fuelmint.Common.{ℕ, ◌^◌, ◌<◌, List, [], ◌∷◌, ◌++◌, ok, ◌≡◌, refl, ap, ◌∙◌, sym, foldl}
use fuelmint.Common.Int.{ℤ, pos}
use fuelmint.Common.Exec.{returned}
use fuelmint.Fuel.{Fuel}
use fuelmint.App.Messages.{App, Request, Response}
use fuelmint.App.Call.{call}
use fuelmint.App.Runs.{run, view, States, step, view-run}
use fuelmint.App.Commits.{KeepsHash, run-KeepsHash}
use fuelmint.App.Reports.{TakesNonneg, report, info-pos}
use fuelmint.GraphApi.Web.{Web}
use fuelmint.GraphApi.Router as GraphApi
use fuelmint.GraphApi.Router.{NotInitializedTask}
use fuelmint.GraphApi.Routes.{AddsNewRoutes}
use fuelmint.SubServices.Parts.{PartTypes, Parts}
use fuelmint.Service.Task.{Task}
use fuelmint.Service.Node.{Runners}
use fuelmint.Bin.Cli.{Cli, Command}
use fuelmint.Bin.Configure.{Env}
use fuelmint.Bin.Boot.{Host, Booted, prepare}
use fuelmint.Bin.Start.{prepare-Boots}
use fuelmint.Bin.Session.{starts_fresh, Boots-IsBooted}
use fuelmint.Rollkit.Abci.{Abci, end_block, commit, info}
use fuelmint.Rollkit.Relay.{AbciRelayer, handle}
use fuelmint.Rollkit.Forwarding.{
  Call, Answer, serve, Carries, forwarded, serve-run, relay-delivered,
}
use fuelmint.Rollkit.Blocks.{forwarded-append}

-- A block that is ended and committed: both states are at its height.
height-foldl :
    {P : Type 0} (before : List (Request P)) (height : ℤ) (s : States)
    → let t = foldl step s (before ++ Request.end_block height ∷ Request.commit ∷ []) in
      (t.current.block_height ≡ height) × (t.committed ≡ t.current)
height-foldl before height s = rw (foldl-append step s before) (refl, refl)

call-info :
    {F : Fuel} {P : Type 0} (heights : TakesNonneg F) (app : App F) (payload : P) (n : ℕ)
    → n < 2 ^ 63
    → KeepsHash [] app
    → app.current_state.value.block_height ≡ pos n
    → call (Request.info payload) app
      ≡ (returned (ok (Response.info (report F (heights.height n) []))), app)
unfolding call
call-info heights app payload n range h at =
    rw (info-pos heights app h.unlocked n range at, h.current_hash)

module _ {A : Abci} {F : Fuel} {Q : Type 0} {relayer : AbciRelayer A}
    (wire : Carries A relayer.client F Q) (heights : TakesNonneg F) where
  -- The relay has served a block to its commit, and then `Info`.
  block-info :
      (calls : List (Call A)) (ending : A.Req end_block) (closing : A.Req commit)
      (asking : A.Req info) (payload : Q) (n : ℕ) (v : A.World) {answers : List (Answer A)}
      {v' : A.World} {res : A.Res info} {v'' : A.World}
      → n < 2 ^ 63
      → KeepsHash [] (wire.app v)
      → wire.request end_block ending ≡ Request.end_block (pos n)
      → wire.request commit closing ≡ Request.commit
      → wire.request info asking ≡ Request.info payload
      → serve A relayer (calls ++ (end_block, ending) ∷ (commit, closing) ∷ []) v
        ≡ (returned answers, v')
      → handle A relayer info asking v' ≡ (returned res, v'')
      → ((wire.app v'').committed_state.value ≡ record { block_height = pos n; app_hash = [] })
        × (wire.response info res ≡ Response.info (report F (heights.height n) []))
  unfolding handle
  block-info calls ending closing asking payload n v {v' = v'} {res = res} {v'' = v''} range fresh
        ends closes asks served told_info =
      let before = forwarded wire calls in
      let block = before ++ Request.end_block (pos n) ∷ Request.commit ∷ [] in
      let shape : forwarded wire (calls ++ (end_block, ending) ∷ (commit, closing) ∷ []) ≡ block =
        forwarded-append wire calls _ ∙ (rw (ends, closes) refl) in
      let ran = sym (ap (λ rs. run rs (wire.app v)) shape) ∙ serve-run wire _ v served in
      let app' = (run block (wire.app v)).1 in
      let there : app' ≡ wire.app v' = ap (λ x. x.1) ran in
      let seen = view-run block (wire.app v) fresh.unlocked (ap (λ x. x.0) ran) in
      let (at, settled) = height-foldl before (pos n) (view (wire.app v)) in
      let kept = run-KeepsHash [] block (wire.app v) fresh in
      let height = ap (λ s. s.current.block_height) seen ∙ at in
      let committed = ap (λ s. s.committed) seen ∙ settled ∙ sym (ap (λ s. s.current) seen) in
      let answer = call-info heights app' payload n range kept height in
      let heard = relay-delivered wire info asking v' told_info in
      let both =
        sym (ap (λ r. call r app') asks ∙ answer)
        ∙ ap (λ a. call (wire.request info asking) a) there
        ∙ heard in
      (
        sym (ap (λ x. x.1.committed_state.value) both)
            ∙ committed
            ∙ (λ i. record { block_height = height i; app_hash = kept.current_hash i }),
        cc (ap (λ x. x.0) both),
      )

module _ {F : Fuel} {C : Cli F} {T : PartTypes} {W : Web} (H : Host C T W) (P : Parts F T W)
    (R : Runners F T W) (env : Env) (command : Command C) (law : AddsNewRoutes W)
    (shares : (task : NotInitializedTask W) → P.graph_shared task ≡ GraphApi.shared_data task)
    (runner_shares : (task : Task F T W) → R.runner_shared (R.new_runner task) ≡ task.shared)
    (heights : TakesNonneg F) where
  -- the application as `exec` makes it
  prepared-KeepsHash :
      (w : W.World) {b : Booted H P R} {w' : W.World}
      → prepare H P R env command w ≡ (returned b, w')
      → KeepsHash [] b.service
  prepared-KeepsHash w {b} made =
      let (config, database, is) =
        Boots-IsBooted H P R env command w
          (prepare-Boots H P R env command law shares runner_shares w) made in
      record {
        current_hash = ap (λ m. m.value.app_hash) is.current;
        committed_hash = ap (λ m. m.value.app_hash) is.committed;
        unlocked = (starts_fresh H P R env command config database b is).unlocked;
      }

  -- If axum takes every new path, runners share what their tasks share, heights are the `i64`s that
  -- are not negative, and the client of the relay carries its requests to the application that `exec`
  -- has made: when the relay has served calls of which the last two are `EndBlock` at a height that is
  -- no negative `i64` and `Commit`, and then `Info`, the application has committed that height with
  -- an empty hash, and the relay has answered `Info` with that height and an empty hash.
  pub session-reports :
      {A : Abci} {Q : Type 0} {relayer : AbciRelayer A} (wire : Carries A relayer.client F Q)
      (w : W.World) {b : Booted H P R} {w' : W.World} (calls : List (Call A))
      (ending : A.Req end_block) (closing : A.Req commit) (asking : A.Req info) (payload : Q)
      (n : ℕ) (v : A.World) {answers : List (Answer A)} {v' : A.World} {res : A.Res info}
      {v'' : A.World}
      → prepare H P R env command w ≡ (returned b, w')
      → wire.app v ≡ b.service
      → n < 2 ^ 63
      → wire.request end_block ending ≡ Request.end_block (pos n)
      → wire.request commit closing ≡ Request.commit
      → wire.request info asking ≡ Request.info payload
      → serve A relayer (calls ++ (end_block, ending) ∷ (commit, closing) ∷ []) v
        ≡ (returned answers, v')
      → handle A relayer info asking v' ≡ (returned res, v'')
      → ((wire.app v'').committed_state.value ≡ record { block_height = pos n; app_hash = [] })
        × (wire.response info res ≡ Response.info (report F (heights.height n) []))
  session-reports wire w calls ending closing asking payload n v made same range ends closes asks
        served told_info =
      block-info wire heights calls ending closing asking payload n v range
        (rw same (prepared-KeepsHash w made)) ends closes asks served told_info
