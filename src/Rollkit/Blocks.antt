-- ===== src/Rollkit/Blocks.antt =====
-- Blocks of the consensus through the relay.
use fuelmint.Common.{
  List, [], ◌∷◌, ◌++◌, Bool-cases, inl, inr, ◌≡◌, refl, ap, ◌∙◌, sym, append_assoc,
}
use fuelmint.Common.Int.{ℤ}
use fuelmint.Common.Exec.{returned}
use fuelmint.Fuel.{Fuel}
use fuelmint.App.Messages.{Request}
use fuelmint.App.Runs.{run}
use fuelmint.App.Deadlock.{IsUnlocked}
use fuelmint.App.Commits.{committing, commit-last_block}
use fuelmint.Rollkit.Abci.{Abci, end_block, commit}
use fuelmint.Rollkit.Relay.{AbciRelayer}
use fuelmint.Rollkit.Answers.{is_relayed}
use fuelmint.Rollkit.Forwarding.{Call, Answer, serve, Carries, forwarded, serve-run}

module _ {A : Abci} {F : Fuel} {P : Type 0} {relayer : AbciRelayer A}
    (wire : Carries A relayer.client F P) where
  pub forwarded-append :
      (xs ys : List (Call A)) → forwarded wire (xs ++ ys) ≡ forwarded wire xs ++ forwarded wire ys
  forwarded-append [] ys = refl
  forwarded-append ((m, req) ∷ xs) ys = elim (Bool-cases (is_relayed A m req)) [
    | inl sent ↦ rw sent (ap (λ rs. wire.request m req ∷ rs) (forwarded-append xs ys))
    | inr alone ↦ rw alone (forwarded-append xs ys)
  ]

  -- If the client carries requests to the application, the last two of them `EndBlock` at `height` and
  -- `Commit`, and the application's locks are free at the start, then after the relay has served
  -- all the calls the application has committed `height`.
  serve-commits :
      (calls : List (Call A)) (ending : A.Req end_block) (closing : A.Req commit) (height : ℤ)
      (w : A.World) {answers : List (Answer A)} {w' : A.World}
      → wire.request end_block ending ≡ Request.end_block height
      → wire.request commit closing ≡ Request.commit
      → IsUnlocked (wire.app w)
      → serve A relayer (calls ++ (end_block, ending) ∷ (commit, closing) ∷ []) w
        ≡ (returned answers, w')
      → (wire.app w').committed_state.value.block_height ≡ height
  serve-commits calls ending closing height w ends closes free served =
      let at_app =
        serve-run wire (calls ++ (end_block, ending) ∷ (commit, closing) ∷ []) w served in
      let shape : forwarded wire (calls ++ (end_block, ending) ∷ (commit, closing) ∷ [])
          ≡ committing (forwarded wire calls) height [] [] =
        forwarded-append calls _
        ∙ (rw (ends, closes) (sym (append_assoc (forwarded wire calls) _ (Request.commit ∷ [])))) in
      let ran = sym (ap (λ rs. run rs (wire.app w)) shape) ∙ at_app in
      sym (ap (λ x. x.1.committed_state.value.block_height) ran)
      ∙ commit-last_block (forwarded wire calls) [] [] height (wire.app w) free tt tt
          (ap (λ x. x.0) ran)
