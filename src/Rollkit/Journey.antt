-- ===== src/Rollkit/Journey.antt =====
-- A transaction on its way through both programs: a client submits it, the node delivers it by the
-- relay, and a block is made of the pool that holds it.
use mathlib.Core.Path.{subst}
use fuelmint.Common.{List, [], ◌∷◌, ◌++◌, ◌≡◌, refl, sym, ap, ◌∙◌}
use fuelmint.Common.Int.{ℤ}
use fuelmint.Common.Exec.{returned}
use fuelmint.Fuel.{Fuel}
use fuelmint.App.Messages.{Request}
use fuelmint.App.Call.{call}
use fuelmint.App.Deadlock.{IsUnlocked}
use fuelmint.App.Runs.{run, run-IsUnlocked}
use fuelmint.Client.Gql.{Gql, PrintsHex}
use fuelmint.Client.Tx.{submit}
use fuelmint.Client.RoundTrip.{Encodes, Posts, submit-Posts}
use fuelmint.Rollkit.Abci.{Abci, deliver_tx, end_block, commit}
use fuelmint.Rollkit.Relay.{AbciRelayer}
use fuelmint.Rollkit.Forwarding.{
  Call, Answer, serve, Carries, forwarded, serve-run, serve-append, serve-nil, serve-relayed,
}
use fuelmint.Rollkit.Inclusion.{IsCommitted, calls-IsCommitted}

module _ {A : Abci} {F : Fuel} {Q : Type 0} {relayer : AbciRelayer A}
    (wire : Carries A relayer.client F Q) {G : Gql F} (hex : PrintsHex G) (codec : Encodes F) where
  -- If the client of the relay carries requests to the application, hexadecimal texts print as `0x` and
  -- digits that decode, and transactions are read back as they were written: `submit`, of a text of
  -- the bytes of `tx`, posts those bytes once and returns the transport error or `tx` precomputed; and
  -- when the relay has served calls of which the last three are `DeliverTx` of those bytes, `EndBlock` at
  -- a height and `Commit`, from free locks, then the pool took `tx` precomputed without an error, a block
  -- was produced at that height from the world with it, the database took the block, the transactions
  -- that it had skipped left the pool, and the state of that height is committed.
  pub submit-IsCommitted :
      (tx : F.Tx) (h : G.HexString) (g : G.World) (calls : List (Call A))
      (delivering : A.Req deliver_tx) (ending : A.Req end_block) (closing : A.Req commit)
      (height : ℤ) (v : A.World) {answers : List (Answer A)} {v' : A.World}
      → hex.bytes h ≡ codec.to_bytes tx
      → wire.request deliver_tx delivering ≡ Request.deliver_tx (codec.to_bytes tx)
      → wire.request end_block ending ≡ Request.end_block height
      → wire.request commit closing ≡ Request.commit
      → IsUnlocked (wire.app v)
      → serve A relayer
          (calls ++ (deliver_tx, delivering) ∷ (end_block, ending) ∷ (commit, closing) ∷ [])
          v
        ≡ (returned answers, v')
      → Posts G (codec.to_bytes tx) tx g (submit G h g)
        × IsCommitted tx height (run (forwarded wire calls) (wire.app v)).1 (wire.app v')
  submit-IsCommitted tx h g calls delivering ending closing height v {v' = v'} encoded delivers ends
        closes free served =
      let posts = submit-Posts hex codec tx h g encoded in
      let (_, _, v₁, before, after) = serve-append A relayer calls _ v served in
      let (_, _, v₂, delivered, after₂) =
        serve-relayed wire deliver_tx delivering _ v₁ refl after in
      let (_, _, v₃, ended, after₃) = serve-relayed wire end_block ending _ v₂ refl after₂ in
      let (_, _, v₄, committed, after₄) = serve-relayed wire commit closing _ v₃ refl after₃ in
      let app = wire.app v₁ in
      let led = serve-run wire calls v before in
      let free₁ =
        subst IsUnlocked (ap (λ r. r.1) led)
          (run-IsUnlocked (forwarded wire calls) (wire.app v) free) in
      let there : wire.app v₁ ≡ (run (forwarded wire calls) (wire.app v)).1 =
        sym (ap (λ r. r.1) led) in
      let led_to : IsCommitted tx height app (wire.app v₄) =
        calls-IsCommitted Q codec tx height app free₁
          (sym (ap (λ r. call r app) delivers) ∙ delivered)
          (sym (ap (λ r. call r (wire.app v₂)) ends) ∙ ended)
          (sym (ap (λ r. call r (wire.app v₃)) closes) ∙ committed) in
      (
        posts,
        subst (λ a. IsCommitted tx height a (wire.app v')) there
            (subst (λ u. IsCommitted tx height app (wire.app u)) (serve-nil A relayer v₄ after₄)
              led_to),
      )
