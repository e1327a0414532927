-- ===== src/Rollkit/Forwarding.antt =====
-- The relay in front of the application: a sequence of calls of the consensus reaches the application
-- as the sequence of the requests that the relay hands on.
use fuelmint.Common.{
  List, [], ◌∷◌, ◌++◌, true, refl, Result, ok, ◌≡◌, sym, ap, ◌∙◌, inl, inr, Bool-cases,
  if◌then◌else◌,
}
use fuelmint.Common.Exec.{Exec, returned, pure, client_sync, returned-bind, unwrap-returned, ◌>>=◌}
use fuelmint.Fuel.{Fuel}
use fuelmint.App.Messages.{App, Request, Response}
use fuelmint.App.Call.{call}
use fuelmint.App.Runs.{run}
use fuelmint.Rollkit.Abci.{Abci, Method}
use fuelmint.Rollkit.Relay.{AbciRelayer, relay, handle}
use fuelmint.Rollkit.Answers.{is_relayed, handle-relayed, handle-answered}

module _ (A : Abci) where
  -- The calls that the consensus makes, and what they give: the local client takes a lock for each
  -- call, so that they come one after the other.
  abbrev pub Call : Type 0
  Call = (m : Method) × A.Req m

  abbrev pub Answer : Type 0
  Answer = (m : Method) × A.Res m

  unfoldable pub serve : AbciRelayer A → List Call → Exec A.World (List Answer)
  serve app [] = pure []
  serve app ((m, req) ∷ calls) = do
    res ← handle A app m req
    answers ← serve app calls
    pure ((m, res) ∷ answers)

  -- A client whose other end is the application: where a call is answered, its request has been
  -- handled there once, and the answer is the one that was given there.
  pub record Carries (client : A.Client) (F : Fuel) (P : Type 0) : Type 0 where
    pub app : A.World → App F
    pub request : (m : Method) → A.Req m → Request P
    pub response : (m : Method) → A.Res m → Response F
    pub delivered :
        (m : Method) (req : A.Req m) (w : A.World) {res : A.Res m} {w' : A.World}
        → A.sync m client req w ≡ (ok res, w')
        → call (request m req) (app w) ≡ (returned (ok (response m res)), app w')

run-returned :
    {F : Fuel} {P : Type 0} (request : Request P) (rest : List (Request P)) (app : App F)
    {x : Result F.Error (Response F)} {xs : List (Result F.Error (Response F))} {app' app'' : App F}
    → call request app ≡ (returned x, app')
    → run rest app' ≡ (returned xs, app'')
    → run (request ∷ rest) app ≡ (returned (x ∷ xs), app'')
unfolding run
run-returned request rest app first later = rw (first, later)

module _ (A : Abci) (relayer : AbciRelayer A) where
  pub serve-step :
      (m : Method) (req : A.Req m) (calls : List (Call A)) (v : A.World) {res : A.Res m}
      {v' : A.World} {answers : List (Answer A)} {v'' : A.World}
      → handle A relayer m req v ≡ (returned res, v')
      → serve A relayer calls v' ≡ (returned answers, v'')
      → serve A relayer ((m, req) ∷ calls) v ≡ (returned ((m, res) ∷ answers), v'')
  unfolding serve
  serve-step m req calls v now later = rw (now, later)

  -- A sequence that was served: its first call, and the rest from where that left the world.
  pub serve-cons :
      (m : Method) (req : A.Req m) (calls : List (Call A)) (w : A.World) {answers : List (Answer A)}
      {w' : A.World}
      → serve A relayer ((m, req) ∷ calls) w ≡ (returned answers, w')
      → (res : A.Res m) × (later : List (Answer A)) × (w₁ : A.World) × (handle A relayer m req w
          ≡ (returned res, w₁))
        × (serve A relayer calls w₁ ≡ (returned later, w'))
        × (answers ≡ (m, res) ∷ later)
  unfolding serve
  serve-cons m req calls w h =
      let (res, w₁, now, rest) = returned-bind (handle A relayer m req w) _ h in
      let (later, w₂, then_served, same) = returned-bind (serve A relayer calls w₁) _ rest in
      (
        res,
        later,
        w₁,
        now,
        then_served ∙ ap (λ v. (returned later, v)) (ap (λ x. x.1) same),
        cc (ap (λ x. x.0) same),
      )

  pub serve-nil :
      (v : A.World) {answers : List (Answer A)} {v' : A.World}
      → serve A relayer [] v ≡ (returned answers, v')
      → v ≡ v'
  unfolding serve
  serve-nil v h = ap (λ r. r.1) h

  -- A sequence that was served in two parts.
  pub serve-append :
      (xs ys : List (Call A)) (v : A.World) {answers : List (Answer A)} {v' : A.World}
      → serve A relayer (xs ++ ys) v ≡ (returned answers, v')
      → (first : List (Answer A)) × (second : List (Answer A)) × (v₁ : A.World) × (serve A relayer
            xs v
          ≡ (returned first, v₁))
        × (serve A relayer ys v₁ ≡ (returned second, v'))
  serve-append [] ys v {answers = answers} h = ([], answers, v, (unfold serve in refl), h)
  serve-append ((m, req) ∷ xs) ys v h =
      let (res, _, w, now, rest, _) = serve-cons m req (xs ++ ys) v h in
      let (first, second, v₁, before, after) = serve-append xs ys w rest in
      ((m, res) ∷ first, second, v₁, serve-step m req xs v now before, after)

module _ {A : Abci} {F : Fuel} {P : Type 0} {relayer : AbciRelayer A}
    (wire : Carries A relayer.client F P) where
  -- the requests that reach the application
  abbrev pub forwarded : List (Call A) → List (Request P)
  forwarded [] = []
  forwarded ((m, req) ∷ calls) =
      if is_relayed A m req then wire.request m req ∷ forwarded calls else forwarded calls

  -- its answers to them
  abbrev pub told : List (Call A) → List (Answer A) → List (Result F.Error (Response F))
  told ((m, req) ∷ calls) ((n, res) ∷ answers) =
      if is_relayed A m req
      then ok (wire.response n res) ∷ told calls answers
      else told calls answers
  told _ _ = []

  pub relay-delivered :
      (m : Method) (req : A.Req m) (w : A.World) {res : A.Res m} {w' : A.World}
      → relay A m relayer.client req w ≡ (returned res, w')
      → call (wire.request m req) (wire.app w) ≡ (returned (ok (wire.response m res)), wire.app w')
  relay-delivered m req w h = wire.delivered m req w (unwrap-returned client_sync _ h)

  -- If the client carries requests to the application, then a sequence of calls that the relay has
  -- served is, at the application, the run of the requests that the relay hands on, with their
  -- answers in their order: it leaves the app that the run leaves.
  pub serve-run :
      (calls : List (Call A)) (w : A.World) {answers : List (Answer A)} {w' : A.World}
      → serve A relayer calls w ≡ (returned answers, w')
      → run (forwarded calls) (wire.app w) ≡ (returned (told calls answers), wire.app w')
  serve-run [] w h = unfold run serve in cc (h)
  serve-run ((m, req) ∷ calls) w h =
      let (res, later, w₁, now, rest, same) = serve-cons A relayer m req calls w h in
      let then_run = serve-run calls w₁ rest in
      elim (Bool-cases (is_relayed A m req)) [
        | inr alone ↦
            let unmoved = sym (ap (λ f. f w) (handle-answered A relayer m req alone)) ∙ now in
            rw (same, alone)
              (ap (λ v. run (forwarded calls) (wire.app v)) (ap (λ x. x.1) unmoved) ∙ then_run)
        | inl sent ↦
            let relayed = sym (ap (λ f. f w) (handle-relayed A relayer m req sent)) ∙ now in
            rw (same, sent)
              (run-returned (wire.request m req) (forwarded calls) (wire.app w)
                (relay-delivered m req w relayed) then_run)
      ]

  -- A call that the relay hands on, first in a sequence that was served.
  pub serve-relayed :
      (m : Method) (req : A.Req m) (calls : List (Call A)) (v : A.World) {answers : List (Answer A)}
      {v' : A.World}
      → is_relayed A m req ≡ true
      → serve A relayer ((m, req) ∷ calls) v ≡ (returned answers, v')
      → (res : A.Res m) × (later : List (Answer A)) × (v₁ : A.World) × (call
            (wire.request m req)
            (wire.app v)
          ≡ (returned (ok (wire.response m res)), wire.app v₁))
        × (serve A relayer calls v₁ ≡ (returned later, v'))
  serve-relayed m req calls v sent h =
      let (res, later, v₁, now, rest, _) = serve-cons A relayer m req calls v h in
      let relayed = sym (ap (λ f. f v) (handle-relayed A relayer m req sent)) ∙ now in
      (res, later, v₁, relay-delivered m req v relayed, rest)
