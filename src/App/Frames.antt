-- ===== src/App/Frames.antt =====
-- The requests that the application does not handle.
use fuelmint.Common.{
  List, [], ◌∷◌, Bool, true, false, Result, ok, ◌≡◌, refl, ◌∙◌, inl, inr, Bool-cases, if◌then◌else◌,
}
use fuelmint.Common.Exec.{Exec, Outcome, returned, panicked, blocked, pure, then_run, ◌>>=◌}
use fuelmint.Fuel.{Fuel}
use fuelmint.App.Messages.{App, Request, Response}
use fuelmint.App.Call.{call}
use fuelmint.App.Runs.{run}

module _ {P : Type 0} where
  -- the first four arms of the `match`
  abbrev pub is_handled : Request P → Bool
  is_handled (Request.info _) = true
  is_handled (Request.deliver_tx _) = true
  is_handled (Request.end_block _) = true
  is_handled Request.commit = true
  is_handled _ = false

  abbrev pub handled : List (Request P) → List (Request P)
  handled [] = []
  handled (r ∷ rs) = if is_handled r then r ∷ handled rs else handled rs

-- The panic that ends a sequence, if one does.
abbrev pub ending {ℓ} : {A : Type ℓ} → Outcome A → Outcome (Unit {0})
ending (returned _) = returned tt
ending (panicked p) = panicked p
ending blocked = blocked

-- Two ways for a sequence to go on that leave one app and one ending.
abbrev pub Agree {ℓ} : {S A : Type ℓ} → Outcome A × S → Outcome A × S → Type ℓ
Agree (r, s) (r', s') = (s ≡ s') × (ending r ≡ ending r')

module _ {S A B : Type 0} where
  Agree-bind-pure :
      (m m' : Exec S A) (f : A → B) (s : S)
      → Agree (m s) (m' s)
      → Agree ((m >>= λ a. pure (f a)) s) ((m' >>= λ a. pure (f a)) s)
  Agree-bind-pure m m' f s h = go (m s) (m' s) h
    where
      go :
          (x x' : Outcome A × S)
          → Agree x x'
          → Agree (then_run (λ a. pure (f a)) x.0 x.1) (then_run (λ a. pure (f a)) x'.0 x'.1)
      go (returned a, t) (returned a', t') h = (h.0, refl)
      go (panicked p, t) (panicked p', t') h = h
      go (blocked, t) (blocked, t') h = h
      go (returned a, t) (panicked p, t') h = cc (h.1)
      go (returned a, t) (blocked, t') h = cc (h.1)
      go (panicked p, t) (returned a, t') h = cc (h.1)
      go (panicked p, t) (blocked, t') h = cc (h.1)
      go (blocked, t) (returned a, t') h = cc (h.1)
      go (blocked, t) (panicked p, t') h = cc (h.1)

  Agree-bind :
      (m : Exec S A) (f f' : A → Exec S B) (s : S)
      → ((a : A) → Agree (f a (m s).1) (f' a (m s).1))
      → Agree ((m >>= f) s) ((m >>= f') s)
  Agree-bind m f f' s h = go (m s).0
    where
      go : (r : Outcome A) → Agree (then_run f r (m s).1) (then_run f' r (m s).1)
      go (returned a) = h a
      go (panicked p) = (refl, refl)
      go blocked = (refl, refl)

module _ {F : Fuel} {P : Type 0} where
  -- A request that is not handled is answered with `Ok`, and nothing changes.
  pub call-unhandled :
      (request : Request P) (app : App F)
      → is_handled request ≡ false
      → (response : Response F) × (call request app ≡ (returned (ok response), app))
  unfolding call
  call-unhandled (Request.info _) app h = cc
  call-unhandled (Request.deliver_tx _) app h = cc
  call-unhandled (Request.end_block _) app h = cc
  call-unhandled Request.commit app h = cc
  call-unhandled _ app h = (_, refl)

  -- A request that is answered and changes nothing can be left out.
  pub run-skip :
      (request : Request P) (rest : List (Request P)) (app : App F)
      (x : Result F.Error (Response F))
      → call request app ≡ (returned x, app)
      → Agree (run rest app) (run (request ∷ rest) app)
  unfolding run
  run-skip request rest app x e = rw e (go x (run rest app))
    where
      go :
          (x : Result F.Error (Response F))
          (m : Outcome (List (Result F.Error (Response F))) × App F)
          → let (r, s) = then_run (λ xs. pure (x ∷ xs)) m.0 m.1 in
            (m.1 ≡ s) × (ending m.0 ≡ ending r)
      go x (returned xs, s) = (refl, refl)
      go x (panicked p, s) = (refl, refl)
      go x (blocked, s) = (refl, refl)

  pub run-cons_congr :
      (request : Request P) (rest rest' : List (Request P)) (app : App F)
      → Agree (run rest (call request app).1) (run rest' (call request app).1)
      → Agree (run (request ∷ rest) app) (run (request ∷ rest') app)
  unfolding run
  run-cons_congr request rest rest' app h =
      Agree-bind (call request) _ _ app
        λ x. Agree-bind-pure (run rest) (run rest') (λ xs. x ∷ xs) (call request app).1 h

  -- With the requests left out that are not handled, a sequence leaves the same app, and ends by the
  -- same panic or none.
  pub run-handled :
      (requests : List (Request P)) (app : App F)
      → ((run (handled requests) app).1 ≡ (run requests app).1)
        × (ending (run (handled requests) app).0 ≡ ending (run requests app).0)
  run-handled [] app = (refl, refl)
  run-handled (r ∷ rest) app = elim (Bool-cases (is_handled r)) [
    | inl taken ↦
        rw taken (run-cons_congr r (handled rest) rest app (run-handled rest (call r app).1))
    | inr left ↦ rw left (
        let (x, answered) = call-unhandled r app left in
        let (e, d) = run-skip r rest app (ok x) answered in
        let (e', d') = run-handled rest app in (e' ∙ e, d' ∙ d))
  ]
