-- ===== src/Bin/Tasks.antt =====
-- fuelmint/src/bin/fuelmint.rs: the two tasks that `exec` spawns, as they take turns. A turn of the
-- ABCI server is one request, since `call` runs its handler to its end; a turn of the task
-- `fuelmint_services` is one of its awaits; between them the sub-services change the world.
use fuelmint.Common.{refl, ◌≡◌, ok, err, Result, Bool, true, false, arith}
use fuelmint.Common.Exec.{Outcome, returned, panicked, blocked, start_service, await_stop}
use fuelmint.Fuel.{Fuel}
use fuelmint.App.Messages.{App, Request, Response}
use fuelmint.App.Call.{call}
use fuelmint.GraphApi.Web.{Web}
use fuelmint.SubServices.Parts.{PartTypes}
use fuelmint.Service.Node
use fuelmint.Service.Node.{Runners, FuelmintService}
use fuelmint.Bin.Boot.{run_services}

-- where `fuelmint_services` is
pub data Point : Type 0 where
  starting stopping : Point
  finished : Outcome (Unit {0}) → Point

pub record Running (F : Fuel) (W : Web) : Type 0 where
  pub app : App F
  pub world : W.World
  pub point : Point
  -- whether the task that owns the application still runs
  pub serving : Bool

-- The application has been moved into the split service and its task, which a panic ends: no request
-- reaches it after one.
abbrev pub goes_on {ℓ} : {A : Type ℓ} → Outcome A → Bool
goes_on (returned _) = true
goes_on (panicked _) = false
goes_on blocked = false

module _ {F : Fuel} {T : PartTypes} {W : Web} (R : Runners F T W) (server : FuelmintService R) where
  -- an `unwrap` of the task, with the point after it
  abbrev pub settle {ℓ} : {A : Type ℓ} → Point → Point → Result W.Error A → Point
  settle next failed (ok _) = next
  settle next failed (err _) = failed

  -- one await of the task, with its `unwrap`
  unfoldable pub resume : Point → W.World → Point × W.World
  resume starting w =
      let (r, w') = (Node.service_methods R).start_and_await server w in
      (settle stopping (finished (panicked start_service)) r, w')
  resume stopping w =
      let (r, w') = (Node.service_methods R).await_stop server w in
      (settle (finished (returned tt)) (finished (panicked await_stop)) r, w')
  resume (finished o) w = (finished o, w)

  -- A turn of the ABCI server, of `fuelmint_services`, or of what runs beside them; `Asks` says which
  -- requests may come.
  pub data Turn {Q : Type 0} (Asks : Request Q → Type 0) (n : Running F W)
      : Running F W → Type 0 where
    serves :
        (request : Request Q)
        → n.serving ≡ true
        → Asks request
        → Turn Asks n
            (record n { app = (call request n.app).1; serving = goes_on (call request n.app).0 })
    resumes :
        Turn Asks n
          (record n { point = (resume n.point n.world).0; world = (resume n.point n.world).1 })
    elsewhere :
        (world : W.World) (fuel_world : F.World)
        → Turn Asks n (record n { world = world; app = record n.app { world = fuel_world } })

  pub data Reaches {Q : Type 0} (Asks : Request Q → Type 0) (n : Running F W)
      : Running F W → Type 0 where
    here : Reaches Asks n n
    later : (m k : Running F W) → Reaches Asks n m → Turn Asks m k → Reaches Asks n k

  -- What every turn keeps holds at every node that is reached.
  pub Reaches_inv {ℓ} :
      {Q : Type 0} {Asks : Request Q → Type 0} (I : Running F W → Type ℓ)
      → ((m k : Running F W) → Turn Asks m k → I m → I k)
      → (n k : Running F W) → Reaches Asks n k
      → I n
      → I k
  Reaches_inv I keep n k here h = h
  Reaches_inv I keep n k (later m _ before turn) h = keep m k turn (Reaches_inv I keep n m before h)

  -- Every request on the way to a node was answered.
  pub AllAnswered :
      {Q : Type 0} {Asks : Request Q → Type 0} (n k : Running F W) → Reaches Asks n k → Type 0
  AllAnswered n k here = Unit
  AllAnswered n k (later m _ before (serves request _ _)) =
      AllAnswered n m before
      × ((answer : Result F.Error (Response F)) × ((call request m.app).0 ≡ returned answer))
  AllAnswered n k (later m _ before resumes) = AllAnswered n m before
  AllAnswered n k (later m _ before (elsewhere _ _)) = AllAnswered n m before

  goes_on-returned : {A : Type 0} (o : Outcome A) → goes_on o ≡ true → (a : A) × (o ≡ returned a)
  goes_on-returned (returned a) h = (a, refl)
  goes_on-returned (panicked p) h = cc
  goes_on-returned blocked h = cc

  -- A server that serves has answered every request.
  pub serving-AllAnswered :
      {Q : Type 0} {Asks : Request Q → Type 0} (n k : Running F W) (reached : Reaches Asks n k)
      → k.serving ≡ true
      → AllAnswered n k reached
  unfolding AllAnswered
  serving-AllAnswered n k here runs = tt
  serving-AllAnswered n k (later m _ before (serves request runs_there _)) runs =
      (serving-AllAnswered n m before runs_there, goes_on-returned (call request m.app).0 runs)
  serving-AllAnswered n k (later m _ before resumes) runs = serving-AllAnswered n m before runs
  serving-AllAnswered n k (later m _ before (elsewhere _ _)) runs =
      serving-AllAnswered n m before runs

  -- Where the server has stopped, it has served until a request that was not answered.
  pub stopped_at :
      {Q : Type 0} {Asks : Request Q → Type 0} (n k : Running F W)
      → Reaches Asks n k
      → n.serving ≡ true
      → k.serving ≡ false
      → (m : Running F W) × (request : Request Q) × Reaches Asks n m
        × (m.serving ≡ true)
        × Asks request
        × (goes_on (call request m.app).0 ≡ false)
  stopped_at n k here runs stops = cc
  stopped_at n k (later m _ before (serves request runs_there asked)) runs stops =
      (m, request, before, runs_there, asked, stops)
  stopped_at n k (later m _ before resumes) runs stops = stopped_at n m before runs stops
  stopped_at n k (later m _ before (elsewhere world fuel_world)) runs stops =
      stopped_at n m before runs stops

  -- Two turns in a row from the start take the task of the services to its end, with the outcome and
  -- the world of the whole of it.
  pub resume-run_services :
      (w : W.World)
      → let (o, w') = run_services R server w in
        let (p, v) = resume starting w in resume p v ≡ (finished o, w')
  unfolding resume run_services
  resume-run_services w = ground arith
