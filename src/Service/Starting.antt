-- ===== src/Service/Starting.antt =====
-- How the task starts the sub-services.
use fuelmint.Common.{
  List, [], ◌∷◌, ◌++◌, ok, err, Result, ◌≡◌, refl, inl, inr, Result-cases, map_ok,
}
use fuelmint.Common.Exec.{returned}
use fuelmint.Fuel.{Fuel}
use fuelmint.GraphApi.Web.{Web}
use fuelmint.SubServices.Parts.{PartTypes}
use fuelmint.Service.Interface.{Runtime}
use fuelmint.Service.Task.{Task, start_all, into_task}

module _ {T : PartTypes} {W : Web} (R : Runtime T W) where
  -- All the services have come up, in this order, from the first world to the second.
  pub data StartsEach : List T.SubService → W.World → W.World → Type 0 where
    none_left : (w : W.World) → StartsEach [] w w
    started :
        (s : T.SubService) (rest : List T.SubService) (state : W.LifeState) (w w' w'' : W.World)
        → R.subs.start_and_await s w ≡ (ok state, w')
        → StartsEach rest w' w''
        → StartsEach (s ∷ rest) w w''

  -- What starting the services may come to: all are up, or one has failed; then those before it are
  -- up and those after it are untouched.
  pub data Launches (services : List T.SubService) (w : W.World) (r : Result W.Error (Unit {0}))
      (end : W.World) : Type 0 where
    launched : StartsEach services w end → r ≡ ok tt → Launches services w r end
    halted :
        (before after : List T.SubService) (s : T.SubService) (e : W.Error) (w' : W.World)
        → services ≡ before ++ s ∷ after
        → StartsEach before w w'
        → R.subs.start_and_await s w' ≡ (err e, end)
        → r ≡ err e
        → Launches services w r end

  start_all-Launches :
      (services : List T.SubService) (w : W.World)
      → (r : Result W.Error (Unit {0})) × (end : W.World) × Launches services w r end
        × (start_all R services w ≡ (returned r, end))
  start_all-Launches [] w = (ok tt, w, launched (StartsEach.none_left w) refl, refl)
  start_all-Launches (s ∷ rest) w =
      let (up, w') = R.subs.start_and_await s w in
      elim (Result-cases up) [
        | inr (e, bad) ↦ (
          err e,
          w',
          halted [] rest s e w refl (StartsEach.none_left w) (λ i. (bad i, w')) refl,
          rw bad,
        )
        | inl (state, good) ↦
            let (r, end, l, same) = start_all-Launches rest w' in
            (r, end, Launches-cons s rest state w w' r end (λ i. (good i, w')) l, rw (good, same))
      ]
    where
      Launches-cons :
          (s : T.SubService) (rest : List T.SubService) (state : W.LifeState) (w w' : W.World)
          (r : Result W.Error (Unit {0})) (end : W.World)
          → R.subs.start_and_await s w ≡ (ok state, w')
          → Launches rest w' r end
          → Launches (s ∷ rest) w r end
      Launches-cons s rest state w w' r end up (launched each d) =
          launched (started s rest state w w' end up each) d
      Launches-cons s rest state w w' r end up (halted before after t e w'' split each bad d) =
          halted (s ∷ before) after t e w'' (λ i. s ∷ split i)
            (started s before state w w' w'' up each) bad d

  -- `into_task` hands the task on if all its services have come up, and the error of the first that
  -- did not; it never panics.
  pub into_task-Launches :
      {F : Fuel} (task : Task F T W) (w : W.World)
      → (r : Result W.Error (Unit {0})) × (end : W.World) × Launches task.services w r end
        × (into_task R task w ≡ (returned (map_ok (λ _. task) r), end))
  unfolding into_task
  into_task-Launches task w =
      let (r, end, l, same) = start_all-Launches task.services w in
      (r, end, l, finish_with r end l same)
    where
      finish_with :
          (r : Result W.Error (Unit {0})) (end : W.World)
          → Launches task.services w r end
          → start_all R task.services w ≡ (returned r, end)
          → into_task R task w ≡ (returned (map_ok (λ _. task) r), end)
      finish_with (ok _) end l same = rw same
      finish_with (err e) end l same = rw same
