-- ===== src/Bin/Ending.antt =====
-- fuelmint/src/bin/fuelmint.rs: how `exec` ends when the task of the services is the first of the
-- two to end.
use fuelmint.Common.{Result, ok, err, ◌≡◌, inl, inr, Result-cases}
use fuelmint.Common.Exec.{
  Exec, Outcome, Panic, returned, panicked, start_service, await_stop, join_task,
}
use fuelmint.Fuel.{Fuel}
use fuelmint.GraphApi.Web.{Web}
use fuelmint.SubServices.Parts.{PartTypes}
use fuelmint.Service.Node
use fuelmint.Service.Node.{Runners, FuelmintService}
use fuelmint.Bin.Boot.{services, run_services, after_select}

-- A tokio `JoinHandle`: what joining a task gives by how the task has ended. It is an error exactly
-- if the task has panicked.
pub record Joins (JoinError : Type 0) : Type 0 where
  pub join : Outcome (Unit {0}) → Result JoinError (Unit {0})
  pub join_returned : join (returned tt) ≡ ok tt
  pub join_panicked : (p : Panic) → (e : JoinError) × (join (panicked p) ≡ err e)

module _ {F : Fuel} {T : PartTypes} {W : Web} {JoinError : Type 0} (R : Runners F T W)
    (tokio : Joins JoinError) (AbciError : Type 0) where
  -- the task of the services run to its end, and the `select!` after it
  unfoldable pub services_then_select : FuelmintService R → Exec W.World (Unit {0})
  unfolding run_services after_select
  services_then_select server w =
      let (o, w') = run_services R server w in
      after_select {JoinError = JoinError} {E = AbciError} (services (tokio.join o)) w'

  -- How `exec` may end with its services.
  pub data Ends (server : FuelmintService R) (w : W.World) (r : Outcome (Unit {0}) × W.World)
      : Type 0 where
    not_up :
        (e : W.Error) (w' : W.World)
        → (Node.service_methods R).start_and_await server w ≡ (err e, w')
        → r ≡ (panicked join_task, w')
        → Ends server w r
    not_down :
        (state : W.LifeState) (e : W.Error) (w' w'' : W.World)
        → (Node.service_methods R).start_and_await server w ≡ (ok state, w')
        → (Node.service_methods R).await_stop server w' ≡ (err e, w'')
        → r ≡ (panicked join_task, w'')
        → Ends server w r
    stopped :
        (up down : W.LifeState) (w' w'' : W.World)
        → (Node.service_methods R).start_and_await server w ≡ (ok up, w')
        → (Node.service_methods R).await_stop server w' ≡ (ok down, w'')
        → r ≡ (returned tt, w'')
        → Ends server w r

  -- When the services end first, `exec` panics at the join if they did not come up, in which case
  -- their stop is not awaited, or reported an error at their stop, and returns if they came up and
  -- stopped.
  pub services-Ends :
      (server : FuelmintService R) (w : W.World) → Ends server w (services_then_select server w)
  unfolding services_then_select
  services-Ends server w =
      let (up, w') = (Node.service_methods R).start_and_await server w in
      let (down, w'') = (Node.service_methods R).await_stop server w' in
      elim (Result-cases up) [
        | inr (e, bad) ↦
            let (_, joined) = tokio.join_panicked start_service in
            not_up e w' (λ i. (bad i, w')) (rw (bad, joined))
        | inl (state, good) ↦ elim (Result-cases down) [
          | inr (e, bad) ↦
              let (_, joined) = tokio.join_panicked await_stop in
              not_down state e w' w'' (λ i. (good i, w')) (λ i. (bad i, w''))
                (rw (good, bad, joined))
          | inl (end, fine) ↦
              stopped state end w' w'' (λ i. (good i, w')) (λ i. (fine i, w''))
                (rw (good, fine, tokio.join_returned))
        ]
      ]
