-- ===== src/Service/Lifecycle.antt =====
-- How the task ends: the signal that it waits for, and the stop of the sub-services.
use fuelmint.Common.{
  List, [], ◌∷◌, ◌++◌, false, map, ok, err, Result, ◌≡◌, refl, inl, inr, Result-cases, sym,
  append-nil, append_assoc,
}
use fuelmint.Common.Exec.{returned}
use fuelmint.Fuel.{Fuel}
use fuelmint.GraphApi.Web.{Web}
use fuelmint.SubServices.Parts.{PartTypes}
use fuelmint.Service.Interface.{
  Runtime, StopSignal, sub_service, shutdown, while_started, terminate, interrupt,
}
use fuelmint.Service.Task.{
  Task, Logged, LogLine, stop_error, listen_error, stop_all, stop_signals, select_all, log_error,
  run, finish, shutdown_signal, received,
}

module _ {T : PartTypes} {W : Web} (R : Runtime T W) where
  -- The services stopped one after the other, each whether or not one before it reported an error,
  -- with the errors in their order.
  pub data StopsEach : List T.SubService → W.World → W.World → List W.Error → Type 0 where
    none_left : (w : W.World) → StopsEach [] w w []
    stopped :
        (s : T.SubService) (rest : List T.SubService) (state : W.LifeState) (w w' w'' : W.World)
        (errors : List W.Error)
        → R.subs.stop_and_await s w ≡ (ok state, w')
        → StopsEach rest w' w'' errors
        → StopsEach (s ∷ rest) w w'' errors
    complained :
        (s : T.SubService) (rest : List T.SubService) (e : W.Error) (w w' w'' : W.World)
        (errors : List W.Error)
        → R.subs.stop_and_await s w ≡ (err e, w')
        → StopsEach rest w' w'' errors
        → StopsEach (s ∷ rest) w w'' (e ∷ errors)

  stop_all-StopsEach :
      (services : List T.SubService) (h : Logged W)
      → (end : W.World) × (errors : List W.Error) × StopsEach services h.world end errors
        × (stop_all R services h
            ≡ (returned tt, record { world = end; log = h.log ++ map stop_error errors }))
  stop_all-StopsEach [] h = (
    h.world,
    [],
    StopsEach.none_left h.world,
    λ i. (returned tt, record { world = h.world; log = sym (append-nil h.log) i }),
  )
  stop_all-StopsEach (s ∷ rest) h =
      let (outcome, w') = R.subs.stop_and_await s h.world in
      elim (Result-cases outcome) [
        | inl (state, good) ↦
            let (end, errors, each, same) = stop_all-StopsEach rest (record h { world = w' }) in
            (
              end,
              errors,
              stopped s rest state h.world w' end errors (λ i. (good i, w')) each,
              rw (good, same),
            )
        | inr (e, bad) ↦
            let (end, errors, each, same) =
              stop_all-StopsEach rest (record { world = w'; log = h.log ++ stop_error e ∷ [] }) in
            (
              end,
              e ∷ errors,
              complained s rest e h.world w' end errors (λ i. (bad i, w')) each,
              rw (bad, same)
                  (λ i. (
                    returned tt,
                    record {
                      world = end;
                      log = append_assoc h.log (stop_error e ∷ []) (map stop_error errors) i;
                    },
                  )),
            )
      ]

  -- `shutdown_signal` comes to an end, by an error or by one of the two signals.
  shutdown_signal_returns :
      (h : Logged W)
      → (result : Result W.Error W.LifeState) × (h' : Logged W) × (shutdown_signal R h
          ≡ (returned result, h'))
  unfolding shutdown_signal
  shutdown_signal_returns h =
      let (sigterm, w') = R.signal terminate h.world in
      elim (Result-cases sigterm) [
        | inr (e, bad) ↦ (err e, record h { world = w' }, rw bad)
        | inl (stream, good) ↦
            let (sigint, w'') = R.signal interrupt w' in
            elim (Result-cases sigint) [
              | inr (e, bad) ↦ (err e, record h { world = w'' }, rw (good, bad))
              | inl (stream', fine) ↦
                  let (kind, w₃) = R.select_recv stream stream' w'' in
                  (
                    ok R.stopped,
                    record { world = w₃; log = h.log ++ received R kind ∷ [] },
                    rw (good, fine),
                  )
            ]
      ]

  finish_returns :
      (signal : StopSignal T.SubService R.Watcher) (h : Logged W)
      → (result : Result W.Error W.LifeState) × (h' : Logged W) × (finish R signal h
          ≡ (returned result, h'))
  finish_returns (sub_service s) h = (_, _, refl)
  finish_returns shutdown h = shutdown_signal_returns h
  finish_returns (while_started watcher) h = (_, _, refl)

  -- There is always a signal to wait for, so `select_all` does not panic.
  select_all_returns :
      (services : List T.SubService) (watcher : R.Watcher) (h : Logged W)
      → (result : Result W.Error W.LifeState) × (h' : Logged W) × (select_all R
            (stop_signals R services watcher)
            h
          ≡ (returned result, h'))
  select_all_returns [] watcher h = finish_returns _ _
  select_all_returns (s ∷ rest) watcher h = finish_returns _ _

  log_error_returns :
      {A : Type 0} (line : W.Error → LogLine W.Error) (r : Result W.Error A) (h : Logged W)
      → (h' : Logged W) × (h'.world ≡ h.world) × (log_error R line r h ≡ (returned tt, h'))
  log_error_returns line (ok _) h = (h, refl, refl)
  log_error_returns line (err e) h = (_, refl, refl)

  -- Whatever signal comes first, and also if there is no sub-service, `run` then stops every service
  -- once, in the order of the list and past any error, logs each error, and asks not to be run again.
  pub run-StopsEach :
      {F : Fuel} (task : Task F T W) (watcher : R.Watcher) (h : Logged W)
      → (result : Result W.Error W.LifeState) × (heard : Logged W) × (select_all R
            (stop_signals R task.services watcher)
            h
          ≡ (returned result, heard))
        × (end : W.World) × (errors : List W.Error) × StopsEach task.services heard.world end errors
        × (run R task watcher h ≡ (
          returned (ok false),
          record {
            world = end;
            log = (log_error R listen_error result heard).1.log ++ map stop_error errors;
          },
        ))
  unfolding run
  run-StopsEach task watcher h =
      let (result, heard, first) = select_all_returns task.services watcher h in
      let (noted, still, told) = log_error_returns listen_error result heard in
      let (end, errors, each, same) = stop_all-StopsEach task.services noted in
      (result, heard, first, end, errors, rw still at each, rw (first, told, same))
