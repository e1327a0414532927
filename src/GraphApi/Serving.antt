-- ===== src/GraphApi/Serving.antt =====
-- The GraphQL server from its start to its end, and the events of a subscription.
use fuelmint.Common.{
  List, [], ◌∷◌, ◌++◌, Bool, false, Result, ok, err, ◌≡◌, refl, inl, inr, Result-cases,
}
use fuelmint.Common.Exec.{Outcome, returned, panicked, from_tcp, json_panics}
use fuelmint.Common.Try.{◌>>=◌}
use fuelmint.GraphApi.Web.{Web}
use fuelmint.GraphApi.Router.{NotInitializedTask, events, handle_subscription}
use fuelmint.GraphApi.Server.{until_stopped, into_task, run}

module _ {W : Web} where
  -- What the server may come to once it is run.
  pub data Runs (task : NotInitializedTask W) (w : W.World)
      (r : Outcome (Result W.Error Bool) × W.World) : Type 0 where
    not_served :
        (e : W.Error)
        → W.from_tcp task.listener ≡ err e
        → r ≡ (panicked from_tcp, w)
        → Runs task w r
    broken :
        (builder : W.ServerBuilder) (e : W.Error) (w' : W.World)
        → W.from_tcp task.listener ≡ ok builder
        → W.await_server (W.serve builder task.router (until_stopped W.started)) w ≡ (err e, w')
        → r ≡ (returned (err e), w')
        → Runs task w r
    ended :
        (builder : W.ServerBuilder) (w' : W.World)
        → W.from_tcp task.listener ≡ ok builder
        → W.await_server (W.serve builder task.router (until_stopped W.started)) w ≡ (ok tt, w')
        → r ≡ (returned (ok false), w')
        → Runs task w r

  -- The server started and then run panics if its listener cannot be taken, returns the error of the
  -- server that serves the task's router with the shutdown loop, or, when that server ends, asks not
  -- to be run again.
  run-Runs : (task : NotInitializedTask W) (w : W.World) → Runs task w ((into_task task >>= run) w)
  unfolding into_task run
  run-Runs task w = elim (Result-cases (W.from_tcp task.listener)) [
    | inr (e, bad) ↦ not_served e bad (rw bad)
    | inl (builder, good) ↦
        let server = W.serve builder task.router (until_stopped W.started) in
        let (r, w') = W.await_server server w in
        elim (Result-cases r) [
          | inr (e, bad) ↦ broken builder e w' good (λ i. (bad i, w')) (rw (good, bad))
          | inl (_, fine) ↦ ended builder w' good (λ i. (fine i, w')) (rw (good, fine))
        ]
  ]

module _ (W : Web) where
  -- The events are the responses as JSON, one for each and in their order.
  pub data EachEvent : List W.Response → List W.Event → Type 0 where
    none_left : EachEvent [] []
    event :
        (r : W.Response) (rs : List W.Response) (e : W.Event) (es : List W.Event)
        → W.json_data r ≡ ok e
        → EachEvent rs es
        → EachEvent (r ∷ rs) (e ∷ es)

  -- What a subscription may come to on the responses that its stream has given.
  pub data Streams (responses : List W.Response) (o : Outcome (List W.Event)) : Type 0 where
    streamed : (es : List W.Event) → EachEvent responses es → o ≡ returned es → Streams responses o
    no_json :
        (before after : List W.Response) (r : W.Response) (es : List W.Event) (e : W.Error)
        → responses ≡ before ++ r ∷ after
        → EachEvent before es
        → W.json_data r ≡ err e
        → o ≡ panicked json_panics
        → Streams responses o

  events-Streams :
      (responses : List W.Response) (w : W.World)
      → (o : Outcome (List W.Event)) × Streams responses o × (events W responses w ≡ (o, w))
  events-Streams [] w = (returned [], streamed [] none_left refl, refl)
  events-Streams (r ∷ rs) w = elim (Result-cases (W.json_data r)) [
    | inr (e, bad) ↦ (panicked json_panics, no_json [] rs r [] e refl none_left bad refl, rw bad)
    | inl (e, good) ↦ let (o, each, same) = events-Streams rs w in cons e good o each same
  ]
    where
      cons :
          (e : W.Event)
          → W.json_data r ≡ ok e
          → (o : Outcome (List W.Event)) → Streams rs o
          → events W rs w ≡ (o, w)
          → (o' : Outcome (List W.Event)) × Streams (r ∷ rs) o' × (events W (r ∷ rs) w ≡ (o', w))
      cons e good o (streamed es each d) same = (
        returned (e ∷ es),
        streamed (e ∷ es) (event r rs e es good each) refl,
        rw (good, same, d),
      )
      cons e good o (no_json before after x es f split each bad d) same = (
        panicked json_panics,
        no_json (r ∷ before) after x (e ∷ es) f (λ i. r ∷ split i) (event r before e es good each)
            bad refl,
        rw (good, same, d),
      )

  -- A subscription gives an event for each response of its stream, in their order, or panics at the
  -- first response without JSON; the stream alone changes the world.
  pub handle_subscription-Streams :
      (schema : W.Schema) (request : W.Request) (w : W.World)
      → let (responses, w') = W.execute_stream schema request w in
        (o : Outcome (List W.Event)) × Streams responses o
        × (handle_subscription W schema request w ≡ (o, w'))
  unfolding handle_subscription
  handle_subscription-Streams schema request w =
      let (responses, w') = W.execute_stream schema request w in events-Streams responses w'
