-- ===== src/GraphApi/Server.antt =====
-- fuelmint/src/graph_api.rs: the start and the run of the GraphQL server.
use fuelmint.Common.{List, [], ◌∷◌, Option, none, some, Bool, false, if◌then◌else◌}
use fuelmint.Common.Exec.{Outcome, returned, panicked, blocked, unwrap, from_tcp, service_destroyed}
use fuelmint.Common.Try.{Try, pure, call, total, ◌>>=◌}
use fuelmint.GraphApi.Web.{Web}
use fuelmint.GraphApi.Router.{NotInitializedTask}

-- `loop { state.changed().await.expect(…); if !state.borrow().started() { return; } }`, on the
-- changes of the state that the watcher sees, in their order: `none` is the error of `changed` that
-- the sender is gone. With no change left the loop waits.
unfoldable pub until_stopped {ℓ} : {S : Type ℓ} → (S → Bool) → List (Option S) → Outcome (Unit {0})
until_stopped started [] = blocked
until_stopped started (none ∷ _) = panicked service_destroyed
until_stopped started (some state ∷ rest) =
    if started state then until_stopped started rest else returned tt

pub record Task (W : Web) : Type 0 where
  pub server : W.Server

module _ {W : Web} where
  -- `NotInitializedTask::into_task`
  unfoldable pub into_task : NotInitializedTask W → Try W.World W.Error (Task W)
  into_task task = do
    builder ← total (unwrap from_tcp (W.from_tcp task.listener))
    pure (record { server = W.serve builder task.router (until_stopped W.started) })

  -- `Task::run`; the value is `should_continue`
  unfoldable pub run : Task W → Try W.World W.Error Bool
  run task = do stopped ← call (W.await_server task.server); pure false
