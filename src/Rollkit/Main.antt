-- ===== src/Rollkit/Main.antt =====
-- rollkit-node/main.go: `main`.
use fuelmint.Common.{ℕ, none, some, Result, ok, err, if◌then◌else◌}
use fuelmint.Common.Exec.{Exec, returned, pure, ◌>>=◌, ◌>>◌}
use fuelmint.Rollkit.Abci.{Abci}
use fuelmint.Rollkit.Relay.{new_relayer}
use fuelmint.Rollkit.Settings.{Flags}
use fuelmint.Rollkit.Library.{Library}
use fuelmint.Rollkit.NewRollup.{plain, new_rollup}

-- How the process leaves `main`: by its end, after the deferred calls, or by `os.Exit`, which runs no
-- deferred call.
pub data Leaving : Type 0 where
  end_of_main : Leaving
  os_exit : ℕ → Leaving

module _ {A : Abci} (L : Library A) where
  abbrev pub act : (A.World → A.World) → Exec A.World (Unit {0})
  act f w = (returned tt, f w)

  -- the deferred function, which `main` registers once the node has started
  abbrev pub stop_and_wait : L.Node → Exec A.World (Unit {0})
  stop_and_wait node = do _ ← plain L (L.stop_node node); act (L.wait_node node)

  abbrev pub run_deferred : L.Node → Leaving → Exec A.World Leaving
  run_deferred node end_of_main = stop_and_wait node >> pure end_of_main
  run_deferred node (os_exit status) = pure (os_exit status)

  -- `main` from the start of the server on
  abbrev pub run_node : L.Node → L.Server → Exec A.World Leaving
  run_node node server = do
    started ← plain L (L.start_server server)
    elim started [
      | some e ↦ (act (L.print_error e) >> pure (os_exit 2))
      | none ↦ do _ ← plain L (L.start_node node); act L.await_signal; run_deferred node (os_exit 0)
    ]

  -- `main` after `newRollup`
  abbrev pub after_rollup : Result A.Error (L.Node × L.Server) → Exec A.World Leaving
  after_rollup (err e) = act (L.print_error e) >> pure (os_exit 1)
  after_rollup (ok (node, server)) = run_node node server

  -- the `else` of `main`
  unfoldable pub run_rollup : Flags → Exec A.World Leaving
  run_rollup flags = do
    app ← new_relayer A flags.address
    built ← new_rollup L flags app flags.config_file
    after_rollup built

  abbrev pub print_usage : Exec A.World Leaving
  print_usage = act L.usage >> pure end_of_main

  unfoldable pub main : Flags → Exec A.World Leaving
  main flags = if flags.help then print_usage else run_rollup flags
