-- ===== src/Rollkit/Exits.antt =====
-- How the process of the rollup node leaves `main`.
use mathlib.Core.Path.{subst}
use fuelmint.Common.{
  Bool, true, sym, ap, if◌then◌else◌, some, none, err, ◌≡◌, inl, inr, Bool-cases, Option-cases,
}
use fuelmint.Common.Ends.{by_error, by_value, by_stop}
use fuelmint.Common.Exec.{Outcome, Panic, returned, panicked, client_start}
use fuelmint.Rollkit.Abci.{Abci}
use fuelmint.Rollkit.Relay.{AbciRelayer, new_relayer}
use fuelmint.Rollkit.Answers.{connected, refused, new_relayer-Connects}
use fuelmint.Rollkit.Settings.{Flags}
use fuelmint.Rollkit.Library.{Library}
use fuelmint.Rollkit.NewRollup.{new_rollup}
use fuelmint.Rollkit.Rollup.{IsRollup, IsAbandoned, HasFailed, new_rollup-IsRollup}
use fuelmint.Rollkit.Main.{Leaving, end_of_main, os_exit, main, print_usage, run_rollup}

module _ {A : Abci} (L : Library A) where
  pub data Leaves (flags : Flags) (w : A.World) (r : Outcome Leaving × A.World) : Type 0 where
    helped : flags.help ≡ true → r ≡ (returned end_of_main, L.usage w) → Leaves flags w r
    unconnected :
        (client : A.Client) (e : A.Error) (w' w'' : A.World)
        → A.new_socket_client flags.address true w ≡ (client, w')
        → A.start client w' ≡ (some e, w'')
        → r ≡ (panicked client_start, w'')
        → Leaves flags w r
    not_built :
        (app : AbciRelayer A) (e : A.Error) (w' w'' : A.World)
        → new_relayer A flags.address w ≡ (returned app, w')
        → new_rollup L flags app flags.config_file w' ≡ (returned (err e), w'')
        → HasFailed L flags app flags.config_file w' e w''
        → r ≡ (returned (os_exit 1), L.print_error e w'')
        → Leaves flags w r
    abandoned :
        (app : AbciRelayer A) (p : Panic) (w' w'' : A.World)
        → new_relayer A flags.address w ≡ (returned app, w')
        → IsAbandoned L flags flags.config_file w' p w''
        → r ≡ (panicked p, w'')
        → Leaves flags w r
    not_served :
        (app : AbciRelayer A) (node : L.Node) (server : L.Server) (e : A.Error)
        (w' built served : A.World)
        → new_relayer A flags.address w ≡ (returned app, w')
        → IsRollup L flags app flags.config_file w' (node, server) built
        → L.start_server server built ≡ (some e, served)
        → r ≡ (returned (os_exit 2), L.print_error e served)
        → Leaves flags w r
    signalled :
        (app : AbciRelayer A) (node : L.Node) (server : L.Server) (w' built served : A.World)
        → new_relayer A flags.address w ≡ (returned app, w')
        → IsRollup L flags app flags.config_file w' (node, server) built
        → L.start_server server built ≡ (none, served)
        → r ≡ (returned (os_exit 0), L.await_signal (L.start_node node served).1)
        → Leaves flags w r

  run_rollup-Leaves : (flags : Flags) (w : A.World) → Leaves flags w (run_rollup L flags w)
  unfolding run_rollup
  run_rollup-Leaves flags w = elim (new_relayer-Connects A flags.address w) [
    | refused client e w₁ w₂ made bad d ↦ unconnected client e w₁ w₂ made bad (rw d)
    | connected client w₁ w₂ made good d ↦
        let app : AbciRelayer A = record { client = client } in
        elim (new_rollup-IsRollup L flags app flags.config_file w₂) [
          | by_error e w₃ fails failed ↦ not_built app e w₂ w₃ d failed fails (rw (d, failed))
          | by_stop p w₃ exited stopped ↦ abandoned app p w₂ w₃ d exited (rw (d, stopped))
          | by_value (node, server) w₃ is_rollup built ↦
              let (started, w₄) = L.start_server server w₃ in
              elim (Option-cases started) [
                | inr (e, bad) ↦
                    not_served app node server e w₂ w₃ w₄ d is_rollup (λ i. (bad i, w₄))
                      (rw (d, built, bad))
                | inl quiet ↦
                    signalled app node server w₂ w₃ w₄ d is_rollup (λ i. (quiet i, w₄))
                      (rw (d, built, quiet))
              ]
        ]
  ]

  -- `main` prints its usage if it is asked for help; else it panics if the relay does not connect,
  -- exits inside `newRollup` where the validator's files cannot be read, leaves with status 1 at an
  -- error of `newRollup`, with status 2 at an error of the server's start, and else with status 0
  -- straight after the signal, whether or not the node has started: the world is the one that the
  -- signal found, in which the node was not stopped.
  pub main-Leaves : (flags : Flags) (w : A.World) → Leaves flags w (main L flags w)
  unfolding main
  main-Leaves flags w = elim (Bool-cases flags.help) [
    | inl asked ↦ helped asked (by_help asked)
    | inr run ↦ subst (Leaves flags w) (sym (by_help run)) (run_rollup-Leaves flags w)
  ]
    where
      by_help :
          {b : Bool}
          → flags.help ≡ b
          → main L flags w ≡ (if b then print_usage L else run_rollup L flags) w
      by_help = ap (λ b. (if b then print_usage L else run_rollup L flags) w)
