-- ===== src/Lib.antt =====
-- Fuelmint runs the FuelVM as an ABCI application, so that a Rollkit node can order the
-- transactions of a rollup on Celestia (readme.md). This library models the Rust program under
-- fuelmint/src, the Go program under rollkit-node, the example application under
-- examples/counter, and the installer.
--
-- The parts, with the files that model them:
--
-- - App (fuelmint/src/types.rs): the ABCI application. App/Messages is the struct with the
--   requests and responses, App/Handlers the functions new, info, deliver_tx, end_block and
--   commit, App/Call the match of call, App/Relayer the empty relayer.
-- - State (fuelmint/src/state.rs): the application state and the records beside it.
-- - GraphApi (fuelmint/src/graph_api.rs): GraphApi/Router is new_service with the routes and
--   their handlers, GraphApi/Server the start and run of the server with the loop that waits for
--   the shutdown.
-- - Client (fuelmint/src/client): Client/Tx is dry_run and submit, Client/Merged the types that
--   the schema merges, Client/Schema is build_schema.
-- - SubServices (fuelmint/src/sub_services.rs): SubServices/Init is init_sub_services, step by
--   step in small definitions, over the records of SubServices/Parts.
-- - Service (fuelmint/src/service.rs): Service/Task is the task that starts and stops the
--   sub-services, Service/Node is FuelmintService.
-- - Bin and Config (fuelmint/src/bin/fuelmint.rs): Bin/Cli is the struct Command, Bin/Arguments
--   the attributes of its fields, Bin/Configure is get_config, load_consensus_key and the choice
--   of main, Bin/Boot is exec up to its spawns, the task of the services and the arms of the
--   select, Bin/Layers the split of the application and the ABCI server built of it, Bin/Tasks
--   the two spawned tasks as they take turns, Bin/Ending the end of exec when the services end
--   first, Bin/Process the types Opt and Fuelmint, exec as a whole and main.
-- - Rollkit (rollkit-node): Rollkit/Relay is app.go, the relay with its constructor and methods.
--   The rest is main.go: Rollkit/Settings the flags and the configuration that is made of them,
--   Rollkit/NewRollup the function newRollup, Rollkit/Main the function main. Rollkit/Session and
--   Rollkit/Journey put the two programs together.
-- - Counter (examples/counter): the example application. Counter/Contract is the storage of the
--   contract with its two methods (contract/src/main.sw), Counter/Page the component App of the
--   page, which calls the contract and shows what it answers (frontend/src/App.tsx).
-- - Install (install.sh): the installer. Install/Shell is what it takes of the shell, with the
--   rules of set -e, Install/Script the script.
--
-- How they interact: main chooses a command and exec runs it. exec reads the configuration, opens
-- the database and creates the service, which builds the sub-services: the GraphQL server, the
-- transaction pool and the block producer. The application is made from the producer and the pool
-- that come out, and the ABCI server calls it for each request of the node. A client submits a
-- transaction to the GraphQL server, which posts it to the node; it comes back as DeliverTx. The
-- node is the Go program: its consensus calls the relay, which hands most calls on to the ABCI
-- server by a client of tendermint.
--
-- How the code is read. Common/Exec is code that mutates a state and may panic: the outcome and
-- the state come back together, since what was written before a panic stays written; every
-- unwrap, every panic of the Go program, and its exit inside a call, has a name in the type
-- Panic. Common/Try is the same with the question mark operator of Rust. A mutex of tokio is a
-- value and a flag (Common/Locks): a lock waits while a guard lives, and as call takes the
-- application exclusively and runs a handler to its end, a wait for a held lock never ends. An
-- i64 is an integer, with its range as a hypothesis where a theorem needs it, and the cast to u64
-- is two's complement. A text is the list of its code points. Responses that the code builds by
-- Default stand as one constructor, and payloads that it never reads are a type parameter.
--
-- What is not in the repository enters as a parameter: Fuel (fuel-core, fuel-tx, tendermint, with
-- all that they keep behind their handles as one world), Web (axum, hyper, async-graphql,
-- sockets), Gql (hex, reqwest and the block producer of the mutations), Parts (the constructors
-- of fuel-core), Runtime and Runners (fuel-core-services, tokio signals, select_all), Cli and
-- Host (parsers, keys, the database), Tower (tower and tower-abci), the function select (spawning
-- the two tasks and waiting for the first to end), Abci (the client of tendermint), Library
-- (rollmint, tendermint, viper, the standard library of Go) the function to_number (the number of
-- a BN of the fuels library) and Shell (the commands of the shell). Hypotheses on them are what
-- their documentation says: TakesNonneg (heights are the i64s that are not negative),
-- AddsNewRoutes (axum takes a path that it does not have yet), Dispatches (a route gives a path
-- that has none its handlers, and the other paths and a layer change nothing of that), PrintsHex
-- (a hexadecimal text prints as 0x and digits that decode to its bytes), Joins (joining a tokio
-- task is an error exactly if it has panicked), Encodes (a transaction is read back as it was
-- written), Carries (where a client answers a call, its request has been handled at the other
-- end, once and with that answer), Hears (where the server takes a request in and the application
-- answers, the client answers the call; the server may refuse BeginBlock at height 1 or shed a
-- request), Finishes (the builder of the ABCI server finishes once it has its four services), and
-- that a runner shares what its task shares. App/Fixture, GraphApi/Fixture, SubServices/Fixture,
-- Service/Fixture, Rollkit/Fixture, Client/Tests, Bin/Tests and Bin/ProcessTests give values at
-- which they hold.
--
-- There is no fuel. The only loop without a bound in the code, the wait for the shutdown of the
-- GraphQL server, runs over the list of the changes that its watcher sees, and waits at the end
-- of the list.
--
-- Not modelled: what the parser does that clap derives, log lines other than the warnings of
-- get_config and the errors of the service task, what the layers of the ABCI server do with a
-- request, the signal handler of systems other than unix, the code behind the features relayer
-- and p2p, the parsing of Go's flags, and of the example application the generated bindings, the
-- wallet and the markup of the page. The scripts of local-da configure and start the programs of
-- Celestia.
pub mod Common
pub mod State
pub mod Fuel
pub mod Config
pub mod App
pub mod GraphApi
pub mod Client
pub mod SubServices
pub mod Service
pub mod Bin
pub mod Rollkit
pub mod Counter
pub mod Install
