-- ===== src/Rollkit/NodeTests.antt =====
-- The rollup node over libraries in which a namespace decodes if it has sixteen digits, and in which
-- the server starts and the node does not.
use fuelmint.Common.{
  ℕ, List, [], ◌∷◌, none, some, Result, ok, err, ◌≡◌, refl, arith, text, length, ◌==◌,
  if◌then◌else◌,
}
use fuelmint.Common.Ends.{Ends}
use fuelmint.Common.Exec.{returned, panicked, load_file_pv}
use fuelmint.Common.Int.{negsuc}
use fuelmint.App.Fixture.{start}
use fuelmint.Rollkit.Relay.{AbciRelayer, new_relayer}
use fuelmint.Rollkit.Settings.{default_flags, node_config, seconds}
use fuelmint.Rollkit.Configured.{IsConfigured, node_config-IsConfigured}
use fuelmint.Rollkit.Library.{Library}
use fuelmint.Rollkit.NewRollup.{read_config, translate, load_keys, build_node, new_rollup}
use fuelmint.Rollkit.Rollup.{IsRollup, IsAbandoned, HasFailed, new_rollup-IsRollup}
use fuelmint.Rollkit.Main.{main, run_rollup, os_exit}
use fuelmint.Rollkit.Exits.{Leaves, main-Leaves}
use fuelmint.Rollkit.Fixture.{abci}

abbrev eight : List ℕ
eight = 0 ∷ 0 ∷ 0 ∷ 0 ∷ 0 ∷ 0 ∷ 0 ∷ 0 ∷ []

-- A text of sixteen digits stands for the eight bytes 1.
abbrev decode : List ℕ → Result ℕ (List ℕ)
decode digits = if length digits == 16 then ok (1 ∷ 1 ∷ 1 ∷ 1 ∷ 1 ∷ 1 ∷ 1 ∷ 1 ∷ []) else err 3

abbrev library : Library abci
library = record {
  TmConfig = List ℕ;
  Rest = Unit;
  Logger = Unit;
  Validator = ℕ;
  NodeKey = ℕ;
  PrivKey = ℕ;
  Genesis = Unit;
  AppClient = Unit;
  Node = List ℕ;
  Server = Unit;
  errorf = λ _ e. e;
  dir = λ file. file;
  default_config = [];
  set_root_dir = λ dir _. dir;
  read_in_config = λ _ w. (ok tt, w);
  unmarshal = λ config w. (ok config, w);
  validate_basic = λ _. ok tt;
  decode_string = decode;
  zero_rest = tt;
  zero_namespace = eight;
  get_node_config = λ _ settings. settings;
  translate_addresses = λ settings. ok settings;
  parse_log_level = λ _. ok tt;
  load_file_pv = λ _ w. (some 1, w);
  load_node_key = λ _ w. (ok 2, w);
  get_node_key = λ key. ok key;
  validator_key = λ validator. validator;
  genesis_doc_from_file = λ _ w. (ok tt, w);
  new_abci_client = λ _ w. (ok tt, w);
  new_node = λ settings _ _ _ _ _ w. (ok settings.namespace_id, w);
  new_server = λ _ _ _ w. (tt, w);
  start_server = λ _ w. (none, w);
  start_node = λ _ w. (some 5, w);
  stop_node = λ _ w. (none, w);
  wait_node = λ _ w. w;
  usage = λ w. w;
  print_error = λ _ w. w;
  await_signal = λ w. w;
}

node_config-IsConfigured_example :
    IsConfigured eight default_flags (7 ∷ []) (node_config tt eight default_flags (7 ∷ []))
node_config-IsConfigured_example =
    node_config-IsConfigured tt eight default_flags (7 ∷ []) (omega arith)

-- A block time of 9223372037 seconds is a negative duration.
seconds_wrap : seconds 9223372037 ≡ negsuc 9223372036709551615
unfolding seconds
seconds_wrap = refl

abbrev relayer : AbciRelayer abci
relayer = record { client = tt }

new_rollup-IsRollup_example :
    Ends
      (IsAbandoned library default_flags (text "config.toml") start)
      (HasFailed library default_flags relayer (text "config.toml") start)
      (IsRollup library default_flags relayer (text "config.toml") start)
      (new_rollup library default_flags relayer (text "config.toml") start)
new_rollup-IsRollup_example =
    new_rollup-IsRollup library default_flags relayer (text "config.toml") start

main-Leaves_example : Leaves library default_flags start (main library default_flags start)
main-Leaves_example = main-Leaves library default_flags start

-- The process ends with status 0, though the node has not started.
main_ends : main library default_flags start ≡ (returned (os_exit 0), start)
unfolding main run_rollup new_relayer new_rollup read_config translate load_keys build_node
main_ends = refl

-- Without the validator's files the process ends inside `newRollup`.
main_abandons :
    main (record library { load_file_pv = λ _ w. (none, w) }) default_flags start
    ≡ (panicked load_file_pv, start)
unfolding main run_rollup new_relayer new_rollup read_config translate load_keys build_node
main_abandons = refl

-- A namespace that does not decode is status 1.
main_fails :
    main library (record default_flags { namespace_id = text "0" }) start
    ≡ (returned (os_exit 1), start)
unfolding main run_rollup new_relayer new_rollup read_config translate load_keys build_node
main_fails = refl
