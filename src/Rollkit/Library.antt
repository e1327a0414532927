-- ===== src/Rollkit/Library.antt =====
-- What rollkit-node/main.go calls of rollmint, tendermint, viper and Go's standard library.
use fuelmint.Common.{ℕ, List, Option, Result}
use fuelmint.Rollkit.Abci.{Abci}
use fuelmint.Rollkit.Relay.{AbciRelayer}
use fuelmint.Rollkit.Settings.{NodeConfig}

pub record Library (A : Abci) : Type 1 where
  pub TmConfig : Type 0  -- `cfg.Config`
  pub Rest : Type 0  -- the fields of `rollconf.NodeConfig` that `newRollup` leaves
  pub Logger : Type 0
  pub Validator : Type 0  -- `privval.FilePV`
  pub NodeKey : Type 0
  pub PrivKey : Type 0  -- a key in rollkit format
  pub Genesis : Type 0
  pub AppClient : Type 0
  pub Node : Type 0
  pub Server : Type 0
  -- `fmt.Errorf` with `%w` at its end
  pub errorf : List ℕ → A.Error → A.Error
  -- `filepath.Dir`, `cfg.DefaultConfig`, and the assignment to the field `RootDir`
  pub dir : List ℕ → List ℕ
  pub default_config : TmConfig
  pub set_root_dir : List ℕ → TmConfig → TmConfig
  -- `viper.SetConfigFile` and `ReadInConfig`, `viper.Unmarshal` into the configuration, and
  -- `ValidateBasic`
  pub read_in_config : List ℕ → A.World → Result A.Error (Unit {0}) × A.World
  pub unmarshal : TmConfig → A.World → Result A.Error TmConfig × A.World
  pub validate_basic : TmConfig → Result A.Error (Unit {0})
  -- `hex.DecodeString`
  pub decode_string : List ℕ → Result A.Error (List ℕ)
  -- the zero values of a `rollconf.NodeConfig`
  pub zero_rest : Rest
  pub zero_namespace : List ℕ
  -- `rollconv.GetNodeConfig` and `TranslateAddresses`, which write into the configuration
  pub get_node_config : TmConfig → NodeConfig Rest → NodeConfig Rest
  pub translate_addresses : NodeConfig Rest → Result A.Error (NodeConfig Rest)
  -- `tmflags.ParseLogLevel` on the new logger
  pub parse_log_level : TmConfig → Result A.Error Logger
  -- `privval.LoadFilePV`, which exits the process (`none`) where it cannot read its two files
  pub load_file_pv : TmConfig → A.World → Option Validator × A.World
  -- `p2p.LoadNodeKey`, `rollconv.GetNodeKey`, and the key of a validator
  pub load_node_key : TmConfig → A.World → Result A.Error NodeKey × A.World
  pub get_node_key : NodeKey → Result A.Error PrivKey
  pub validator_key : Validator → NodeKey
  pub genesis_doc_from_file : TmConfig → A.World → Result A.Error Genesis × A.World
  -- `proxy.NewLocalClientCreator(app).NewABCIClient()`
  pub new_abci_client : AbciRelayer A → A.World → Result A.Error AppClient × A.World
  -- `rollnode.NewNode` and `rollrpc.NewServer`
  pub new_node :
      NodeConfig Rest
      → PrivKey
      → PrivKey
      → AppClient
      → Genesis
      → Logger
      → A.World
      → Result A.Error Node × A.World
  pub new_server : Node → TmConfig → Logger → A.World → Server × A.World
  -- `server.Start`, `node.Start`, `node.Stop` and `node.Wait`
  pub start_server : Server → A.World → Option A.Error × A.World
  pub start_node : Node → A.World → Option A.Error × A.World
  pub stop_node : Node → A.World → Option A.Error × A.World
  pub wait_node : Node → A.World → A.World
  -- `flag.Usage`, `fmt.Fprintf(os.Stderr, …)`, and `signal.Notify` with the receive from its channel
  pub usage : A.World → A.World
  pub print_error : A.Error → A.World → A.World
  pub await_signal : A.World → A.World
