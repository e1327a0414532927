-- ===== src/Rollkit/NewRollup.antt =====
-- rollkit-node/main.go: `newRollup`. An error that is not `nil` returns at once.
use fuelmint.Common.{ℕ, List, Option, Result, map_err, text}
use fuelmint.Common.Exec.{Exec, Panic, returned, load_file_pv}
use fuelmint.Common.Try.{Try, pure, lift, call, total, or_panic, ◌>>=◌}
use fuelmint.Rollkit.Abci.{Abci}
use fuelmint.Rollkit.Relay.{AbciRelayer}
use fuelmint.Rollkit.Settings.{Flags, NodeConfig, node_config}
use fuelmint.Rollkit.Library.{Library}

module _ {A : Abci} (L : Library A) where
  -- a call whose error returns as `fmt.Errorf(message + "%w", err)`
  abbrev pub call_or {ℓ} :
      {B : Type ℓ} → List ℕ → (A.World → Result A.Error B × A.World) → Try A.World A.Error B
  call_or message f w = let (r, w') = f w in (returned (map_err (L.errorf message) r), w')

  abbrev pub lift_or {ℓ} : {B : Type ℓ} → List ℕ → Result A.Error B → Try A.World A.Error B
  lift_or message r = lift (map_err (L.errorf message) r)

  -- a call that cannot fail
  abbrev pub plain {ℓ} : {B : Type ℓ} → (A.World → B × A.World) → Exec A.World B
  plain f w = let (b, w') = f w in (returned b, w')

  -- a call that exits the process where its value is `none`: nothing of the program runs after it
  abbrev pub or_exit {ℓ} :
      {B : Type ℓ} → Panic → (A.World → Option B × A.World) → Try A.World A.Error B
  or_exit p f w = let (found, w') = f w in or_panic p found w'

  -- `// read config`
  unfoldable pub read_config : List ℕ → Try A.World A.Error L.TmConfig
  read_config config_file = do
    let config = L.set_root_dir (L.dir (L.dir config_file)) L.default_config
    _ ← call_or (text "viper failed to read config file: ") (L.read_in_config config_file)
    config' ← call_or (text "viper failed to unmarshal config: ") (L.unmarshal config)
    _ ← lift_or (text "config is invalid: ") (L.validate_basic config')
    pure config'

  -- `// translate tendermint config to rollkit config`
  unfoldable pub translate : Flags → L.TmConfig → Try A.World A.Error (NodeConfig L.Rest)
  translate flags config = do
    bytes ← lift (L.decode_string flags.namespace_id)
    let literal = node_config L.zero_rest L.zero_namespace flags bytes
    lift (L.translate_addresses (L.get_node_config config literal))

  -- `// read private validator` up to `// keys in rollkit format`: the key of the node and the
  -- signing key
  unfoldable pub load_keys : L.TmConfig → Try A.World A.Error (L.PrivKey × L.PrivKey)
  load_keys config = do
    pv ← or_exit load_file_pv (L.load_file_pv config)
    node_key ← call_or (text "failed to load node's key: ") (L.load_node_key config)
    p2p_key ← lift (L.get_node_key node_key)
    signing_key ← lift (L.get_node_key (L.validator_key pv))
    pure (p2p_key, signing_key)

  -- `genesisDoc, err := …` up to the end: the node and its server
  unfoldable pub build_node :
      AbciRelayer A
      → L.TmConfig
      → NodeConfig L.Rest
      → L.Logger
      → L.PrivKey
      → L.PrivKey
      → Try A.World A.Error (L.Node × L.Server)
  build_node app config node_config logger p2p_key signing_key = do
    genesis_doc ← call (L.genesis_doc_from_file config)
    client ← call (L.new_abci_client app)
    node ←
        call_or (text "failed to create new rollkit node: ")
          (L.new_node node_config p2p_key signing_key client genesis_doc logger)
    server ← total (plain (L.new_server node config logger))
    pure (node, server)

  unfoldable pub new_rollup :
      Flags → AbciRelayer A → List ℕ → Try A.World A.Error (L.Node × L.Server)
  new_rollup flags app config_file = do
    config ← read_config config_file
    node_config ← translate flags config
    logger ← lift_or (text "failed to parse log level: ") (L.parse_log_level config)
    (p2p_key, signing_key) ← load_keys config
    build_node app config node_config logger p2p_key signing_key
