-- ===== src/Rollkit/Building.antt =====
-- How `newRollup` builds the node and its server.
use fuelmint.Common.{
  ℕ, List, text, ok, err, some, none, ◌≡◌, ◌⊎◌, refl, inl, inr, Result-cases, Option-cases,
}
use fuelmint.Common.Exec.{Panic, load_file_pv}
use fuelmint.Common.Ends.{Ends, Never, by_error, by_value, by_stop}
use fuelmint.Rollkit.Abci.{Abci}
use fuelmint.Rollkit.Relay.{AbciRelayer}
use fuelmint.Rollkit.Settings.{Flags, NodeConfig, node_config}
use fuelmint.Rollkit.Library.{Library}
use fuelmint.Rollkit.NewRollup.{read_config, translate, load_keys, build_node}

module _ {A : Abci} (L : Library A) where
  -- The file has been read, and unmarshalled into the default configuration at the directory above that
  -- of the file, which is valid after that.
  pub record IsRead (config_file : List ℕ) (w : A.World) (config : L.TmConfig) (end : A.World)
      : Type 0 where
    pub read : A.World
    pub reads : L.read_in_config config_file w ≡ (ok tt, read)
    pub unmarshals :
        L.unmarshal (L.set_root_dir (L.dir (L.dir config_file)) L.default_config) read
        ≡ (ok config, end)
    pub is_valid : L.validate_basic config ≡ ok tt

  -- The errors of that, each with its message.
  pub data Unread (config_file : List ℕ) (w : A.World) (e : A.Error) (end : A.World) : Type 0 where
    no_file :
        (x : A.Error)
        → L.read_in_config config_file w ≡ (err x, end)
        → e ≡ L.errorf (text "viper failed to read config file: ") x
        → Unread config_file w e end
    no_config :
        (x : A.Error) (read : A.World)
        → L.read_in_config config_file w ≡ (ok tt, read)
        → L.unmarshal (L.set_root_dir (L.dir (L.dir config_file)) L.default_config) read
          ≡ (err x, end)
        → e ≡ L.errorf (text "viper failed to unmarshal config: ") x
        → Unread config_file w e end
    invalid :
        (x : A.Error) (read : A.World) (config : L.TmConfig)
        → L.read_in_config config_file w ≡ (ok tt, read)
        → L.unmarshal (L.set_root_dir (L.dir (L.dir config_file)) L.default_config) read
          ≡ (ok config, end)
        → L.validate_basic config ≡ err x
        → e ≡ L.errorf (text "config is invalid: ") x
        → Unread config_file w e end

  pub read_config-IsRead :
      (config_file : List ℕ) (w : A.World)
      → Ends Never (Unread config_file w) (IsRead config_file w) (read_config L config_file w)
  unfolding read_config
  read_config-IsRead config_file w =
      let (found, w₁) = L.read_in_config config_file w in
      elim (Result-cases found) [
        | inr (e, bad) ↦
            by_error (L.errorf (text "viper failed to read config file: ") e) w₁
              (no_file e (λ i. (bad i, w₁)) refl) (rw bad)
        | inl (_, good) ↦
            let root = L.set_root_dir (L.dir (L.dir config_file)) L.default_config in
            let (filled, w₂) = L.unmarshal root w₁ in
            elim (Result-cases filled) [
              | inr (e, bad) ↦
                  by_error (L.errorf (text "viper failed to unmarshal config: ") e) w₂
                    (no_config e w₁ (λ i. (good i, w₁)) (λ i. (bad i, w₂)) refl) (rw (good, bad))
              | inl (config, fine) ↦ elim (Result-cases (L.validate_basic config)) [
                | inr (e, bad) ↦
                    by_error (L.errorf (text "config is invalid: ") e) w₂
                      (invalid e w₁ config (λ i. (good i, w₁)) (λ i. (fine i, w₂)) bad refl)
                      (rw (good, fine, bad))
                | inl (_, valid) ↦
                    by_value config w₂
                      (record {
                        read = w₁;
                        reads = λ i. (good i, w₁);
                        unmarshals = λ i. (fine i, w₂);
                        is_valid = valid;
                      })
                      (rw (good, fine, valid))
              ]
            ]
      ]

  -- The node's configuration is that of the flags, with what rollmint makes of it.
  abbrev pub IsTranslated : Flags → L.TmConfig → NodeConfig L.Rest → A.World → Type 0
  IsTranslated flags config settings _ =
      (bytes : List ℕ) × (L.decode_string flags.namespace_id ≡ ok bytes)
      × (L.translate_addresses
            (L.get_node_config config (node_config L.zero_rest L.zero_namespace flags bytes))
          ≡ ok settings)

  -- The namespace is no hexadecimal text, or rollmint does not take an address.
  pub data Untranslated (flags : Flags) (config : L.TmConfig) (w : A.World) (e : A.Error)
      (end : A.World) : Type 0 where
    no_namespace :
        L.decode_string flags.namespace_id ≡ err e → end ≡ w → Untranslated flags config w e end
    no_address :
        (bytes : List ℕ)
        → L.decode_string flags.namespace_id ≡ ok bytes
        → L.translate_addresses
            (L.get_node_config config (node_config L.zero_rest L.zero_namespace flags bytes))
          ≡ err e
        → end ≡ w
        → Untranslated flags config w e end

  pub translate-IsTranslated :
      (flags : Flags) (config : L.TmConfig) (w : A.World)
      → Ends Never
          (Untranslated flags config w)
          (λ settings end. IsTranslated flags config settings end × (end ≡ w))
          (translate L flags config w)
  unfolding translate
  translate-IsTranslated flags config w = elim (Result-cases (L.decode_string flags.namespace_id)) [
    | inr (e, bad) ↦ by_error e w (no_namespace bad refl) (rw bad)
    | inl (bytes, decoded) ↦
        let literal = node_config L.zero_rest L.zero_namespace flags bytes in
        elim (Result-cases (L.translate_addresses (L.get_node_config config literal))) [
          | inr (e, bad) ↦ by_error e w (no_address bytes decoded bad refl) (rw (decoded, bad))
          | inl (settings, fine) ↦
              by_value settings w ((bytes, decoded, fine), refl) (rw (decoded, fine))
        ]
  ]

  -- The signing key is the validator's, and the other is that of the node's key file.
  abbrev pub AreLoaded : L.TmConfig → A.World → L.PrivKey × L.PrivKey → A.World → Type 0
  AreLoaded config w (p2p_key, signing_key) w' =
      (pv : L.Validator) × (node_key : L.NodeKey) × (found : A.World) × (L.load_file_pv config w
        ≡ (some pv, found))
      × (L.load_node_key config found ≡ (ok node_key, w'))
      × (L.get_node_key node_key ≡ ok p2p_key)
      × (L.get_node_key (L.validator_key pv) ≡ ok signing_key)

  -- The process has exited where the validator's files could not be read.
  abbrev pub HasExited : L.TmConfig → A.World → Panic → A.World → Type 0
  HasExited config w p w' = (p ≡ load_file_pv) × (L.load_file_pv config w ≡ (none, w'))

  -- The files of the validator have been read, and the key of the node could not be, or one of the two
  -- is none of rollkit's.
  pub data Unloaded (config : L.TmConfig) (w : A.World) (e : A.Error) (end : A.World) : Type 0 where
    no_node_key :
        (pv : L.Validator) (found : A.World) (x : A.Error)
        → L.load_file_pv config w ≡ (some pv, found)
        → L.load_node_key config found ≡ (err x, end)
        → e ≡ L.errorf (text "failed to load node's key: ") x
        → Unloaded config w e end
    bad_key :
        (pv : L.Validator) (found : A.World) (node_key : L.NodeKey)
        → L.load_file_pv config w ≡ (some pv, found)
        → L.load_node_key config found ≡ (ok node_key, end)
        → (L.get_node_key node_key ≡ err e)
          ⊎ ((p2p_key : L.PrivKey) × (L.get_node_key node_key ≡ ok p2p_key)
              × (L.get_node_key (L.validator_key pv) ≡ err e))
        → Unloaded config w e end

  pub load_keys-AreLoaded :
      (config : L.TmConfig) (w : A.World)
      → Ends (HasExited config w) (Unloaded config w) (AreLoaded config w) (load_keys L config w)
  unfolding load_keys
  load_keys-AreLoaded config w =
      let (found, w₁) = L.load_file_pv config w in
      let (loaded, w₂) = L.load_node_key config w₁ in
      elim (Option-cases found) [
        | inl missing ↦ by_stop load_file_pv w₁ (refl, (λ i. (missing i, w₁))) (rw missing)
        | inr (pv, there) ↦ elim (Result-cases loaded) [
          | inr (e, bad) ↦
              by_error (L.errorf (text "failed to load node's key: ") e) w₂
                (no_node_key pv w₁ e (λ i. (there i, w₁)) (λ i. (bad i, w₂)) refl) (rw (there, bad))
          | inl (node_key, good) ↦ elim (Result-cases (L.get_node_key node_key)) [
            | inr (e, bad) ↦
                by_error e w₂
                  (bad_key pv w₁ node_key (λ i. (there i, w₁)) (λ i. (good i, w₂)) (inl bad))
                  (rw (there, good, bad))
            | inl (p2p_key, fine) ↦ elim (Result-cases (L.get_node_key (L.validator_key pv))) [
              | inr (e, bad) ↦
                  by_error e w₂
                    (bad_key pv w₁ node_key (λ i. (there i, w₁)) (λ i. (good i, w₂))
                      (inr (p2p_key, fine, bad)))
                    (rw (there, good, fine, bad))
              | inl (signing_key, signs) ↦
                  by_value (p2p_key, signing_key) w₂
                    (pv, node_key, w₁, (λ i. (there i, w₁)), (λ i. (good i, w₂)), fine, signs)
                    (rw (there, good, fine, signs))
            ]
          ]
        ]
      ]

  -- The node was made from these settings, keys and logger, with a client of the relay and the
  -- genesis of the configuration, and the server serves it.
  pub record IsNode (app : AbciRelayer A) (config : L.TmConfig) (settings : NodeConfig L.Rest)
      (logger : L.Logger) (p2p_key signing_key : L.PrivKey) (made : L.Node × L.Server) (w : A.World)
      (end : A.World) : Type 0 where
    pub genesis : L.Genesis
    pub client : L.AppClient
    pub before : A.World
    pub connected : A.World
    pub after : A.World
    pub reads_genesis : L.genesis_doc_from_file config w ≡ (ok genesis, before)
    pub connects : L.new_abci_client app before ≡ (ok client, connected)
    pub makes :
        L.new_node settings p2p_key signing_key client genesis logger connected ≡ (ok made.0, after)
    pub serves : L.new_server made.0 config logger after ≡ (made.1, end)

  -- There is no genesis, no client, or no node; nothing after that has been called.
  pub data Unbuilt (app : AbciRelayer A) (config : L.TmConfig) (settings : NodeConfig L.Rest)
      (logger : L.Logger) (p2p_key signing_key : L.PrivKey) (w : A.World) (e : A.Error)
      (end : A.World) : Type 0 where
    no_genesis :
        L.genesis_doc_from_file config w ≡ (err e, end)
        → Unbuilt app config settings logger p2p_key signing_key w e end
    no_client :
        (genesis : L.Genesis) (before : A.World)
        → L.genesis_doc_from_file config w ≡ (ok genesis, before)
        → L.new_abci_client app before ≡ (err e, end)
        → Unbuilt app config settings logger p2p_key signing_key w e end
    no_node :
        (genesis : L.Genesis) (client : L.AppClient) (before connected : A.World) (x : A.Error)
        → L.genesis_doc_from_file config w ≡ (ok genesis, before)
        → L.new_abci_client app before ≡ (ok client, connected)
        → L.new_node settings p2p_key signing_key client genesis logger connected ≡ (err x, end)
        → e ≡ L.errorf (text "failed to create new rollkit node: ") x
        → Unbuilt app config settings logger p2p_key signing_key w e end

  pub build_node-IsNode :
      (app : AbciRelayer A) (config : L.TmConfig) (settings : NodeConfig L.Rest) (logger : L.Logger)
      (p2p_key signing_key : L.PrivKey) (w : A.World)
      → Ends Never
          (Unbuilt app config settings logger p2p_key signing_key w)
          (λ made end. IsNode app config settings logger p2p_key signing_key made w end)
          (build_node L app config settings logger p2p_key signing_key w)
  unfolding build_node
  build_node-IsNode app config settings logger p2p_key signing_key w =
      let (read, w₁) = L.genesis_doc_from_file config w in
      elim (Result-cases read) [
        | inr (e, bad) ↦ by_error e w₁ (no_genesis (λ i. (bad i, w₁))) (rw bad)
        | inl (genesis, good) ↦
            let (connection, w₂) = L.new_abci_client app w₁ in
            elim (Result-cases connection) [
              | inr (e, bad) ↦
                  by_error e w₂ (no_client genesis w₁ (λ i. (good i, w₁)) (λ i. (bad i, w₂)))
                    (rw (good, bad))
              | inl (client, fine) ↦
                  let (built, w₃) =
                    L.new_node settings p2p_key signing_key client genesis logger w₂ in
                  elim (Result-cases built) [
                    | inr (e, bad) ↦
                        by_error (L.errorf (text "failed to create new rollkit node: ") e) w₃
                          (no_node genesis client w₁ w₂ e (λ i. (good i, w₁)) (λ i. (fine i, w₂))
                            (λ i. (bad i, w₃)) refl)
                          (rw (good, fine, bad))
                    | inl (node, made) ↦
                        by_value (node, (L.new_server node config logger w₃).0)
                          (L.new_server node config logger w₃).1
                          (record {
                            genesis = genesis;
                            client = client;
                            before = w₁;
                            connected = w₂;
                            after = w₃;
                            reads_genesis = λ i. (good i, w₁);
                            connects = λ i. (fine i, w₂);
                            makes = λ i. (made i, w₃);
                            serves = refl;
                          })
                          (rw (good, fine, made))
                  ]
            ]
      ]
