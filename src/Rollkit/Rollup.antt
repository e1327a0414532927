-- ===== src/Rollkit/Rollup.antt =====
-- What `newRollup` comes to.
use mathlib.Core.Path.{subst}
use fuelmint.Common.{List, ℕ, text, ok, err, ◌≡◌, sym, refl, inl, inr, Result-cases}
use fuelmint.Common.Exec.{Panic, returned}
use fuelmint.Common.Ends.{Ends, by_error, by_value, by_stop}
use fuelmint.Rollkit.Abci.{Abci}
use fuelmint.Rollkit.Relay.{AbciRelayer}
use fuelmint.Rollkit.Settings.{Flags, NodeConfig}
use fuelmint.Rollkit.Library.{Library}
use fuelmint.Rollkit.NewRollup.{read_config, translate, new_rollup}
use fuelmint.Rollkit.Building.{
  IsRead, IsTranslated, AreLoaded, HasExited, IsNode, Unread, Untranslated, Unloaded, Unbuilt,
  read_config-IsRead, translate-IsTranslated, load_keys-AreLoaded, build_node-IsNode,
}

module _ {A : Abci} (L : Library A) where
  -- What is known of a configuration, from the file that it was read from to its logger.
  pub record IsSettled (flags : Flags) (config_file : List ℕ) (w : A.World) (config : L.TmConfig)
      (settings : NodeConfig L.Rest) (logger : L.Logger) (end : A.World) : Type 0 where
    pub is_read : IsRead L config_file w config end
    pub is_translated : IsTranslated L flags config settings end
    pub logs : L.parse_log_level config ≡ ok logger

  -- The node and the server belong to the configuration of the file, with the settings of the flags.
  pub record IsRollup (flags : Flags) (app : AbciRelayer A) (config_file : List ℕ) (w : A.World)
      (made : L.Node × L.Server) (end : A.World) : Type 0 where
    pub config : L.TmConfig
    pub settings : NodeConfig L.Rest
    pub logger : L.Logger
    pub keys : L.PrivKey × L.PrivKey
    pub start : A.World
    pub loaded : A.World
    pub is_settled : IsSettled flags config_file w config settings logger start
    pub are_loaded : AreLoaded L config start keys loaded
    pub is_node : IsNode L app config settings logger keys.0 keys.1 made loaded end

  -- The process has exited over a valid configuration, for want of the validator's files.
  abbrev pub IsAbandoned : Flags → List ℕ → A.World → Panic → A.World → Type 0
  IsAbandoned flags config_file w p end =
      (config : L.TmConfig) × (settings : NodeConfig L.Rest) × (logger : L.Logger)
      × (start : A.World) × IsSettled flags config_file w config settings logger start
      × HasExited L config start p end

  -- The step that has failed, after those before it, and its error.
  pub data HasFailed (flags : Flags) (app : AbciRelayer A) (config_file : List ℕ) (w : A.World)
      (e : A.Error) (end : A.World) : Type 0 where
    unread : Unread L config_file w e end → HasFailed flags app config_file w e end
    untranslated :
        (config : L.TmConfig) (start : A.World)
        → IsRead L config_file w config start
        → Untranslated L flags config start e end
        → HasFailed flags app config_file w e end
    unlogged :
        (config : L.TmConfig) (settings : NodeConfig L.Rest) (x : A.Error)
        → IsRead L config_file w config end
        → IsTranslated L flags config settings end
        → L.parse_log_level config ≡ err x
        → e ≡ L.errorf (text "failed to parse log level: ") x
        → HasFailed flags app config_file w e end
    unloaded :
        (config : L.TmConfig) (settings : NodeConfig L.Rest) (logger : L.Logger) (start : A.World)
        → IsSettled flags config_file w config settings logger start
        → Unloaded L config start e end
        → HasFailed flags app config_file w e end
    unbuilt :
        (config : L.TmConfig) (settings : NodeConfig L.Rest) (logger : L.Logger)
        (keys : L.PrivKey × L.PrivKey) (start loaded : A.World)
        → IsSettled flags config_file w config settings logger start
        → AreLoaded L config start keys loaded
        → Unbuilt L app config settings logger keys.0 keys.1 loaded e end
        → HasFailed flags app config_file w e end

  -- `newRollup` comes back with the error of its first step that fails, or with a node and its server:
  -- made from the configuration that was read from the file and is valid, the settings that the flags
  -- give, the validator's key for signing and the node's key for the network, a client of the relay,
  -- and the genesis; or, over a valid configuration, the process exits where the validator's files
  -- cannot be read.
  pub new_rollup-IsRollup :
      (flags : Flags) (app : AbciRelayer A) (config_file : List ℕ) (w : A.World)
      → Ends
          (IsAbandoned flags config_file w)
          (HasFailed flags app config_file w)
          (IsRollup flags app config_file w)
          (new_rollup L flags app config_file w)
  unfolding new_rollup
  new_rollup-IsRollup flags app config_file w = elim (read_config-IsRead L config_file w) [
    | by_error e w₁ fails d ↦ by_error e w₁ (unread fails) (rw d)
    | by_stop p w₁ stopped d ↦ absurd stopped
    | by_value config w₁ is_read d₁ ↦ elim (translate-IsTranslated L flags config w₁) [
      | by_error e w₂ fails d ↦ by_error e w₂ (untranslated config w₁ is_read fails) (rw (d₁, d))
      | by_stop p w₂ stopped d ↦ absurd stopped
      | by_value settings w₂ (is_translated, still) d₂ ↦
          from_settings config settings w₁ w₂ is_read is_translated still d₁ d₂
    ]
  ]
    where
      from_settings :
          (config : L.TmConfig) (settings : NodeConfig L.Rest) (w₁ w₂ : A.World)
          → IsRead L config_file w config w₁
          → IsTranslated L flags config settings w₂
          → w₂ ≡ w₁
          → read_config L config_file w ≡ (returned (ok config), w₁)
          → translate L flags config w₁ ≡ (returned (ok settings), w₂)
          → Ends
              (IsAbandoned flags config_file w)
              (HasFailed flags app config_file w)
              (IsRollup flags app config_file w)
              (new_rollup L flags app config_file w)
      from_settings config settings w₁ w₂ read_before is_translated still d₁ d₂ =
          let is_read : IsRead L config_file w config w₂ =
            subst (IsRead L config_file w config) (sym still) read_before in
          elim (Result-cases (L.parse_log_level config)) [
            | inr (e, bad) ↦
                by_error (L.errorf (text "failed to parse log level: ") e) w₂
                  (unlogged config settings e is_read is_translated bad refl) (rw (d₁, d₂, bad))
            | inl (logger, logs) ↦
                let is_settled : IsSettled flags config_file w config settings logger w₂ = record {
                  is_read = is_read;
                  is_translated = is_translated;
                  logs = logs;
                } in
                elim (load_keys-AreLoaded L config w₂) [
                  | by_error e w₃ fails d ↦
                      by_error e w₃ (unloaded config settings logger w₂ is_settled fails)
                        (rw (d₁, d₂, logs, d))
                  | by_stop p w₃ exited d ↦
                      by_stop p w₃ (config, settings, logger, w₂, is_settled, exited)
                        (rw (d₁, d₂, logs, d))
                  | by_value (p2p_key, signing_key) w₃ are_loaded d₃ ↦
                      elim (build_node-IsNode L app config settings logger p2p_key signing_key w₃) [
                        | by_error e w₄ fails d ↦
                            by_error e w₄
                              (unbuilt config settings logger (p2p_key, signing_key) w₂ w₃
                                is_settled are_loaded fails)
                              (rw (d₁, d₂, logs, d₃, d))
                        | by_stop p w₄ stopped d ↦ absurd stopped
                        | by_value made w₄ is_node d₄ ↦
                            by_value made w₄
                              (record {
                                config = config;
                                settings = settings;
                                logger = logger;
                                keys = (p2p_key, signing_key);
                                start = w₂;
                                loaded = w₃;
                                is_settled = is_settled;
                                are_loaded = are_loaded;
                                is_node = is_node;
                              })
                              (rw (d₁, d₂, logs, d₃, d₄))
                      ]
                ]
          ]
