-- ===== src/Bin/Keys.antt =====
-- Where the keys of a configuration come from, and when there is no configuration.
use mathlib.Core.Option.{get_or}
use fuelmint.Common.{
  ℕ, List, [], ◌∷◌, ◌++◌, Bool, true, false, Option, none, some, Result, ok, err, text, ◌≡◌, ◌⊎◌,
  refl, inl, inr, Result-cases, append-nil, sym,
}
use fuelmint.Common.Exec.{Outcome, returned}
use fuelmint.Fuel.{Fuel}
use fuelmint.Config.{Config}
use fuelmint.Bin.Cli.{Cli, Command}
use fuelmint.Bin.Configure.{
  Env, Warning, key_by_cli_args, insecure_dev_key, consensus_key_env, load_consensus_key,
  consensus_key_of, coinbase, get_config, filled,
}

module _ {F : Fuel} {C : Cli F} (env : Env) (c : Command C) where
  -- The text of the key, by the argument and else by the environment.
  pub data KeyText (s : List ℕ) (warnings : List Warning) : Type 0 where
    by_cli : c.consensus_key ≡ some s → warnings ≡ key_by_cli_args ∷ [] → KeyText s warnings
    by_env :
        c.consensus_key ≡ none → env consensus_key_env ≡ some s → warnings ≡ [] → KeyText s warnings

  -- The consensus key, and what is logged about it.
  pub data KeyOf (key : Option F.Secret) (warnings : List Warning) : Type 0 where
    given :
        (s : List ℕ) (k : C.SecretKey)
        → KeyText s warnings
        → C.parse_secret_key s ≡ ok k
        → key ≡ some (C.secret_of k)
        → KeyOf key warnings
    by_dev :
        c.consensus_key ≡ none
        → env consensus_key_env ≡ none
        → c.consensus_dev_key ≡ true
        → key ≡ some (C.secret_of C.default_consensus_dev_key)
        → warnings ≡ insecure_dev_key ∷ []
        → KeyOf key warnings
    no_key :
        c.consensus_key ≡ none
        → env consensus_key_env ≡ none
        → c.consensus_dev_key ≡ false
        → key ≡ none
        → warnings ≡ []
        → KeyOf key warnings

  -- The recipient of the block's fees: the argument, or the address of the key.
  pub data RecipientOf (key : Option F.Secret) (recipient : F.Address) : Type 0 where
    by_argument :
        (s : List ℕ)
        → c.coinbase_recipient ≡ some s
        → C.parse_address s ≡ ok recipient
        → RecipientOf key recipient
    by_key :
        c.coinbase_recipient ≡ none
        → recipient ≡ C.address_of (get_or key C.default_secret)
        → RecipientOf key recipient

  -- How settling the key from `log` comes out.
  abbrev Settled : List Warning → Outcome (Result C.Error (Option F.Secret)) × List Warning → Type 0
  Settled log r =
      ((key : Option F.Secret) × (warnings : List Warning) × KeyOf key warnings
        × (r ≡ (returned (ok key), log ++ warnings)))
      ⊎ ((s : List ℕ) × (warnings : List Warning) × (e : C.Error) × KeyText s warnings
          × (C.parse_secret_key s ≡ err e)
          × (r ≡ (returned (err e), log ++ warnings)))

  nothing_logged :
      {A : Type 0} (a : A) (log : List Warning) → ◌≡◌ {A = A × List Warning} (a, log) (a, log ++ [])
  nothing_logged a log = λ i. (a, sym (append-nil log) i)

  settle-Settled :
      (arg found : Option (List ℕ)) (dev : Bool) (log : List Warning)
      → c.consensus_key ≡ arg
      → env consensus_key_env ≡ found
      → c.consensus_dev_key ≡ dev
      → Settled log (consensus_key_of C env arg dev log)
  unfolding load_consensus_key
  settle-Settled (some s) found dev log cli _ _ = elim (Result-cases (C.parse_secret_key s)) [
    | inl (k, good) ↦
        inl (
          some (C.secret_of k),
          key_by_cli_args ∷ [],
          given s k (by_cli cli refl) good refl,
          rw good,
        )
    | inr (e, bad) ↦ inr (s, key_by_cli_args ∷ [], e, by_cli cli refl, bad, rw bad)
  ]
  settle-Settled none (some s) dev log cli e _ = elim (Result-cases (C.parse_secret_key s)) [
    | inl (k, good) ↦ inl (
      some (C.secret_of k),
      [],
      given s k (by_env cli e refl) good refl,
      rw (e, good) (nothing_logged _ log),
    )
    | inr (x, bad) ↦ inr (s, [], x, by_env cli e refl, bad, rw (e, bad) (nothing_logged _ log))
  ]
  settle-Settled none none true log cli e d =
      inl (_, insecure_dev_key ∷ [], by_dev cli e d refl refl, rw e)
  settle-Settled none none false log cli e d =
      inl (none, [], no_key cli e d refl refl, rw e (nothing_logged _ log))

  -- The fields of a configuration that the command settles by itself.
  pub record IsConfigured (config : Config F) : Type 0 where
    pub serves_at : config.addr ≡ C.socket_addr c.ip c.port
    pub chain : C.parse_chain_config c.chain_config ≡ ok config.chain_conf
    pub opens : config.database_path ≡ c.database_path
    pub opens_as : config.database_type ≡ c.database_type
    pub blocks_by_hand : config.manual_blocks_enabled ≡ c.manual_blocks_enabled
    pub traces : config.vm.backtrace ≡ c.vm_backtrace
    pub measures : config.block_producer.metrics ≡ c.metrics
    pub no_name : config.name ≡ []
    pub executes : config.block_executor ≡ C.default_executor
    pub imports : config.block_importer ≡ C.default_importer
    pub lags : config.verifier.max_da_lag ≡ C.da_block_height 10
    pub waits : C.parse_duration (text "30s") ≡ ok config.verifier.max_wait_time
    pub never_produces : config.block_production ≡ C.never
    pub validates : config.utxo_validation ≡ c.utxo_validation
    pub producer_validates : config.block_producer.utxo_validation ≡ c.utxo_validation
    pub pool_config :
        config.txpool ≡ C.new_txpool_config config.chain_conf c.min_gas_price c.utxo_validation
    pub recipient : RecipientOf config.consensus_key config.block_producer.coinbase_recipient

  -- What `get_config` may come to: the error of the first text that does not parse, or a
  -- configuration with the key, the recipient and the flags of the command.
  pub data Configures (log : List Warning) (r : Outcome (Result C.Error (Config F)) × List Warning)
      : Type 0 where
    bad_chain :
        (e : C.Error)
        → C.parse_chain_config c.chain_config ≡ err e
        → r ≡ (returned (err e), log)
        → Configures log r
    bad_key :
        (s : List ℕ) (warnings : List Warning) (e : C.Error)
        → KeyText s warnings
        → C.parse_secret_key s ≡ err e
        → r ≡ (returned (err e), log ++ warnings)
        → Configures log r
    bad_recipient :
        (key : Option F.Secret) (warnings : List Warning) (s : List ℕ) (e : C.Error)
        → KeyOf key warnings
        → c.coinbase_recipient ≡ some s
        → C.parse_address s ≡ err e
        → r ≡ (returned (err e), log ++ warnings)
        → Configures log r
    bad_duration :
        (key : Option F.Secret) (warnings : List Warning) (e : C.Error)
        → KeyOf key warnings
        → C.parse_duration (text "30s") ≡ err e
        → r ≡ (returned (err e), log ++ warnings)
        → Configures log r
    configured :
        (config : Config F) (warnings : List Warning)
        → KeyOf config.consensus_key warnings
        → IsConfigured config
        → r ≡ (returned (ok config), log ++ warnings)
        → Configures log r

  coinbase-cases :
      (arg : Option (List ℕ)) (key : Option F.Secret)
      → c.coinbase_recipient ≡ arg
      → ((a : F.Address) × RecipientOf key a × (coinbase C env arg key ≡ ok a))
        ⊎ ((s : List ℕ) × (e : C.Error) × (arg ≡ some s)
            × (C.parse_address s ≡ err e)
            × (coinbase C env arg key ≡ err e))
  coinbase-cases none key at = inl (_, by_key at refl, refl)
  coinbase-cases (some s) key at = elim (Result-cases (C.parse_address s)) [
    | inl (a, good) ↦ inl (a, by_argument s at good, good)
    | inr (e, bad) ↦ inr (s, e, refl, bad, bad)
  ]

  pub get_config-Configures : (log : List Warning) → Configures log (get_config C env c log)
  unfolding get_config
  get_config-Configures log = elim (Result-cases (C.parse_chain_config c.chain_config)) [
    | inr (e, bad) ↦ bad_chain e bad (rw bad)
    | inl (chain, good) ↦
        elim (settle-Settled c.consensus_key (env consensus_key_env) c.consensus_dev_key log refl
          refl refl) [
            | inr (s, warnings, e, text_of, bad, settled) ↦
                bad_key s warnings e text_of bad (rw (good, settled))
            | inl (key, warnings, key_of, settled) ↦
                elim (coinbase-cases c.coinbase_recipient key refl) [
                  | inr (s, e, at, bad, failed) ↦
                      bad_recipient key warnings s e key_of at bad (rw (good, settled, failed))
                  | inl (address, recipient_of, found) ↦
                      elim (Result-cases (C.parse_duration (text "30s"))) [
                        | inr (e, bad) ↦
                            bad_duration key warnings e key_of bad (rw (good, settled, found, bad))
                        | inl (wait, fine) ↦
                            configured (filled C c chain key address wait) warnings key_of
                              (record {
                                serves_at = refl;
                                chain = good;
                                opens = refl;
                                opens_as = refl;
                                blocks_by_hand = refl;
                                traces = refl;
                                measures = refl;
                                no_name = refl;
                                executes = refl;
                                imports = refl;
                                lags = refl;
                                waits = fine;
                                never_produces = refl;
                                validates = refl;
                                producer_validates = refl;
                                pool_config = refl;
                                recipient = recipient_of;
                              })
                              (rw (good, settled, found, fine))
                      ]
                ]
          ]
  ]
