-- ===== src/Bin/Configure.antt =====
-- fuelmint/src/bin/fuelmint.rs: `load_consensus_key`, `get_config`, and the choice of `main`. The
-- environment is an argument, and the state of the code is what it has written to the log.
use mathlib.Core.Option.{get_or}
use fuelmint.Common.{
  ℕ, List, [], ◌∷◌, ◌++◌, Bool, Option, none, some, Result, ok, err, text, if◌then◌else◌,
}
use fuelmint.Common.Exec.{returned}
use fuelmint.Common.Try.{Try, pure, lift, ◌>>=◌}
use fuelmint.Fuel.{Fuel}
use fuelmint.Config.{Config}
use fuelmint.Bin.Cli.{Cli, Command}

pub data Warning : Type 0 where
  key_by_cli_args insecure_dev_key : Warning

-- `CONSENSUS_KEY_ENV`
abbrev pub consensus_key_env : List ℕ
consensus_key_env = text "CONSENSUS_KEY_SECRET"

abbrev pub Env : Type 0
Env = List ℕ → Option (List ℕ)

-- the record that `get_config` returns
abbrev pub filled :
    {F : Fuel} (C : Cli F)
    → Command C
    → F.ChainConfig
    → Option F.Secret
    → F.Address
    → F.Duration
    → Config F
filled C c chain_conf consensus_key coinbase_recipient max_wait_time = record {
  addr = C.socket_addr c.ip c.port;
  database_path = c.database_path;
  database_type = c.database_type;
  chain_conf = chain_conf;
  utxo_validation = c.utxo_validation;
  manual_blocks_enabled = c.manual_blocks_enabled;
  block_production = C.never;
  vm = record { backtrace = c.vm_backtrace };
  txpool = C.new_txpool_config chain_conf c.min_gas_price c.utxo_validation;
  block_producer = record {
    utxo_validation = c.utxo_validation;
    coinbase_recipient = coinbase_recipient;
    metrics = c.metrics;
  };
  block_executor = C.default_executor;
  block_importer = C.default_importer;
  consensus_key = consensus_key;
  name = [];
  verifier = record { max_da_lag = C.da_block_height 10; max_wait_time = max_wait_time };
}

module _ {F : Fuel} (C : Cli F) (env : Env) where
  abbrev pub ConfigTry {ℓ} : Type ℓ → Type ℓ
  ConfigTry A = Try (List Warning) C.Error A

  abbrev pub warn : Warning → ConfigTry (Unit {0})
  warn w log = (returned (ok tt), log ++ w ∷ [])

  abbrev pub secret_string : Option (List ℕ) → ConfigTry (Option (List ℕ))
  secret_string (some cli_arg) = do _ ← warn key_by_cli_args; pure (some cli_arg)
  secret_string none = pure (env consensus_key_env)

  abbrev pub parse_key : Option (List ℕ) → ConfigTry (Option F.Secret)
  parse_key (some key) = do k ← lift (C.parse_secret_key key); pure (some (C.secret_of k))
  parse_key none = pure none

  unfoldable pub load_consensus_key : Option (List ℕ) → ConfigTry (Option F.Secret)
  load_consensus_key cli_arg = do secret ← secret_string cli_arg; parse_key secret

  -- the `or_else` of `get_config`
  abbrev pub or_dev_key : Bool → Option F.Secret → ConfigTry (Option F.Secret)
  or_dev_key dev (some key) = pure (some key)
  or_dev_key dev none =
      if dev
      then (do _ ← warn insecure_dev_key; pure (some (C.secret_of C.default_consensus_dev_key)))
      else pure none

  -- `load_consensus_key(consensus_key)?.or_else(…)`
  abbrev pub consensus_key_of : Option (List ℕ) → Bool → ConfigTry (Option F.Secret)
  consensus_key_of arg dev = do loaded ← load_consensus_key arg; or_dev_key dev loaded

  abbrev pub coinbase : Option (List ℕ) → Option F.Secret → Result C.Error F.Address
  coinbase (some recipient) key = C.parse_address recipient
  coinbase none key = ok (C.address_of (get_or key C.default_secret))

  unfoldable pub get_config : Command C → ConfigTry (Config F)
  unfolding load_consensus_key
  get_config c = do
    chain_conf ← lift (C.parse_chain_config c.chain_config)
    consensus_key ← consensus_key_of c.consensus_key c.consensus_dev_key
    coinbase_recipient ← lift (coinbase c.coinbase_recipient consensus_key)
    max_wait_time ← lift (C.parse_duration (text "30s"))
    pure (filled C c chain_conf consensus_key coinbase_recipient max_wait_time)

-- What `main` does with the results of the two parsers: run a command, with the warning that the
-- format without a subcommand is deprecated, or leave with the first parser's error.
pub data Action (Cmd ParseError : Type 0) : Type 0 where
  run : Cmd → Action Cmd ParseError
  run_deprecated : Cmd → Action Cmd ParseError
  leave : ParseError → Action Cmd ParseError

unfoldable pub main_action :
    {Cmd ParseError : Type 0}
    → Result ParseError Cmd
    → Result ParseError Cmd
    → Action Cmd ParseError
main_action (ok command) _ = run command
main_action (err e) (ok command) = run_deprecated command
main_action (err e) (err _) = leave e
