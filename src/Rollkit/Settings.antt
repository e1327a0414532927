-- ===== src/Rollkit/Settings.antt =====
-- rollkit-node/main.go: the command-line flags, and the node's configuration made from them.
use fuelmint.Common.{
  ℕ, List, [], ◌∷◌, Bool, true, false, ◌-◌, ◌*◌, ◌%◌, ◌^◌, ltb, text, if◌then◌else◌,
}
use fuelmint.Common.Int.{ℤ, pos, negsuc}

pub record Flags : Type 0 where
  pub help : Bool
  pub config_file : List ℕ
  pub address : List ℕ
  pub transport : List ℕ
  pub fraud_proofs : Bool
  pub block_time : ℕ  -- uint64
  pub namespace_id : List ℕ
  pub da_start_height : ℕ  -- uint64
  pub aggregator : Bool
  pub da_layer : List ℕ
  pub da_config : List ℕ

-- what `init` declares for a flag that is not given
abbrev pub default_flags : Flags
default_flags = record {
  help = false;
  config_file = text "$HOME/.tendermint/config/config.toml";
  address = text "tcp://0.0.0.0:26658";
  transport = text "socket";
  fraud_proofs = false;
  block_time = 5;
  namespace_id = text "0000000000000000";
  da_start_height = 0;
  aggregator = true;
  da_layer = text "celestia";
  da_config =
      text
        "{\"base_url\":\"http://localhost:26659\",\"timeout\":60000000000,\"gas_limit\":6000000,\"fee\":6000}";
}

-- an `int64` by its bit pattern
abbrev pub as_i64 : ℕ → ℤ
as_i64 bits = if ltb bits (2 ^ 63) then pos bits else negsuc (2 ^ 64 - bits - 1)

-- `time.Duration(n) * time.Second`: nanoseconds in an `int64`, whose product wraps around
unfoldable pub seconds : ℕ → ℤ
seconds n = as_i64 (n * 1000000000 % 2 ^ 64)

-- `copy(dst, src)`, as the contents of `dst` after it: as many elements as the shorter one has
unfoldable pub copy {ℓ} : {A : Type ℓ} → List A → List A → List A
copy [] src = []
copy (d ∷ dst) [] = d ∷ dst
copy (d ∷ dst) (s ∷ src) = s ∷ copy dst src

-- `rollconf.NodeConfig`: the fields that `newRollup` sets, and the others, which `Rest` stands for
pub record NodeConfig (Rest : Type 0) : Type 0 where
  pub aggregator : Bool
  pub block_time : ℤ
  pub fraud_proofs : Bool
  pub da_start_height : ℕ
  pub da_layer : List ℕ
  pub da_config : List ℕ
  pub namespace_id : List ℕ
  pub rest : Rest

-- the struct literal of `newRollup`, and the `copy` into its namespace
unfoldable pub node_config : {Rest : Type 0} → Rest → List ℕ → Flags → List ℕ → NodeConfig Rest
unfolding seconds copy
node_config zero_rest zero_namespace flags bytes = record {
  aggregator = true;
  block_time = seconds flags.block_time;
  fraud_proofs = flags.fraud_proofs;
  da_start_height = flags.da_start_height;
  da_layer = text "celestia";
  da_config = flags.da_config;
  namespace_id = copy zero_namespace bytes;
  rest = zero_rest;
}
