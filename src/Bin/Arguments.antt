-- ===== src/Bin/Arguments.antt =====
-- fuelmint/src/bin/fuelmint.rs: the attributes of the struct `Command`, of which clap derives its
-- parser: the name of each argument and its value where it is not given. What the parser makes of
-- them is clap's.
use fuelmint.Common.{
  ℕ, List, [], ◌∷◌, map, Bool, true, ◌&&◌, Option, none, some, text, same, is_new, if◌then◌else◌,
}

pub record Argument : Type 0 where
  pub long : List ℕ
  pub default_value : Option (List ℕ)

abbrev valued : List ℕ → List ℕ → Argument
valued long value = record { long = long; default_value = some value }

abbrev optional : List ℕ → Argument
optional long = record { long = long; default_value = none }

-- The arguments in the order of the fields. The path is `DEFAULT_DB_PATH` as a text.
abbrev pub arguments : List ℕ → List Argument
arguments default_db_path =
    valued (text "ip") (text "127.0.0.1")
    ∷ valued (text "port") (text "4000")
    ∷ valued (text "abci-port") (text "26658")
    ∷ valued (text "db-path") default_db_path
    ∷ valued (text "db-type") (text "rocks-db")
    ∷ valued (text "chain") (text "local_testnet")
    ∷ optional (text "manual_blocks_enabled")
    ∷ optional (text "vm-backtrace")
    ∷ optional (text "utxo-validation")
    ∷ valued (text "min-gas-price") (text "0")
    ∷ optional (text "consensus-key")
    ∷ valued (text "dev-keys") (text "true")
    ∷ optional (text "coinbase-recipient")
    ∷ optional (text "metrics")
    ∷ []

-- the default value of the argument of a name, where it has one
abbrev pub default_of : List ℕ → List Argument → Option (List ℕ)
default_of long [] = none
default_of long (a ∷ rest) = if same long a.long then a.default_value else default_of long rest

-- No two arguments have one name.
abbrev pub has_distinct : List Argument → Bool
has_distinct [] = true
has_distinct (a ∷ rest) = is_new a.long (map (λ b. b.long) rest) && has_distinct rest
