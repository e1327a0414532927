-- ===== src/App/Fixture.antt =====
-- A small chain that stands for fuel-core in the tests: a transaction is a byte, and the world is
-- the pool and the heights of the committed blocks.
use fuelmint.Common.{false, none, ℕ, List, [], ◌∷◌, Result, ok, err, refl, ◌==◌, ltb, if◌then◌else◌}
use fuelmint.Common.Int.{ℤ, pos, negsuc}
use fuelmint.Config.{Config}
use fuelmint.Fuel.{Fuel}
use fuelmint.State.{default}
use fuelmint.App.Messages.{App}
use fuelmint.App.Reports.{TakesNonneg}

pub record Chain : Type 0 where
  pub pool : List ℕ
  pub blocks : List ℕ

-- Bytes are a transaction if there are any; its first byte stands for it.
abbrev decode : List ℕ → Result ℕ ℕ
decode [] = err 1
decode (b ∷ _) = ok b

-- The pool takes what is below 200.
abbrev put : List ℕ → Chain → List (Result ℕ (Unit {0})) × Chain
put [] c = ([], c)
put (t ∷ ts) c =
    let (rs, c') = put ts c in
    if ltb t 200 then (ok tt ∷ rs, record c' { pool = t ∷ c'.pool }) else (err 2 ∷ rs, c')

abbrev without : ℕ → List ℕ → List ℕ
without t [] = []
without t (u ∷ us) = if t == u then without t us else u ∷ without t us

abbrev drop_all : List ℕ → List ℕ → List ℕ
drop_all [] us = us
drop_all (t ∷ ts) us = drop_all ts (without t us)

-- Transactions from 100 on are skipped.
abbrev skipped : List ℕ → List (ℕ × ℕ)
skipped [] = []
skipped (t ∷ ts) = if ltb t 100 then skipped ts else (t, 3) ∷ skipped ts

-- No block is produced at height 0, and none is committed at height 9.
abbrev make : ℕ → Chain → Result ℕ (List (ℕ × ℕ) × ℕ) × Chain
make h c = if h == 0 then (err 4, c) else (ok (skipped c.pool, h), c)

abbrev store : ℕ → Chain → Result ℕ (Unit {0}) × Chain
store h c = if h == 9 then (err 5, c) else (ok tt, record c { blocks = h ∷ c.blocks })

abbrev height_from : ℤ → Result ℕ ℕ
height_from (pos n) = ok n
height_from (negsuc n) = err 6

abbrev pub chain : Fuel
chain = record {
  Error = ℕ;
  World = Chain;
  TxPool = Unit;
  BlockProducer = Unit;
  Tx = ℕ;
  TxId = ℕ;
  Inserted = Unit;
  Time = ℕ;
  BlockHeight = ℕ;
  Height = ℕ;
  DbTransaction = ℕ;
  SocketAddr = ℕ;
  FilePath = List ℕ;
  DbType = ℕ;
  ChainConfig = ℕ;
  Trigger = ℕ;
  TxPoolConfig = ℕ;
  ExecutorConfig = Unit;
  ImporterConfig = Unit;
  Address = ℕ;
  Secret = ℕ;
  DaBlockHeight = ℕ;
  Duration = ℕ;
  block_gas_limit = λ limit. limit;
  from_bytes = decode;
  precompute = λ t. t;
  tx_id = λ t. t;
  to_json = λ t. t ∷ [];
  insert = λ _. put;
  remove_txs = λ _ ids c. record c { pool = drop_all ids c.pool };
  block_height_from = λ n. n;
  produce_and_execute_block = λ _ h _ _. make h;
  commit = store;
  height_try_from = height_from;
}

abbrev pub chain-TakesNonneg : TakesNonneg chain
chain-TakesNonneg = record { height = λ n. n; taken = λ n _. refl; refused = λ n. (6, refl) }

abbrev pub config : Config chain
config = record {
  addr = 4000;
  database_path = [];
  database_type = 0;
  chain_conf = 1000;
  utxo_validation = false;
  manual_blocks_enabled = false;
  block_production = 0;
  vm = record { backtrace = false };
  txpool = 0;
  block_producer = record { utxo_validation = false; coinbase_recipient = 0; metrics = false };
  block_executor = tt;
  block_importer = tt;
  consensus_key = none;
  name = [];
  verifier = record { max_da_lag = 10; max_wait_time = 30 };
}

abbrev pub start : App chain
start = record {
  config = config;
  committed_state = record { value = default; held = false };
  current_state = record { value = default; held = false };
  producer = tt;
  tx_pool = tt;
  world = record { pool = []; blocks = [] };
}
