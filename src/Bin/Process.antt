-- ===== src/Bin/Process.antt =====
-- fuelmint/src/bin/fuelmint.rs: the command line as `main` reads it, `exec` as a whole, and `main`.
use fuelmint.Common.{ℕ, List, Option, none, some, Result, map_ok, text}
use fuelmint.Common.Exec.{Exec, Outcome, returned, panicked, pure, no_home, ◌>>=◌, ◌>>◌}
use fuelmint.Fuel.{Fuel}
use fuelmint.GraphApi.Web.{Web}
use fuelmint.SubServices.Parts.{PartTypes, Parts}
use fuelmint.Service.Node.{Runners}
use fuelmint.Bin.Cli.{Cli, Command}
use fuelmint.Bin.Configure.{Env, Action, main_action}
use fuelmint.Bin.Layers.{Tower, build_server}
use fuelmint.Bin.Boot.{Host, Booted, Ended, prepare, after_select}

-- `DEFAULT_DB_PATH`, by `dirs::home_dir` and `join`
unfoldable pub default_db_path :
    {FilePath : Type 0} → (FilePath → List ℕ → FilePath) → Option FilePath → Outcome FilePath
default_db_path join none = panicked no_home
default_db_path join (some home) = returned (join (join home (text ".fuel")) (text "db"))

pub data Fuelmint {F : Fuel} (C : Cli F) : Type 0 where
  run : Command C → Fuelmint C

pub record Opt {F : Fuel} (C : Cli F) : Type 0 where
  pub command : Fuelmint C

-- `match opt.command`
abbrev pub command_of : {F : Fuel} {C : Cli F} → Fuelmint C → Command C
command_of (run command) = command

-- How the process goes on: through `exec`, or out by clap's `exit`, which does not come back.
pub data Course (ParseError : Type 0) : Type 0 where
  executed : Course ParseError
  exited : ParseError → Course ParseError

module _ {F : Fuel} {C : Cli F} {T : PartTypes} {W : Web} (H : Host C T W) (P : Parts F T W)
    (R : Runners F T W) (K : Tower F) {JoinError AbciError : Type 0}
    (select : K.Server → Booted H P R → W.World → Ended JoinError AbciError × W.World) where
  -- `select` spawns the two tasks and waits for the first to end.
  abbrev pub first_ended : K.Server → Booted H P R → Exec W.World (Ended JoinError AbciError)
  first_ended abci booted w = let (ended, w') = select abci booted w in (returned ended, w')

  unfoldable pub exec : Env → Command C → Exec W.World (Unit {0})
  exec env command = do
    booted ← prepare H P R env command
    abci ← build_server K booted.service
    ended ← first_ended abci booted
    after_select ended

  abbrev pub act_on :
      {ParseError : Type 0} → Env → Action (Command C) ParseError → Exec W.World (Course ParseError)
  act_on env (Action.run command) = exec env command >> pure executed
  act_on env (Action.run_deprecated command) = exec env command >> pure executed
  act_on env (Action.leave e) = pure (exited e)

  -- `main`, by what the two parsers give
  unfoldable pub main :
      {ParseError : Type 0}
      → Env
      → Result ParseError (Opt C)
      → Result ParseError (Command C)
      → Exec W.World (Course ParseError)
  unfolding exec main_action
  main env opt command = act_on env (main_action (map_ok (λ o. command_of o.command) opt) command)
