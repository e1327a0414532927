-- ===== src/Install/Shell.antt =====
-- What install.sh takes of the shell that runs it: the commands, each by its words, with the status
-- that it leaves, and the rules of `set -e`.
use fuelmint.Common.{ℕ, List, [], ◌∷◌, Bool, false, ◌&&◌, ◌==◌, not, if◌then◌else◌}

pub record Shell : Type 1 where
  pub World : Type 0
  pub run : List (List ℕ) → World → ℕ × World
  -- a command whose output is appended to a file, the file first
  pub append_to : List ℕ → List (List ℕ) → World → ℕ × World

-- The variables of the environment; one that is not set reads as the empty text.
pub record Variables : Type 0 where
  pub home : List ℕ
  pub shell : List ℕ
  pub shell_profile : List ℕ
  pub fuelup_dir : List ℕ

-- How a list of commands is left: at its end, with the status of the last, or by an exit of the shell.
pub data Left : Type 0 where
  status exits : ℕ → Left

module _ (S : Shell) where
  -- The commands in their order. Where `set -e` is in force, the first that fails ends the shell.
  unfoldable pub sequence : Bool → ℕ → List (S.World → ℕ × S.World) → S.World → Left × S.World
  sequence errexit last [] w = (status last, w)
  sequence errexit last (command ∷ commands) w =
      let (code, w') = command w in
      let rest = sequence errexit code commands w' in
      if errexit && not (code == 0) then (exits code, w') else rest

  -- the status of `left || exit otherwise`
  abbrev pub status_or : ℕ → Left → ℕ
  status_or otherwise (status code) = if code == 0 then 0 else otherwise
  status_or otherwise (exits code) = code

  -- `left || exit otherwise`: in what stands left of `||`, `set -e` is ignored.
  abbrev pub or_exit : (Bool → S.World → Left × S.World) → ℕ → S.World → ℕ × S.World
  or_exit left otherwise w = let (how, w') = left false w in (status_or otherwise how, w')
