-- ===== src/Install/Script.antt =====
-- install.sh: `main`, `ensure` and the last line. `warn` and `err`, which they call, are defined
-- nowhere in the script, and so they are commands like any other.
use fuelmint.Common.{
  ℕ, List, [], ◌∷◌, ◌++◌, Bool, ◌||◌, Option, none, some, text, same, ◌==◌, if◌then◌else◌,
}
use fuelmint.Install.Shell.{Shell, Variables, Left, sequence, or_exit}

-- `$*`: the words with a space between any two
abbrev pub joined : List (List ℕ) → List ℕ
joined [] = []
joined (word ∷ []) = word
joined (word ∷ words) = word ++ text " " ++ joined words

-- the pattern `*suffix` of a `case`
abbrev pub ends_with : List ℕ → List ℕ → Bool
ends_with suffix [] = same suffix []
ends_with suffix (c ∷ s) = same suffix (c ∷ s) || ends_with suffix s

-- `${VARIABLE-otherwise}`
abbrev pub or_default : List ℕ → Option (List ℕ) → List ℕ
or_default otherwise none = otherwise
or_default otherwise (some value) = value

-- The two directories that the environment may set.
pub record Directories : Type 0 where
  pub fuelmint_dir : List ℕ
  pub rollkit_node : List ℕ

abbrev pub directories : List ℕ → Option (List ℕ) → Option (List ℕ) → Directories
directories home fuelmint rollkit = record {
  fuelmint_dir = or_default (home ++ text "/.fuelmint") fuelmint;
  rollkit_node = or_default (home ++ text "/.rollkit-node") rollkit;
}

-- the command for a shell that is none of the three
abbrev pub no_shell_found : Variables → List (List ℕ)
no_shell_found vars =
    text "warn"
    ∷ (text "Failed to detect shell; please add "
        ++ vars.fuelup_dir
        ++ text "/bin to your PATH manually.")
    ∷ []

module _ (S : Shell) where
  -- `ensure`
  unfoldable pub ensure : List (List ℕ) → S.World → ℕ × S.World
  ensure command w =
      let (code, w') = S.run command w in
      if code == 0
      then (0, w')
      else S.run (text "err" ∷ (text "command failed: " ++ joined command) ∷ []) w'

  -- The `case` on the shell: what it runs, and the profile after it.
  unfoldable pub detect : Variables → (S.World → ℕ × S.World) × List ℕ
  detect vars =
      if ends_with (text "/bash") vars.shell
      then (λ w. (0, w), vars.home ++ text "/.bashrc")
      else if ends_with (text "/zsh") vars.shell
      then (λ w. (0, w), vars.home ++ text "/.zshrc")
      else if ends_with (text "/fish") vars.shell
      then (λ w. (0, w), vars.home ++ text "/.config/fish/config.fish")
      else (S.run (no_shell_found vars), vars.shell_profile)

  -- the commands of `main` up to its last, by what the `case` has come to
  abbrev pub steps : Directories → (S.World → ℕ × S.World) × List ℕ → List (S.World → ℕ × S.World)
  steps dirs (detection, profile) =
      S.run (text "mkdir" ∷ text "-p" ∷ (dirs.fuelmint_dir ++ text "/bin") ∷ [])
      ∷ S.run (text "mkdir" ∷ text "-p" ∷ (dirs.rollkit_node ++ text "/bin") ∷ [])
      ∷ detection
      ∷ S.run (text "cargo" ∷ text "build" ∷ text "--release" ∷ [])
      ∷ ensure (
          text "mv"
          ∷ text "-f"
          ∷ text "target/release/fuelmint"
          ∷ (dirs.fuelmint_dir ++ text "/bin")
          ∷ [])
      ∷ S.append_to profile (text "echo" ∷ text "export PATH=\"$HOME/.fuelmint/bin:$PATH\"" ∷ [])
      ∷ S.run (text "cd" ∷ text "rollkit-node" ∷ [])
      ∷ S.run (text "go" ∷ text "build" ∷ [])
      ∷ ensure (
          text "mv"
          ∷ text "-f"
          ∷ text "-n"
          ∷ text "./rollkit-node"
          ∷ (dirs.rollkit_node ++ text "/bin")
          ∷ [])
      ∷ S.append_to profile
          (text "echo" ∷ text "export PATH=\"$HOME/.rollkit-node/bin:$PATH\"" ∷ [])
      ∷ []

  -- the last command of `main`
  abbrev pub go_back : S.World → ℕ × S.World
  go_back = S.run (text "cd" ∷ text ".." ∷ [])

  unfoldable pub main : Variables → Directories → Bool → S.World → Left × S.World
  main vars dirs errexit = sequence S errexit 0 (steps dirs (detect vars) ++ go_back ∷ [])

  -- `main "$@" || exit 1`, with the status of the installer
  unfoldable pub script : Variables → Directories → S.World → ℕ × S.World
  script vars dirs = or_exit S (main vars dirs) 1
