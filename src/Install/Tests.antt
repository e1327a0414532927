-- ===== src/Install/Tests.antt =====
-- The installer in a shell in which the build of the first program fails, and so does the move of what
-- it has not built; `err` is not found.
use fuelmint.Common.{ℕ, List, [], ◌∷◌, ◌||◌, none, some, text, same, ◌≡◌, refl, ◌==◌, if◌then◌else◌}
use fuelmint.Install.Shell.{Shell, Variables, sequence}
use fuelmint.Install.Script.{Directories, directories, main, script}
use fuelmint.Install.Detected.{Detects}
use fuelmint.Install.Attempted.{attempts, deeds_before, deeds_after, script-Attempts}

-- the status of a command, by its words
abbrev code_of : List (List ℕ) → ℕ
code_of [] = 0
code_of (word ∷ []) = 0
code_of (word ∷ argument ∷ []) = if same word (text "err") then 127 else 0
code_of (word ∷ argument ∷ next ∷ more) =
    if same word (text "cargo") || same next (text "target/release/fuelmint") then 1 else 0

-- a world that keeps the words of each command, the last command first
abbrev host : Shell
host = record {
  World = List (List (List ℕ));
  run = λ words w. (code_of words, words ∷ w);
  append_to = λ file words w. (0, (file ∷ []) ∷ w);
}

abbrev vars : Variables
vars = record { home = text "/h"; shell = text "/bin/bash"; shell_profile = []; fuelup_dir = [] }

abbrev dirs : Directories
dirs = directories (text "/h") none (some (text "/r"))

script-Attempts_example :
    (found : (List (List (List ℕ)) → ℕ × List (List (List ℕ))) × List ℕ) × Detects host vars found
    × (let before = (found.0 (attempts host (deeds_before dirs) [])).1 in
        let (code, end) =
          host.run (text "cd" ∷ text ".." ∷ []) (attempts host (deeds_after found.1 dirs) before) in
        script host vars dirs [] ≡ (if code == 0 then 0 else 1, end))
script-Attempts_example = script-Attempts host vars dirs []

-- Nothing has been built, and the installer reports success.
failures_pass : (script host vars dirs []).0 ≡ 0
unfolding script main sequence
failures_pass = refl
