-- ===== src/Install/Attempted.antt =====
-- What the installer does where some of its commands fail.
use fuelmint.Common.{
  ℕ, List, [], ◌∷◌, ◌++◌, map, false, text, ◌≡◌, refl, ap, ◌∙◌, ◌==◌, if◌then◌else◌, Bool-cases,
  inl, inr,
}
use fuelmint.Install.Shell.{Shell, Variables, status, sequence, status_or}
use fuelmint.Install.Script.{Directories, joined, ensure, detect, steps, go_back, main, script}
use fuelmint.Install.Detected.{Detects, detect-Detects}

-- What the installer is to do, one thing after the other.
pub data Deed : Type 0 where
  runs : List (List ℕ) → Deed
  -- to append the output of a command to a file, the file first
  writes : List ℕ → List (List ℕ) → Deed
  -- to run a command, and to call `err` with its words where that fails
  ensures : List (List ℕ) → Deed

-- before the profile is known
abbrev pub deeds_before : Directories → List Deed
deeds_before dirs =
    runs (text "mkdir" ∷ text "-p" ∷ (dirs.fuelmint_dir ++ text "/bin") ∷ [])
    ∷ runs (text "mkdir" ∷ text "-p" ∷ (dirs.rollkit_node ++ text "/bin") ∷ [])
    ∷ []

-- to build and move each program, and to put it on the path, in the profile
abbrev pub deeds_after : List ℕ → Directories → List Deed
deeds_after profile dirs =
    runs (text "cargo" ∷ text "build" ∷ text "--release" ∷ [])
    ∷ ensures (
        text "mv"
        ∷ text "-f"
        ∷ text "target/release/fuelmint"
        ∷ (dirs.fuelmint_dir ++ text "/bin")
        ∷ [])
    ∷ writes profile (text "echo" ∷ text "export PATH=\"$HOME/.fuelmint/bin:$PATH\"" ∷ [])
    ∷ runs (text "cd" ∷ text "rollkit-node" ∷ [])
    ∷ runs (text "go" ∷ text "build" ∷ [])
    ∷ ensures (
        text "mv"
        ∷ text "-f"
        ∷ text "-n"
        ∷ text "./rollkit-node"
        ∷ (dirs.rollkit_node ++ text "/bin")
        ∷ [])
    ∷ writes profile (text "echo" ∷ text "export PATH=\"$HOME/.rollkit-node/bin:$PATH\"" ∷ [])
    ∷ []

module _ (S : Shell) where
  -- one thing done, whatever it comes to
  abbrev pub attempt : Deed → S.World → S.World
  attempt (runs words) w = (S.run words w).1
  attempt (writes file words) w = (S.append_to file words w).1
  attempt (ensures words) w =
      if (S.run words w).0 == 0
      then (S.run words w).1
      else (S.run (text "err" ∷ (text "command failed: " ++ joined words) ∷ []) (S.run words w).1).1

  -- all in their order, whatever those before have come to
  abbrev pub attempts : List Deed → S.World → S.World
  attempts [] w = w
  attempts (deed ∷ deeds) w = attempts deeds (attempt deed w)

  abbrev step_of : Deed → S.World → ℕ × S.World
  step_of (runs words) = S.run words
  step_of (writes file words) = S.append_to file words
  step_of (ensures words) = ensure S words

  step_of-attempt : (deed : Deed) (w : S.World) → (step_of deed w).1 ≡ attempt deed w
  unfolding ensure
  step_of-attempt (runs words) w = refl
  step_of-attempt (writes file words) w = refl
  step_of-attempt (ensures words) w = elim (Bool-cases ((S.run words w).0 == 0)) [
    | inl fine ↦ rw fine
    | inr failed ↦ rw failed
  ]

  -- each command after those before it
  abbrev through : List (S.World → ℕ × S.World) → S.World → S.World
  through [] w = w
  through (command ∷ commands) w = through commands (command w).1

  through-attempts :
      (deeds : List Deed) (w : S.World) → through (map step_of deeds) w ≡ attempts deeds w
  through-attempts [] w = refl
  through-attempts (deed ∷ deeds) w =
      ap (through (map step_of deeds)) (step_of-attempt deed w)
      ∙ through-attempts deeds (attempt deed w)

  sequence-append :
      (last : ℕ) (commands : List (S.World → ℕ × S.World)) (command : S.World → ℕ × S.World)
      (w : S.World)
      → let (code, end) = command (through commands w) in
        sequence S false last (commands ++ command ∷ []) w ≡ (status code, end)
  unfolding sequence
  sequence-append last [] command w = refl
  sequence-append last (c ∷ cs) command w = sequence-append (c w).0 cs command (c w).1

  steps-attempts :
      (dirs : Directories) (found : (S.World → ℕ × S.World) × List ℕ) (w : S.World)
      → through (steps S dirs found) w
        ≡ attempts (deeds_after found.1 dirs) (found.0 (attempts (deeds_before dirs) w)).1
  steps-attempts dirs (detection, profile) w =
      through-attempts (deeds_after profile dirs) (detection (attempts (deeds_before dirs) w)).1

  -- The installer makes the two directories, finds the profile, of the shell by whose name the path of
  -- the shell ends, bash, zsh or fish, or, after a call of `warn`, that of the environment, builds and
  -- moves the first program and writes its line to the profile, and then the same for the second. It
  -- does all of that in this order whatever fails, a failing move being followed by a call of `err`,
  -- and ends with 0 if the last command, `cd ..`, succeeds, and else with 1.
  pub script-Attempts :
      (vars : Variables) (dirs : Directories) (w : S.World)
      → (found : (S.World → ℕ × S.World) × List ℕ) × Detects S vars found
        × (let before = (found.0 (attempts (deeds_before dirs) w)).1 in
            let (code, end) =
              S.run (text "cd" ∷ text ".." ∷ []) (attempts (deeds_after found.1 dirs) before) in
            script S vars dirs w ≡ (if code == 0 then 0 else 1, end))
  unfolding script main
  script-Attempts vars dirs w =
      let found = detect S vars in
      (
        found,
        detect-Detects S vars,
        ap (λ x. (status_or S 1 x.0, x.1)) (sequence-append 0 (steps S dirs found) (go_back S) w)
            ∙ ap (λ u. (let (code, end) = go_back S u in (if code == 0 then 0 else 1, end)))
                (steps-attempts dirs found w),
      )
