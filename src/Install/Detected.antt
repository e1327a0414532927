-- ===== src/Install/Detected.antt =====
-- Which profile the installer writes to.
use fuelmint.Common.{
  ℕ, List, [], ◌∷◌, ◌++◌, true, false, text, same, ◌≡◌, ◌≢◌, ◌⊎◌, inl, inr, refl, sym, ap, arith,
  Bool-cases, ◌==◌,
}
use fuelmint.Install.Shell.{Shell, Variables}
use fuelmint.Install.Script.{ends_with, no_shell_found, detect}

same-cases : (s t : List ℕ) → ((s ≡ t) × (same s t ≡ true)) ⊎ ((s ≢ t) × (same s t ≡ false))
same-cases [] [] = inl (refl, refl)
same-cases [] (d ∷ t) = inr ((λ e. cc), refl)
same-cases (c ∷ s) [] = inr ((λ e. cc), refl)
same-cases (c ∷ s) (d ∷ t) = elim (same-cases s t) [
  | inl (e, q) ↦ elim (Bool-cases (c == d)) [
    | inl h ↦ inl (ground (arith, e), ground (arith, q))
    | inr h ↦ inr ((λ same_text. ground (arith, same_text)), ground (arith, q))
  ]
  | inr (ne, q) ↦ inr ((λ same_text. ne cc), ground (arith, q))
]

neither :
    {suffix s : List ℕ} {c : ℕ}
    → suffix ≢ c ∷ s
    → ((start : List ℕ) → s ≢ start ++ suffix)
    → (start : List ℕ) → c ∷ s ≢ start ++ suffix
neither whole later [] e = whole (sym e)
neither whole later (d ∷ start) e = later start cc

-- A pattern `*suffix` matches the texts that end in the suffix.
ends_with-cases :
    (suffix s : List ℕ)
    → ((start : List ℕ) × (s ≡ start ++ suffix) × (ends_with suffix s ≡ true))
      ⊎ (((start : List ℕ) → s ≢ start ++ suffix) × (ends_with suffix s ≡ false))
ends_with-cases [] [] = inl ([], refl, refl)
ends_with-cases (d ∷ suffix) [] = inr (not_empty, refl)
  where
    not_empty : (start : List ℕ) → [] ≢ start ++ d ∷ suffix
    not_empty [] e = cc
    not_empty (x ∷ start) e = cc
ends_with-cases suffix (c ∷ s) = elim (same-cases suffix (c ∷ s)) [
  | inl (e, q) ↦ inl ([], sym e, rw q)
  | inr (whole, q) ↦ elim (ends_with-cases suffix s) [
    | inl (start, e, h) ↦ inl (c ∷ start, ap (λ t. c ∷ t) e, rw (q, h))
    | inr (later, h) ↦ inr (neither whole later, rw (q, h))
  ]
]

module _ (S : Shell) (vars : Variables) where
  -- What the `case` on the shell comes to: what it runs, and the profile after it.
  pub data Detects (r : (S.World → ℕ × S.World) × List ℕ) : Type 0 where
    bash :
        (start : List ℕ)
        → vars.shell ≡ start ++ text "/bash"
        → r ≡ (λ w. (0, w), vars.home ++ text "/.bashrc")
        → Detects r
    zsh :
        (start : List ℕ)
        → vars.shell ≡ start ++ text "/zsh"
        → r ≡ (λ w. (0, w), vars.home ++ text "/.zshrc")
        → Detects r
    fish :
        (start : List ℕ)
        → vars.shell ≡ start ++ text "/fish"
        → r ≡ (λ w. (0, w), vars.home ++ text "/.config/fish/config.fish")
        → Detects r
    -- any other shell, with a word to the user by a command `warn`
    unknown :
        ((start : List ℕ)
          → (vars.shell ≢ start ++ text "/bash")
            × (vars.shell ≢ start ++ text "/zsh")
            × (vars.shell ≢ start ++ text "/fish"))
        → r ≡ (S.run (no_shell_found vars), vars.shell_profile)
        → Detects r

  pub detect-Detects : Detects (detect S vars)
  unfolding detect
  detect-Detects = elim (ends_with-cases (text "/bash") vars.shell) [
    | inl (start, e, h) ↦ bash start e (rw h)
    | inr (no_bash, b) ↦ elim (ends_with-cases (text "/zsh") vars.shell) [
      | inl (start, e, h) ↦ zsh start e (rw (b, h))
      | inr (no_zsh, z) ↦ elim (ends_with-cases (text "/fish") vars.shell) [
        | inl (start, e, h) ↦ fish start e (rw (b, z, h))
        | inr (no_fish, f) ↦
            unknown (λ start. (no_bash start, no_zsh start, no_fish start)) (rw (b, z, f))
      ]
    ]
  ]
