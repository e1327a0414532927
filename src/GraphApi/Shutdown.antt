-- ===== src/GraphApi/Shutdown.antt =====
-- When the graceful shutdown of the GraphQL server begins.
use fuelmint.Common.{
  List, [], ◌∷◌, ◌++◌, Option, none, some, Bool, true, false, All, ◌≡◌, refl, inl, inr, Bool-cases,
}
use fuelmint.Common.Exec.{Outcome, returned, panicked, blocked, service_destroyed}
use fuelmint.GraphApi.Server.{until_stopped}

module _ {S : Type 0} (started : S → Bool) where
  -- a change after which the service is still started
  abbrev pub StaysUp : Option S → Type 0
  StaysUp none = ⊥
  StaysUp (some s) = started s ≡ true

  -- What the loop may do on a sequence of changes: end at the first state that is not started,
  -- panic if the sender is gone before that, or wait.
  pub data Decides (changes : List (Option S)) (r : Outcome (Unit {0})) : Type 0 where
    stops :
        (before after : List (Option S)) (s : S)
        → changes ≡ before ++ some s ∷ after
        → All StaysUp before
        → started s ≡ false
        → r ≡ returned tt
        → Decides changes r
    destroyed :
        (before after : List (Option S))
        → changes ≡ before ++ none ∷ after
        → All StaysUp before
        → r ≡ panicked service_destroyed
        → Decides changes r
    waits : All StaysUp changes → r ≡ blocked → Decides changes r

  Decides-cons :
      (s : S) (changes : List (Option S)) (r : Outcome (Unit {0}))
      → started s ≡ true
      → Decides changes r
      → Decides (some s ∷ changes) r
  Decides-cons s changes r up (stops before after s' e all down d) =
      stops (some s ∷ before) after s' (rw e) (up, all) down d
  Decides-cons s changes r up (destroyed before after e all d) =
      destroyed (some s ∷ before) after (rw e) (up, all) d
  Decides-cons s changes r up (waits all d) = waits (up, all) d

  -- The loop does one of these three things on every sequence of changes.
  pub until_stopped-Decides :
      (changes : List (Option S)) → Decides changes (until_stopped started changes)
  unfolding until_stopped
  until_stopped-Decides [] = waits tt refl
  until_stopped-Decides (none ∷ rest) = destroyed [] rest refl tt refl
  until_stopped-Decides (some s ∷ rest) = elim (Bool-cases (started s)) [
    | inl up ↦ rw up (Decides-cons s rest _ up (until_stopped-Decides rest))
    | inr down ↦ rw down (stops [] rest s refl tt down refl)
  ]
