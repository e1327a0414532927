-- ===== src/Common/Lists.antt =====
-- Lists measured by native numbers, predicates on all elements, and text as a list of code points.
use Prim.Native.Nat.{ℕ, suc}
use Prim.Native.Char.{code}
use Prim.Native.String.{String}
use mathlib.Core.List.{List, [], ◌∷◌}
use mathlib.Core.Bool.{Bool, true, false, ◌&&◌, not}
use mathlib.Core.Option.{Option, none, some}
use fuelmint.Common.Tests.{◌==◌, if◌then◌else◌}

module _ {ℓ} {A : Type ℓ} where
  abbrev pub length : List A → ℕ
  length [] = 0
  length (x ∷ xs) = suc (length xs)

  abbrev pub All {κ} : (A → Type κ) → List A → Type κ
  All P [] = Unit
  All P (x ∷ xs) = P x × All P xs

module _ {ℓ} {A : Type ℓ} where
  pub All-Unit : (xs : List A) → All (λ _. Unit {0}) xs
  All-Unit [] = tt
  All-Unit (x ∷ xs) = (tt, All-Unit xs)

-- A Rust `str` as its code points.
abbrev pub text : String → List ℕ
text String.[] = []
text (String.◌∷◌ c s) = code c ∷ text s

-- `str::strip_prefix`, the prefix first
abbrev pub strip_prefix : List ℕ → List ℕ → Option (List ℕ)
strip_prefix [] s = some s
strip_prefix (c ∷ p) [] = none
strip_prefix (c ∷ p) (d ∷ s) = if c == d then strip_prefix p s else none

-- equality of texts
abbrev pub same : List ℕ → List ℕ → Bool
same [] [] = true
same (a ∷ as') (b ∷ bs) = a == b && same as' bs
same _ _ = false

-- a text that is none of a list
abbrev pub is_new : List ℕ → List (List ℕ) → Bool
is_new s [] = true
is_new s (t ∷ ts) = not (same s t) && is_new s ts
