-- ===== src/App/Relayer.antt =====
-- fuelmint/src/types.rs: `EmptyRelayer`, the relayer of a rollup that reads no data-availability
-- layer. The trait asks of `wait_for_at_least` to come back with a height that is no lower than the
-- one asked for.
use fuelmint.Common.{ℕ, ◌≤◌, Result, ok, ◌≡◌, ◌↔◌, refl}

-- `DaBlockHeight` is a number in fuel-core.
pub record EmptyRelayer : Type 0 where
  pub zero_height : ℕ

-- `EmptyRelayer::default`
abbrev pub default : EmptyRelayer
default = record { zero_height = 0 }

unfoldable pub wait_for_at_least {ℓ} : {E : Type ℓ} → EmptyRelayer → ℕ → Result E ℕ
wait_for_at_least relayer _ = ok relayer.zero_height

-- The relayer answers at once, and keeps the promise of the trait exactly for the heights up to its
-- own.
wait_for_at_least-promise {ℓ} :
    {E : Type ℓ} (relayer : EmptyRelayer) (height : ℕ)
    → (answer : ℕ) × (wait_for_at_least {E = E} relayer height ≡ ok answer)
      × ((height ≤ answer) ↔ (height ≤ relayer.zero_height))
unfolding wait_for_at_least
wait_for_at_least-promise relayer height = (relayer.zero_height, refl, (λ h. h, λ h. h))
