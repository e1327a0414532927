-- ===== src/Common/Int.antt =====
-- Rust's `i64`, as an integer over the native numbers, and its cast to `u64`.
use Prim.Native.Nat.{ℕ, ◌-◌, ◌%◌, ◌^◌, ◌<◌}
use mathlib.Core.Path.{◌≡◌}
use native.Mathlib.Omega.{arith}

-- `negsuc n` is -(n + 1).
pub data ℤ : Type 0 where
  pos : ℕ → ℤ
  negsuc : ℕ → ℤ

-- The range of `i64`.
abbrev pub InI64 : ℤ → Type 0
InI64 (pos n) = n < 2 ^ 63
InI64 (negsuc n) = n < 2 ^ 63

abbrev pub IsNonneg : ℤ → Type 0
IsNonneg (pos n) = Unit
IsNonneg (negsuc n) = ⊥

-- `x as u64`: the bit pattern of `x` in two's complement, read as an unsigned number.
unfoldable pub as_u64 : ℤ → ℕ
as_u64 (pos n) = n % 2 ^ 64
as_u64 (negsuc n) = 2 ^ 64 - 1 - n % 2 ^ 64

pub as_u64-pos : (n : ℕ) → n < 2 ^ 63 → as_u64 (pos n) ≡ n
unfolding as_u64
as_u64-pos n h = omega arith

-- The cast loses nothing of a value in range.
as_u64_inj : (a b : ℤ) → InI64 a → InI64 b → as_u64 a ≡ as_u64 b → a ≡ b
unfolding as_u64
as_u64_inj (pos a) (pos b) ha hb e = ground arith
as_u64_inj (pos a) (negsuc b) ha hb e = absurd (omega arith)
as_u64_inj (negsuc a) (pos b) ha hb e = absurd (omega arith)
as_u64_inj (negsuc a) (negsuc b) ha hb e = ground arith
