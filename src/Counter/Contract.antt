-- ===== src/Counter/Contract.antt =====
-- examples/counter/contract/src/main.sw: the storage of the contract and its two methods. In Sway a
-- sum of `u64`s that overflows reverts the call, with all that the call has written.
use fuelmint.Common.{ℕ, List, [], ◌∷◌, Option, none, some, ◌+◌, ◌^◌, ltb, if◌then◌else◌}

pub record Storage : Type 0 where
  pub counter : ℕ  -- u64

-- the storage as it is deployed
abbrev pub deployed : Storage
deployed = record { counter = 0 }

-- `+` on `u64`, with `none` for the revert
abbrev pub add_u64 : ℕ → ℕ → Option ℕ
add_u64 a b = if ltb (a + b) (2 ^ 64) then some (a + b) else none

-- the method `counter`, which only reads
unfoldable pub counter : Storage → ℕ
counter storage = storage.counter

-- the method `increment`: what it returns and the storage after it, or `none` where it reverts
unfoldable pub increment : ℕ → Storage → Option (ℕ × Storage)
increment param storage = elim (add_u64 storage.counter param) [
  | none ↦ none
  | some sum ↦ let written = record storage { counter = sum } in some (written.counter, written)
]

-- The calls of the contract's ABI.
pub data Call : Type 0 where
  counter_call : Call
  increment_call : ℕ → Call

-- A call on the chain: what it returns, where it does not revert, and the storage after it.
unfoldable pub execute : Call → Storage → Option ℕ × Storage
unfolding counter increment
execute counter_call storage = (some (counter storage), storage)
execute (increment_call param) storage = elim (increment param storage) [
  | none ↦ (none, storage)
  | some (value, written) ↦ (some value, written)
]

unfoldable pub run : List Call → Storage → List (Option ℕ) × Storage
run [] storage = ([], storage)
run (call ∷ calls) storage =
    let (value, after) = execute call storage in
    let (values, end) = run calls after in (value ∷ values, end)
