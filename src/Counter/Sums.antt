-- ===== src/Counter/Sums.antt =====
-- What a sequence of calls makes of the count.
use fuelmint.Common.{
  ℕ, List, [], ◌∷◌, Option, none, some, ◌+◌, ◌^◌, ◌≤◌, ◌<◌, ◌≡◌, refl, arith, All, ◌⊎◌, inl, inr,
  Bool-cases, ltb,
}
use fuelmint.Counter.Contract.{Storage, Call, counter_call, increment_call, execute, run}

abbrev pub amount : Call → ℕ
amount counter_call = 0
amount (increment_call param) = param

-- the sum of the amounts of all calls
abbrev pub total : List Call → ℕ
total [] = 0
total (call ∷ calls) = amount call + total calls

-- the sum of the amounts of the calls that were answered
abbrev pub gained : List Call → List (Option ℕ) → ℕ
gained (call ∷ calls) (some _ ∷ values) = amount call + gained calls values
gained (call ∷ calls) (none ∷ values) = gained calls values
gained _ _ = 0

execute-gains :
    (call : Call) (storage : Storage)
    → storage.counter < 2 ^ 64
    → ((execute call storage).1.counter
        ≡ storage.counter + gained (call ∷ []) ((execute call storage).0 ∷ []))
      × ((execute call storage).1.counter < 2 ^ 64)
unfolding execute
execute-gains counter_call storage h = ground arith
execute-gains (increment_call param) storage h = ground arith

run-cons :
    (call : Call) (calls : List Call) (storage : Storage)
    → let (value, after) = execute call storage in
      run (call ∷ calls) storage ≡ (value ∷ (run calls after).0, (run calls after).1)
unfolding run
run-cons call calls storage = refl

run-gains :
    (calls : List Call) (storage : Storage)
    → storage.counter < 2 ^ 64
    → ((run calls storage).1.counter ≡ storage.counter + gained calls (run calls storage).0)
      × ((run calls storage).1.counter < 2 ^ 64)
run-gains [] storage h = unfold run in ground arith
run-gains (call ∷ calls) storage h =
    let (now, fits) = execute-gains call storage h in
    ground (arith, run-cons call calls storage, run-gains calls (execute call storage).1 fits, now)

abbrev pub IsAnswered : Option ℕ → Type 0
IsAnswered none = ⊥
IsAnswered (some _) = Unit

execute-fits :
    (call : Call) (storage : Storage)
    → storage.counter + amount call < 2 ^ 64
    → IsAnswered (execute call storage).0
      × ((execute call storage).1.counter ≡ storage.counter + amount call)
unfolding execute
execute-fits counter_call storage h = ground arith
execute-fits (increment_call param) storage h = ground arith

run-fits :
    (calls : List Call) (storage : Storage)
    → storage.counter + total calls < 2 ^ 64
    → All IsAnswered (run calls storage).0
      × ((run calls storage).1.counter ≡ storage.counter + total calls)
run-fits [] storage h = unfold run in (tt, omega arith)
run-fits (call ∷ calls) storage h =
    let (answered, adds) = execute-fits call storage (omega arith) in
    let (later, ends) = run-fits calls (execute call storage).1 (omega (arith, adds)) in
    rw (run-cons call calls storage) ((answered, later), omega (arith, adds, ends))

fits_or_not : (a b : ℕ) → (a < b) ⊎ (b ≤ a)
fits_or_not a b = elim (Bool-cases (ltb a b)) [
  | inl lower ↦ inl (ground arith)
  | inr higher ↦ inr (ground arith)
]

-- From a count that is a `u64`, the count after any calls is the count before with the amounts of the
-- calls that were answered, and it is a `u64`; and every call is answered, and all amounts are in
-- the count, unless they pass a `u64` together.
pub run-total :
    (calls : List Call) (storage : Storage)
    → storage.counter < 2 ^ 64
    → let (values, after) = run calls storage in
      (after.counter ≡ storage.counter + gained calls values)
      × (after.counter < 2 ^ 64)
      × ((All IsAnswered values × (after.counter ≡ storage.counter + total calls))
          ⊎ (2 ^ 64 ≤ storage.counter + total calls))
run-total calls storage h =
    let (gains, bound) = run-gains calls storage h in
    (
      gains,
      bound,
      elim (fits_or_not (storage.counter + total calls) (2 ^ 64)) [
        | inl fits ↦ inl (run-fits calls storage fits)
        | inr passes ↦ inr passes
      ],
    )
