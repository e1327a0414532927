-- ===== src/Counter/Tests.antt =====
-- The contract and the page at small counts.
use fuelmint.Common.{List, [], ◌∷◌, none, some, ◌+◌, ◌-◌, ◌^◌, ◌≤◌, ◌<◌, ◌≡◌, ◌⊎◌, refl, All, arith}
use fuelmint.Counter.Contract.{deployed, Call, counter_call, increment_call, execute, run}
use fuelmint.Counter.Sums.{total, gained, IsAnswered, run-total}
use fuelmint.Counter.Page.{
  Event, loaded, clicked, arrives, elsewhere, first_shown, handle, handle_all,
}
use fuelmint.Counter.Shown.{IsPast, page-IsPast}
use fuelmint.Counter.Settled.{last_answer, page-settles}

abbrev calls : List Call
calls = increment_call 3 ∷ counter_call ∷ increment_call 4 ∷ []

run-total_example :
    let (values, after) = run calls deployed in
    (after.counter ≡ 0 + gained calls values)
    × (after.counter < 2 ^ 64)
    × ((All IsAnswered values × (after.counter ≡ 0 + total calls)) ⊎ (2 ^ 64 ≤ 0 + total calls))
run-total_example = run-total calls deployed (omega arith)

-- The last `u64` cannot be passed.
overflow_reverts :
    run (increment_call (2 ^ 64 - 1) ∷ increment_call 1 ∷ []) deployed
    ≡ (some (2 ^ 64 - 1) ∷ none ∷ [], record { counter = 2 ^ 64 - 1 })
unfolding run execute
overflow_reverts = refl

abbrev events : List Event
events =
    loaded
    ∷ arrives 0
    ∷ clicked
    ∷ elsewhere (increment_call 5)
    ∷ clicked
    ∷ arrives 0
    ∷ arrives 0
    ∷ []

page-IsPast_example : IsPast (λ n. n) 0 (handle_all (λ n. n) 0 events (first_shown (λ n. n) 0))
page-IsPast_example = page-IsPast (λ n. n) 0 events

page-settles_example :
    (handle_all (λ n. n) 0 events (first_shown (λ n. n) 0)).counter
    ≡ last_answer (λ n. n) 0 events deployed 0
unfolding handle_all handle execute
page-settles_example = page-settles (λ n. n) 0 events (omega arith) refl

-- Two clicks whose answers arrive in the other order: the page shows 1, and the count is 2.
stale :
    (handle_all
      (λ n. n)
      0
      (clicked ∷ clicked ∷ arrives 1 ∷ arrives 0 ∷ [])
      (first_shown (λ n. n) 0)).counter
    ≡ 1
unfolding handle_all handle execute
stale = refl
