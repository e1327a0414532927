-- ===== src/Counter/Shown.antt =====
-- What the page shows of the count.
use fuelmint.Common.{
  ℕ, zero, suc, List, [], ◌∷◌, ◌++◌, Option, none, some, ◌≤◌, ◌≡◌, ◌⊎◌, inl, inr, refl, All, arith,
}
use fuelmint.Counter.Contract.{Storage, Call, counter_call, increment_call, execute}
use fuelmint.Counter.Page.{
  Page, Event, loaded, clicked, arrives, elsewhere, pick, leave, first_shown, await_answer, send,
  receive, handle, handle_all,
}

-- The count only grows, and what a call answers is the count after it.
execute-grows :
    (call : Call) (storage : Storage) → storage.counter ≤ (execute call storage).1.counter
unfolding execute
execute-grows counter_call storage = ground arith
execute-grows (increment_call param) storage = ground arith

abbrev pub IsAtMost : ℕ → Option ℕ → Type 0
IsAtMost count none = Unit
IsAtMost count (some value) = value ≤ count

execute-answers :
    (call : Call) (storage : Storage)
    → IsAtMost (execute call storage).1.counter (execute call storage).0
unfolding execute
execute-answers counter_call storage = ground arith
execute-answers (increment_call param) storage = ground arith

abbrev pub AllAtMost : ℕ → List ℕ → Type 0
AllAtMost count = All (λ value. value ≤ count)

still_at_most : (a b : ℕ) (values : List ℕ) → a ≤ b → AllAtMost a values → AllAtMost b values
still_at_most a b [] h all = tt
still_at_most a b (v ∷ vs) h (now, all) = (omega arith, still_at_most a b vs h all)

at_most-append :
    (count value : ℕ) (values : List ℕ)
    → AllAtMost count values
    → value ≤ count
    → AllAtMost count (values ++ value ∷ [])
at_most-append count value [] all h = (h, tt)
at_most-append count value (v ∷ vs) (now, all) h = (now, at_most-append count value vs all h)

abbrev IsPicked : ℕ → Option (ℕ × List ℕ) → Type 0
IsPicked count none = Unit
IsPicked count (some (value, rest)) = (value ≤ count) × AllAtMost count rest

leave-IsPicked :
    (count value : ℕ) (o : Option (ℕ × List ℕ))
    → value ≤ count
    → IsPicked count o
    → IsPicked count (leave value o)
leave-IsPicked count value none now h = tt
leave-IsPicked count value (some (picked, others)) now (h, all) = (h, (now, all))

pick-IsPicked :
    (count n : ℕ) (values : List ℕ) → AllAtMost count values → IsPicked count (pick n values)
pick-IsPicked count n [] all = tt
pick-IsPicked count zero (v ∷ vs) all = all
pick-IsPicked count (suc n) (v ∷ vs) (now, all) =
    leave-IsPicked count v (pick n vs) now (pick-IsPicked count n vs all)

module _ {Num : Type 0} (to_number : ℕ → Num) (start : Num) where
  -- The page shows what it started with or a number that is at most the count, and so are the answers
  -- on their way.
  pub record IsPast (page : Page Num) : Type 0 where
    pub shown :
        (page.counter ≡ start)
        ⊎ ((value : ℕ) × (page.counter ≡ to_number value) × (value ≤ page.storage.counter))
    pub on_the_way : AllAtMost page.storage.counter page.awaited

  module _ (page : Page Num) (h : IsPast page) where
    -- A call of the contract, by whomever, leaves the page with what it had.
    grows-IsPast :
        (storage : Storage)
        → page.storage.counter ≤ storage.counter
        → IsPast (record page { storage = storage })
    grows-IsPast storage grows = record {
      shown = elim h.shown [
        | inl first ↦ inl first
        | inr (value, same, past) ↦ inr (value, same, omega arith)
      ];
      on_the_way =
          still_at_most page.storage.counter storage.counter page.awaited grows h.on_the_way;
    }

    await-IsPast :
        (answer : Option ℕ)
        → IsAtMost page.storage.counter answer
        → IsPast (await_answer to_number start answer page)
    await-IsPast none _ = h
    await-IsPast (some value) past = record {
      shown = h.shown;
      on_the_way = at_most-append page.storage.counter value page.awaited h.on_the_way past;
    }

    receive-IsPast :
        (o : Option (ℕ × List ℕ))
        → IsPicked page.storage.counter o
        → IsPast (receive to_number start o page)
    receive-IsPast none _ = h
    receive-IsPast (some (value, rest)) (past, all) = record {
      shown = inr (value, refl, past);
      on_the_way = all;
    }

  send-IsPast :
      (call : Call) (page : Page Num) → IsPast page → IsPast (send to_number start call page)
  send-IsPast call page h =
      let (answer, after) = execute call page.storage in
      await-IsPast (record page { storage = after })
        (grows-IsPast page h after (execute-grows call page.storage)) answer
        (execute-answers call page.storage)

  handle-IsPast :
      (event : Event) (page : Page Num) → IsPast page → IsPast (handle to_number start event page)
  unfolding handle
  handle-IsPast loaded page h = send-IsPast counter_call page h
  handle-IsPast clicked page h = send-IsPast (increment_call 1) page h
  handle-IsPast (arrives n) page h =
      receive-IsPast page h (pick n page.awaited)
        (pick-IsPicked page.storage.counter n page.awaited h.on_the_way)
  handle-IsPast (elsewhere call) page h =
      grows-IsPast page h (execute call page.storage).1 (execute-grows call page.storage)

  handle_all-IsPast :
      (events : List Event) (page : Page Num)
      → IsPast page
      → IsPast (handle_all to_number start events page)
  unfolding handle_all
  handle_all-IsPast [] page h = h
  handle_all-IsPast (event ∷ events) page h =
      handle_all-IsPast events (handle to_number start event page) (handle-IsPast event page h)

  -- In whatever order the page's calls are made and answered, and others call the contract, the page
  -- shows what it started with or a number that is at most the count, and so is every answer on its
  -- way.
  pub page-IsPast :
      (events : List Event)
      → IsPast (handle_all to_number start events (first_shown to_number start))
  page-IsPast events =
      handle_all-IsPast events (first_shown to_number start)
        (record { shown = inl refl; on_the_way = tt })
