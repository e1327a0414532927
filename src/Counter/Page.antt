-- ===== src/Counter/Page.antt =====
-- examples/counter/frontend/src/App.tsx: the component `App`. A call of the contract is answered on
-- the chain, and its answer arrives at the page later, when the code after the `await` runs; the
-- answers may arrive in any order. A call that is refused before it runs changes nothing and
-- is no event.
use fuelmint.Common.{ℕ, zero, suc, List, [], ◌∷◌, ◌++◌, Option, none, some}
use fuelmint.Counter.Contract.{Storage, deployed, Call, counter_call, increment_call, execute}

-- The state of the component, as a number of JavaScript, the answers on their way, and the contract.
pub record Page (Num : Type 0) : Type 0 where
  pub counter : Num
  pub awaited : List ℕ
  pub storage : Storage

pub data Event : Type 0 where
  -- the call that the effect makes once the page is there, and that of a click, on the chain
  loaded clicked : Event
  -- the answer at a place among those on their way
  arrives : ℕ → Event
  -- a call of the contract from elsewhere
  elsewhere : Call → Event

abbrev pub leave : ℕ → Option (ℕ × List ℕ) → Option (ℕ × List ℕ)
leave value none = none
leave value (some (picked, others)) = some (picked, value ∷ others)

-- the answer at a place, and the others
abbrev pub pick : ℕ → List ℕ → Option (ℕ × List ℕ)
pick n [] = none
pick zero (value ∷ rest) = some (value, rest)
pick (suc n) (value ∷ rest) = leave value (pick n rest)

-- `Number(…)` of a `BN` is `to_number`, and `start` is the 0 of `useState(0)`.
module _ {Num : Type 0} (to_number : ℕ → Num) (start : Num) where
  abbrev pub first_shown : Page Num
  first_shown = record { counter = start; awaited = []; storage = deployed }

  -- The answer is on its way, unless the call has reverted, which rejects.
  abbrev pub await_answer : Option ℕ → Page Num → Page Num
  await_answer none page = page
  await_answer (some value) page = record page { awaited = page.awaited ++ value ∷ [] }

  -- a call that the page makes
  abbrev pub send : Call → Page Num → Page Num
  send call page =
      let (answer, after) = execute call page.storage in
      await_answer answer (record page { storage = after })

  -- `setCounter(Number(value))`
  abbrev pub receive : Option (ℕ × List ℕ) → Page Num → Page Num
  receive none page = page
  receive (some (value, rest)) page = record page { counter = to_number value; awaited = rest }

  unfoldable pub handle : Event → Page Num → Page Num
  handle loaded page = send counter_call page
  handle clicked page = send (increment_call 1) page
  handle (arrives n) page = receive (pick n page.awaited) page
  handle (elsewhere call) page = record page { storage = (execute call page.storage).1 }

  unfoldable pub handle_all : List Event → Page Num → Page Num
  handle_all [] page = page
  handle_all (event ∷ events) page = handle_all events (handle event page)
