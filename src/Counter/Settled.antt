-- ===== src/Counter/Settled.antt =====
-- What the page shows once every answer has arrived, in the order of the calls.
use fuelmint.Common.{
  ℕ, zero, suc, List, [], ◌∷◌, ◌++◌, Option, none, some, ◌≡◌, refl, ap, ◌∙◌, sym, All,
}
use fuelmint.Counter.Contract.{Storage, deployed, Call, counter_call, increment_call, execute}
use fuelmint.Counter.Page.{
  Page, Event, loaded, clicked, arrives, elsewhere, first_shown, await_answer, pick, receive, send,
  handle, handle_all,
}

-- The answers arrive in the order in which they were given.
abbrev pub IsOrdered : Event → Type 0
IsOrdered (arrives (suc _)) = ⊥
IsOrdered _ = Unit

module _ {Num : Type 0} (to_number : ℕ → Num) (start : Num) where
  -- the number of an answer, or the one before where the call has reverted
  abbrev pub answered_as : Option ℕ → Num → Num
  answered_as none n = n
  answered_as (some value) n = to_number value

  -- the number of the last answer that the contract has given the page, on the chain
  unfoldable pub last_answer : List Event → Storage → Num → Num
  last_answer [] storage n = n
  last_answer (loaded ∷ events) storage n =
      let (answer, after) = execute counter_call storage in
      last_answer events after (answered_as answer n)
  last_answer (clicked ∷ events) storage n =
      let (answer, after) = execute (increment_call 1) storage in
      last_answer events after (answered_as answer n)
  last_answer (arrives _ ∷ events) storage n = last_answer events storage n
  last_answer (elsewhere call ∷ events) storage n = last_answer events (execute call storage).1 n

  -- what will be shown when all that is on its way has arrived in order
  abbrev to_show : Num → List ℕ → Num
  to_show n [] = n
  to_show n (value ∷ values) = to_show (to_number value) values

  to_show-append :
      (n : Num) (value : ℕ) (values : List ℕ) → to_show n (values ++ value ∷ []) ≡ to_number value
  to_show-append n value [] = refl
  to_show-append n value (v ∷ vs) = to_show-append (to_number v) value vs

  abbrev shown_at_last : Page Num → Num
  shown_at_last page = to_show page.counter page.awaited

  to_show-await :
      (answer : Option ℕ) (page : Page Num)
      → shown_at_last (await_answer to_number start answer page)
        ≡ answered_as answer (shown_at_last page)
  to_show-await none page = refl
  to_show-await (some value) page = to_show-append page.counter value page.awaited

  storage-await :
      (answer : Option ℕ) (page : Page Num)
      → (await_answer to_number start answer page).storage ≡ page.storage
  storage-await none page = refl
  storage-await (some value) page = refl

  last-send :
      (call : Call) (events : List Event) (page : Page Num)
      → let after = send to_number start call page in
        let (answer, storage) = execute call page.storage in
        last_answer events after.storage (shown_at_last after)
        ≡ last_answer events storage (answered_as answer (shown_at_last page))
  last-send call events page =
      let (answer, storage) = execute call page.storage in
      let sent = record page { storage = storage } in
      λ i. last_answer events (storage-await answer sent i) (to_show-await answer sent i)

  last-receive :
      (values : List ℕ) (events : List Event) (page : Page Num)
      → let after = receive to_number start (pick 0 values) (record page { awaited = values }) in
        last_answer events after.storage (shown_at_last after)
        ≡ last_answer events page.storage (to_show page.counter values)
  last-receive [] events page = refl
  last-receive (v ∷ vs) events page = refl

  to_show-handle :
      (event : Event) (events : List Event) (page : Page Num)
      → IsOrdered event
      → let after = handle to_number start event page in
        last_answer events after.storage (shown_at_last after)
        ≡ last_answer (event ∷ events) page.storage (shown_at_last page)
  unfolding handle last_answer
  to_show-handle loaded events page h = last-send counter_call events page
  to_show-handle clicked events page h = last-send (increment_call 1) events page
  to_show-handle (arrives zero) events page h = last-receive page.awaited events page
  to_show-handle (arrives (suc n)) events page h = absurd h
  to_show-handle (elsewhere call) events page h = refl

  to_show-handle_all :
      (events : List Event) (page : Page Num)
      → All IsOrdered events
      → shown_at_last (handle_all to_number start events page)
        ≡ last_answer events page.storage (shown_at_last page)
  unfolding handle_all
  to_show-handle_all [] page h = unfold last_answer in refl
  to_show-handle_all (event ∷ events) page (now, later) =
      to_show-handle_all events (handle to_number start event page) later
      ∙ to_show-handle event events page now

  -- If the answers arrive in the order of the calls, then when none is on its way the page shows the
  -- last answer that the contract has given it, whatever others have called between.
  pub page-settles :
      (events : List Event)
      → let page = handle_all to_number start events (first_shown to_number start) in
        All IsOrdered events → page.awaited ≡ [] → page.counter ≡ last_answer events deployed start
  page-settles events ordered quiet =
      let page = handle_all to_number start events (first_shown to_number start) in
      sym (ap (to_show page.counter) quiet)
      ∙ to_show-handle_all events (first_shown to_number start) ordered
