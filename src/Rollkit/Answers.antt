-- ===== src/Rollkit/Answers.antt =====
-- What the relay answers by itself, what it hands on, and how it fails.
use fuelmint.Common.{
  ℕ, List, Bool, true, false, not, none, some, ok, err, ◌≡◌, refl, inl, inr, Result-cases,
  Bool-cases, Option-cases, ap,
}
use fuelmint.Common.Exec.{Outcome, returned, panicked, client_start, client_sync, pure}
use fuelmint.Rollkit.Abci.{
  Abci, Method, set_option, begin_block, generate_fraud_proof, get_app_hash, verify_fraud_proof,
}
use fuelmint.Rollkit.Relay.{AbciRelayer, is_one, new_relayer, relay, handle}

module _ (A : Abci) where
  -- What is handed on: all but four methods and the start of the block at height 1.
  abbrev pub is_relayed : (m : Method) → A.Req m → Bool
  is_relayed set_option _ = false
  is_relayed generate_fraud_proof _ = false
  is_relayed get_app_hash _ = false
  is_relayed verify_fraud_proof _ = false
  is_relayed begin_block req = not (is_one (A.height req))
  is_relayed _ _ = true

  pub handle-relayed :
      (app : AbciRelayer A) (m : Method) (req : A.Req m)
      → is_relayed m req ≡ true
      → handle A app m req ≡ relay A m app.client req
  unfolding handle
  handle-relayed app set_option req h = cc
  handle-relayed app generate_fraud_proof req h = cc
  handle-relayed app get_app_hash req h = cc
  handle-relayed app verify_fraud_proof req h = cc
  handle-relayed app begin_block req h = elim (Bool-cases (is_one (A.height req))) [
    | inl first ↦ cc (ap not first)
    | inr later ↦ rw later
  ]
  handle-relayed app _ req h = refl

  pub handle-answered :
      (app : AbciRelayer A) (m : Method) (req : A.Req m)
      → is_relayed m req ≡ false
      → handle A app m req ≡ pure (A.zero_response m)
  unfolding handle
  handle-answered app set_option req h = refl
  handle-answered app generate_fraud_proof req h = refl
  handle-answered app get_app_hash req h = refl
  handle-answered app verify_fraud_proof req h = refl
  handle-answered app begin_block req h = elim (Bool-cases (is_one (A.height req))) [
    | inl first ↦ rw first
    | inr later ↦ cc (ap not later)
  ]
  handle-answered app _ req h = cc

  -- What one method of the relay may come to.
  pub data Answers (app : AbciRelayer A) (m : Method) (req : A.Req m) (w : A.World)
      (r : Outcome (A.Res m) × A.World) : Type 0 where
    by_itself :
        is_relayed m req ≡ false → r ≡ (returned (A.zero_response m), w) → Answers app m req w r
    relayed :
        (res : A.Res m) (w' : A.World)
        → is_relayed m req ≡ true
        → A.sync m app.client req w ≡ (ok res, w')
        → r ≡ (returned res, w')
        → Answers app m req w r
    failed :
        (e : A.Error) (w' : A.World)
        → is_relayed m req ≡ true
        → A.sync m app.client req w ≡ (err e, w')
        → r ≡ (panicked client_sync, w')
        → Answers app m req w r

  -- Each method does one of three things: it answers with the zero response and sends nothing, for
  -- `SetOption`, the three methods of fraud proofs and `BeginBlock` at height 1; or it sends the
  -- request once and answers with the client's response; or it panics at the client's error.
  pub handle-Answers :
      (app : AbciRelayer A) (m : Method) (req : A.Req m) (w : A.World)
      → Answers app m req w (handle A app m req w)
  handle-Answers app m req w = elim (Bool-cases (is_relayed m req)) [
    | inr alone ↦ by_itself alone (rw (handle-answered app m req alone))
    | inl sent ↦
        let (result, w') = A.sync m app.client req w in
        elim (Result-cases result) [
          | inl (res, good) ↦
              relayed res w' sent (λ i. (good i, w')) (rw (handle-relayed app m req sent, good))
          | inr (e, bad) ↦
              failed e w' sent (λ i. (bad i, w')) (rw (handle-relayed app m req sent, bad))
        ]
  ]

  -- What the constructor may come to.
  pub data Connects (addr : List ℕ) (w : A.World) (r : Outcome (AbciRelayer A) × A.World)
      : Type 0 where
    connected :
        (client : A.Client) (w' w'' : A.World)
        → A.new_socket_client addr true w ≡ (client, w')
        → A.start client w' ≡ (none, w'')
        → r ≡ (returned (record { client = client }), w'')
        → Connects addr w r
    refused :
        (client : A.Client) (e : A.Error) (w' w'' : A.World)
        → A.new_socket_client addr true w ≡ (client, w')
        → A.start client w' ≡ (some e, w'')
        → r ≡ (panicked client_start, w'')
        → Connects addr w r

  -- The relay has a client that has started, or its constructor panics at the error of the start.
  pub new_relayer-Connects : (addr : List ℕ) (w : A.World) → Connects addr w (new_relayer A addr w)
  unfolding new_relayer
  new_relayer-Connects addr w =
      let (client, w') = A.new_socket_client addr true w in
      let (started, w'') = A.start client w' in
      elim (Option-cases started) [
        | inl quiet ↦ connected client w' w'' refl (λ i. (quiet i, w'')) (rw quiet)
        | inr (e, bad) ↦ refused client e w' w'' refl (λ i. (bad i, w'')) (rw bad)
      ]
