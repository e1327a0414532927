-- ===== src/Rollkit/Relay.antt =====
-- rollkit-node/app.go: the struct `ABCIRelayer`, its constructor, and its methods, which are those of
-- `abcitypes.Application`.
use fuelmint.Common.{ℕ, List, Bool, true, false, Option, none, some, ◌==◌, if◌then◌else◌}
use fuelmint.Common.Int.{ℤ, pos, negsuc}
use fuelmint.Common.Exec.{
  Exec, returned, pure, panic, unwrap, client_start, client_sync, ◌>>=◌, ◌>>◌,
}
use fuelmint.Rollkit.Abci.{
  Abci, Method, info, set_option, deliver_tx, check_tx, commit, query, init_chain, begin_block,
  end_block, list_snapshots, offer_snapshot, load_snapshot_chunk, apply_snapshot_chunk,
  generate_fraud_proof, get_app_hash, verify_fraud_proof,
}

pub record AbciRelayer (A : Abci) : Type 0 where
  pub client : A.Client

-- `height == 1`
abbrev pub is_one : ℤ → Bool
is_one (pos n) = n == 1
is_one (negsuc _) = false

module _ (A : Abci) where
  abbrev on_world {ℓ} : {B : Type ℓ} → (A.World → B × A.World) → Exec A.World B
  on_world f w = let (b, w') = f w in (returned b, w')

  -- `if err := …; err != nil { panic(err) }`
  abbrev pub panic_on : Option A.Error → Exec A.World (Unit {0})
  panic_on none = pure tt
  panic_on (some _) = panic client_start

  -- `NewABCIRelayer`
  unfoldable pub new_relayer : List ℕ → Exec A.World (AbciRelayer A)
  new_relayer addr = do
    client ← on_world (A.new_socket_client addr true)
    started ← on_world (A.start client)
    panic_on started
    pure (record { client = client })

  -- the body of the methods that hand their request on: the response of the client, or a panic
  abbrev pub relay : (m : Method) → A.Client → A.Req m → Exec A.World (A.Res m)
  relay m client req = do result ← on_world (A.sync m client req); unwrap client_sync result

  -- the methods of `ABCIRelayer`
  unfoldable pub handle : AbciRelayer A → (m : Method) → A.Req m → Exec A.World (A.Res m)
  handle app info req = relay info app.client req
  handle app set_option _ = pure (A.zero_response set_option)
  handle app deliver_tx req = relay deliver_tx app.client req
  handle app check_tx req = relay check_tx app.client req
  handle app commit req = relay commit app.client req
  handle app query req = relay query app.client req
  handle app init_chain req = relay init_chain app.client req
  handle app begin_block req =
      if is_one (A.height req)
      then pure (A.zero_response begin_block)
      else relay begin_block app.client req
  handle app end_block req = relay end_block app.client req
  handle app list_snapshots req = relay list_snapshots app.client req
  handle app offer_snapshot req = relay offer_snapshot app.client req
  handle app load_snapshot_chunk req = relay load_snapshot_chunk app.client req
  handle app apply_snapshot_chunk req = relay apply_snapshot_chunk app.client req
  handle app generate_fraud_proof _ = pure (A.zero_response generate_fraud_proof)
  handle app get_app_hash _ = pure (A.zero_response get_app_hash)
  handle app verify_fraud_proof _ = pure (A.zero_response verify_fraud_proof)
