-- ===== src/Bin/Layers.antt =====
-- fuelmint/src/bin/fuelmint.rs, in `exec`: the application is split into the services of the four
-- kinds of requests, those of the pool and of the information get their layers, and the ABCI server
-- is built of the four.
use fuelmint.Common.{ℕ, Option, none, some, ◌≡◌}
use fuelmint.Common.Exec.{Exec, pure, panic, finish_server}
use fuelmint.Fuel.{Fuel}
use fuelmint.App.Messages.{App}

-- What the code calls of tower and tower-abci.
pub record Tower (F : Fuel) : Type 1 where
  pub Consensus : Type 0
  pub Mempool : Type 0
  pub Snapshot : Type 0
  pub Info : Type 0
  -- `split::service`
  pub split : App F → ℕ → Consensus × Mempool × Snapshot × Info
  -- `ServiceBuilder`, whose layers are named from the outside in, and `service` of it
  pub Layers : Type 0
  pub new_layers : Layers
  pub load_shed : Layers → Layers
  pub buffer : ℕ → Layers → Layers
  -- so many calls in so many seconds
  pub rate_limit : ℕ → ℕ → Layers → Layers
  pub Layered : Type 0 → Type 0
  pub service : {S : Type 0} → Layers → S → Layered S
  -- `Server::builder` and its methods; `finish` gives `none` where a service is missing
  pub Builder : Type 0
  pub Server : Type 0
  pub builder : Builder
  pub consensus : Consensus → Builder → Builder
  pub snapshot : Snapshot → Builder → Builder
  pub mempool : Layered Mempool → Builder → Builder
  pub info : Layered Info → Builder → Builder
  pub finish : Builder → Option Server

module _ {F : Fuel} (K : Tower F) where
  abbrev pub mempool_layers : K.Layers
  mempool_layers = K.buffer 10 (K.load_shed K.new_layers)

  abbrev pub info_layers : K.Layers
  info_layers = K.rate_limit 50 1 (K.buffer 100 (K.load_shed K.new_layers))

  -- the calls on the builder up to `finish`
  abbrev pub with_services :
      K.Consensus → K.Snapshot → K.Layered K.Mempool → K.Layered K.Info → K.Builder
  with_services consensus snapshot mempool info =
      K.info info (K.mempool mempool (K.snapshot snapshot (K.consensus consensus K.builder)))

  unfoldable pub server_builder : App F → K.Builder
  server_builder app =
      let (consensus, mempool, snapshot, info) = K.split app 1 in
      with_services consensus snapshot (K.service mempool_layers mempool)
        (K.service info_layers info)

  abbrev pub unwrap_server {ℓ} : {S : Type ℓ} → Option K.Server → Exec S K.Server
  unwrap_server none = panic finish_server
  unwrap_server (some server) = pure server

  -- `Server::builder()` up to `unwrap`
  unfoldable pub build_server {ℓ} : {S : Type ℓ} → App F → Exec S K.Server
  unfolding server_builder
  build_server app = unwrap_server (K.finish (server_builder app))

  -- A builder that has the four services finishes.
  abbrev pub Finishes : Type 0
  Finishes =
      (consensus : K.Consensus) (snapshot : K.Snapshot) (mempool : K.Layered K.Mempool)
      (info : K.Layered K.Info)
      → (server : K.Server) × (K.finish (with_services consensus snapshot mempool info)
          ≡ some server)

  pub build_server-finish :
      Finishes → (app : App F) → (server : K.Server) × (K.finish (server_builder app) ≡ some server)
  unfolding server_builder
  build_server-finish finishes app = finishes _ _ _ _
