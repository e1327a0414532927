-- ===== src/GraphApi/Fixture.antt =====
-- A small model of the libraries of the GraphQL service, for tests: a router is the table of its
-- routes, the world is the port that is free, and the response 0 has no JSON.
use fuelmint.Common.{
  same, is_new, ℕ, List, [], ◌∷◌, Option, none, some, Bool, true, ok, err, ◌≡◌, refl, ◌==◌,
  if◌then◌else◌, Result, map, sym, ap, inl, inr, Bool-cases,
}
use fuelmint.GraphApi.Web.{Web, MethodRouter}
use fuelmint.GraphApi.Routes.{AddsNewRoutes}
use fuelmint.GraphApi.Dispatch.{Dispatches}

abbrev Table : Type 0
Table = List (List ℕ × MethodRouter)

abbrev paths_of : Table → List (List ℕ)
paths_of = map (λ e. e.0)

abbrev add : List ℕ → MethodRouter → Table → Option Table
add path handlers r = if is_new path (paths_of r) then some ((path, handlers) ∷ r) else none

abbrev look_up : Table → List ℕ → Option MethodRouter
look_up [] asked = none
look_up ((path, handlers) ∷ rest) asked =
    if same asked path then some handlers else look_up rest asked

abbrev take_port : ℕ → ℕ → Result ℕ ℕ × ℕ
take_port port free = if port == free then (ok port, 0) else (err 98, free)

abbrev pub web : Web
web = record {
  Error = ℕ;
  World = ℕ;
  SocketAddr = ℕ;
  Config = ℕ;
  Database = Unit;
  Producer = Unit;
  TxPool = Unit;
  ConsensusModule = Unit;
  SchemaBuilder = Unit;
  Schema = Unit;
  Router = Table;
  Listener = ℕ;
  ServerBuilder = ℕ;
  Server = ℕ;
  Request = Unit;
  Response = ℕ;
  Event = ℕ;
  Html = List ℕ;
  LifeState = Bool;
  addr = λ c. c;
  data_config = λ _ b. b;
  data_database = λ _ b. b;
  data_producer = λ _ b. b;
  data_txpool = λ _ b. b;
  data_consensus = λ _ b. b;
  extension_tracing = λ b. b;
  finish = λ b. b;
  empty_router = [];
  route = add;
  layer_schema = λ _ r. r;
  layer_trace = λ r. r;
  layer_header = λ _ _ r. r;
  layer_no_body_limit = λ r. r;
  bind = take_port;
  local_addr = λ l w. (ok l, w);
  from_tcp = λ l. ok l;
  serve = λ b _ _. b;
  await_server = λ _ w. (ok tt, w);
  started = λ s. s;
  playground_source = λ t. t;
  execute = λ _ _ w. (0, w);
  execute_stream = λ _ _ w. (1 ∷ 2 ∷ 0 ∷ 3 ∷ [], w);
  json_data = λ r. if r == 0 then err 7 else ok r;
}

pub added_lem :
    (path : List ℕ) (handlers : MethodRouter) (r : Table)
    → is_new path (paths_of r) ≡ true
    → (r' : Table) × (add path handlers r ≡ some r') × (paths_of r' ≡ path ∷ paths_of r)
added_lem path handlers r h = ((path, handlers) ∷ r, rw h, refl)

abbrev pub web-AddsNewRoutes : AddsNewRoutes web
web-AddsNewRoutes = record { paths = paths_of; paths_empty = refl; added = added_lem }

pub look_up-add :
    (path : List ℕ) (handlers : MethodRouter) (r : Table) {r' : Table}
    → add path handlers r ≡ some r'
    → (asked : List ℕ)
    → look_up r' asked ≡ (if same asked path then some handlers else look_up r asked)
look_up-add path handlers r {r' = r'} h asked = elim (Bool-cases (is_new path (paths_of r))) [
  | inl new ↦
      let added : add path handlers r ≡ some ((path, handlers) ∷ r) = rw new in
      let next : (path, handlers) ∷ r ≡ r' = cc in ap (λ t. look_up t asked) (sym next)
  | inr old ↦ let refused : add path handlers r ≡ none = rw old in cc
]

abbrev pub web-Dispatches : Dispatches web
web-Dispatches = record {
  at = look_up;
  at_empty = λ _. refl;
  at_route = λ path handlers r _ h. look_up-add path handlers r h;
  at_schema = λ _ _. refl;
  at_trace = λ _. refl;
  at_header = λ _ _ _. refl;
  at_no_body_limit = λ _. refl;
}
