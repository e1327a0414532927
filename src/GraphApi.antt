-- ===== src/GraphApi.antt =====
-- fuelmint/src/graph_api.rs: the GraphQL server. The interface to axum, hyper, async-graphql and the
-- service runner is GraphApi/Web.antt; the service is built in GraphApi/Router.antt and runs in
-- GraphApi/Server.antt.
pub mod Web
pub mod Router
pub mod Server
pub mod Routes
pub mod Dispatch
pub mod Shutdown
pub mod Serving
pub mod Fixture
mod Tests
