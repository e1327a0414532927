-- ===== src/SubServices.antt =====
-- fuelmint/src/sub_services.rs: the services of the node and the handles between them. The feature
-- flags `relayer` and `p2p` are not among the features of fuelmint/Cargo.toml, so the code that they
-- guard is not compiled.
pub mod Parts
pub mod Init
pub mod Wiring
pub mod Fixture
mod Tests
