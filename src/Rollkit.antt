-- ===== src/Rollkit.antt =====
-- rollkit-node: the Go program that orders the rollup's transactions and relays the calls of the
-- consensus to the application.
pub mod Abci
pub mod Relay
pub mod Answers
pub mod Forwarding
pub mod Blocks
pub mod Settings
pub mod Library
pub mod NewRollup
pub mod Building
pub mod Rollup
pub mod Main
pub mod Exits
pub mod Configured
pub mod Fixture
pub mod Liveness
pub mod Inclusion
pub mod Journey
pub mod Session
mod Tests
mod SessionTests
mod NodeTests
