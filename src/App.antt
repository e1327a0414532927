-- ===== src/App.antt =====
-- fuelmint/src/types.rs: the ABCI application and the messages that it handles. The operations are
-- in App/Handlers.antt and App/Call.antt, and what is proved of them in the modules beside those.
pub mod Messages
pub mod Handlers
pub mod Call
pub mod Deadlock
pub mod Runs
pub mod Commits
pub mod Frames
pub mod Kinds
pub mod Delivery
pub mod Blocks
pub mod Reports
pub mod Parts
pub mod Ledger
pub mod Success
pub mod Shuffles
pub mod Relayer
pub mod Fixture
mod Tests
