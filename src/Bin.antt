-- ===== src/Bin.antt =====
-- fuelmint/src/bin/fuelmint.rs: the command line and the start of the node.
pub mod Cli
pub mod Arguments
pub mod Configure
pub mod Boot
pub mod Layers
pub mod Keys
pub mod Start
pub mod Session
pub mod Ending
pub mod Tasks
pub mod Process
pub mod Outcomes
pub mod Turns
pub mod Tests
mod ProcessTests
