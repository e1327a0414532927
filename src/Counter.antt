-- ===== src/Counter.antt =====
-- examples/counter: the example application of the repository, a contract that counts and the page
-- that shows the count.
pub mod Contract
pub mod Sums
pub mod Page
pub mod Shown
pub mod Settled
mod Tests
