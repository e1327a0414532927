-- ===== src/Service.antt =====
-- fuelmint/src/service.rs: the service of the node. Service/Task.antt is the task that starts and
-- stops the sub-services, Service/Node.antt the service around its runner.
pub mod Interface
pub mod Task
pub mod Node
pub mod Starting
pub mod Lifecycle
pub mod Creation
pub mod Database
pub mod Fixture
mod Tests
