-- ===== src/Group.antt =====
-- pkg/group: the election of a leader by the MySQL backend, what that backend stores and takes over,
-- the raft state machine, and the interface that both services fill, with the choice between them.
pub mod Election
pub mod Backend
pub mod Snapshot
pub mod Fsm
pub mod Service
pub mod Operations
pub mod Consensus
pub mod Monitor
pub mod Store
mod Tests
mod ServiceTests
mod OperationTests
mod ElectionTests
