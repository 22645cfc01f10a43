-- ===== src/Throttle.antt =====
-- pkg/throttle: the aggregation of probes, the throttler's state and operations, the checks, what is
-- reported, the goroutines that collect metrics, and the runs of all of these.
pub mod Aggregate
pub mod State
pub mod Apps
pub mod Hosts
pub mod Check
pub mod Refresh
pub mod Inventory
pub mod Operate
pub mod Run
pub mod Collect
pub mod Report
pub mod Clients
pub mod Sweep
mod Tests
mod VerdictTests
mod OperationTests
mod RunTests
mod SweepTests
