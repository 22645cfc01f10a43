-- ===== src/Mysql.antt =====
-- pkg/mysql: the keys of instances, probes, HTTP checks, throttle metrics and the inventory.
pub mod Key
pub mod KeyLaws
pub mod Probe
pub mod Inventory
pub mod ThrottleMetric
pub mod Cached
