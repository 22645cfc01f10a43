-- ===== src/Base.antt =====
-- pkg/base: the results of metrics, and their health.
pub mod Metric
pub mod Health
pub mod Http
