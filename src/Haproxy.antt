-- ===== src/Haproxy.antt =====
-- pkg/haproxy: the hosts of a pool, read from the CSV status page.
pub mod Host
pub mod Parser
pub mod Filter
