-- ===== src/Lib.antt =====
-- freno: a cooperative throttling service. Apps ask it by HTTP whether they may write to a MySQL
-- cluster; it answers from the replication lag (or another metric) that it collects from the
-- cluster's hosts. One service of a domain leads, by an election in a MySQL backend or by raft.
--
-- The parts and how they interact. The settings (pkg/config) name the clusters and the sources of
-- their hosts: HAProxy (pkg/haproxy), ProxySQL (pkg/proxysql), Vitess (pkg/vitess) or a fixed list.
-- The throttler (pkg/throttle) refreshes its inventory of probes from them, reads a metric for each
-- probe (pkg/mysql), aggregates the metrics of a cluster into one, and keeps throttled apps and
-- skipped hosts in caches. A check reads these. The handlers (pkg/http) call the check, and change
-- the throttler through a consensus service (pkg/group).
--
-- Files and sources:
--   Prelude, Go        shared helpers, and what the code uses of the Go language and its standard
--                      library: integers, texts as bytes, what encoding/json makes of a text that is
--                      not UTF-8, decimal numbers, floats, maps, times
--   Cache              the interface of the package go-cache, and an association list that fills it
--   Base               pkg/base: metrics and their errors, health of metrics, recent apps, the settings
--                      of HTTP clients
--   Mysql              pkg/mysql: keys, probes, HTTP checks, inventory, reading a metric
--   Config             pkg/config: settings of the stores, environment variables, adjustments; Read
--                      (config.go, store_config.go, and the flags of cmd/freno/main.go)
--   Haproxy            pkg/haproxy: the parser of the status page, hosts, the filter
--   Vitess, Proxysql   pkg/vitess/api_client.go, pkg/proxysql/client.go
--   Throttle           pkg/throttle: Aggregate (mysql.go); State, Apps, Hosts, Refresh, Inventory,
--                      Operate, Collect, Sweep, Report and Clients (throttler.go); Check
--                      (check.go, check_result.go); Run: sequences of the operations, the events
--                      and the checks, a check after an aggregation, and the steps that may come
--                      between a throttle of an app and a check of it
--   Group              pkg/group: Election and Backend (mysql.go), Fsm (store.go, fsm.go, raft.go),
--                      Snapshot (fsm_snapshot.go), Operations (the ticks of mysql.go), Service and
--                      Consensus (consensus_service.go, consensus.go, and what the other files
--                      construct and report), Store (store.go: Open and Join), Monitor (the gauges)
--   Http               pkg/http/api.go: the handlers, Reports (those that print a state) and Routes
--   Main               cmd/freno/main.go: the start, from the settings to the server, and Command, the
--                      modes of the command line
-- A definition has the name of its function in lower case: aggregateMySQLProbes is
-- aggregate_mysql_probes. A method takes its receiver first and returns the new one. The clock and
-- the random numbers are arguments: a time is a number of nanoseconds since year 1, and the values
-- that rand.Float64 returns in turn are a function of the index. What the code starts as a
-- goroutine is done in the same step, or is an event of its own where it reports by a channel;
-- Collect has the goroutines of the collections as steps that interleave, Sweep the
-- steps of a sweep among requests, and Group/Election/System the statements of many services.
--
-- Bounds and fuel. A float64 is the exact number of its smallest units, without NaN and infinities.
-- int64 wraps around where the code multiplies durations. `itoa` divides with as much fuel as the
-- number is large, and `replace_all` has as much as the text is long, which is enough since each
-- step takes a digit or a byte away. The expansion of environment variables has fuel as an argument
-- and says when it is used up: the code's loop need not end, and Config/Env/Ends says when it does.
--
-- Not modelled: the copies of hashicorp's raft and raft-boltdb in internal, vendored packages, the
-- text of the help, logs, mutexes, the tickers.
-- The databases, HTTP clients, files, and decoders of JSON are arguments, but for the commands and
-- the snapshots of raft: these model what encoding/json does with strings and with the names of
-- fields.
pub mod Prelude
pub mod Go
pub mod Base
pub mod Cache
pub mod Mysql
pub mod Config
pub mod Haproxy
pub mod Vitess
pub mod Proxysql
pub mod Throttle
pub mod Group
pub mod Http
pub mod Main
mod Tests
