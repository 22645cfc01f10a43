-- ===== src/Throttle/Refresh.antt =====
-- pkg/throttle/throttler.go: refreshMySQLInventory. What it starts as a goroutine for each cluster,
-- which reports by a channel, is a function of its own.
pub mod Laws
pub mod Sent
use freno.Prelude.{
  ℕ, ◌+◌, Bool, true, false, not, ◌&&◌, Option, none, some, List, [], ◌∷◌, ◌++◌, if◌then◌else◌,
  or_else, length, ◌==◌,
}
use freno.Go.Int.{ℤ, pos}
use freno.Go.Text.{Text, codes, str_eq, contains, text_eq}
use freno.Go.Float.{Float, float_zero}
use freno.Go.Dict.{Dict, lookup, insert}
use freno.Go.Time.{Time}
use freno.Base.Metric.{MetricResult}
use freno.Config.Stores.{
  MySqlClusterSettings, MySqlSettings, Url, haproxy_is_empty, get_proxy_addresses,
  proxysql_is_empty, vitess_is_empty, static_hosts_is_empty,
}
use freno.Mysql.Key.{
  InstanceKey, KeyResult, KeyError, parsed, failed, key_eq, string_code, is_valid,
  parse_instance_key,
}
use freno.Mysql.Probe.{Probe, Probes, ClusterProbes, MySqlHttpCheck, hash_key}
use freno.Mysql.Inventory.{MySqlInventory, cluster_instance_key_eq}
use freno.Mysql.ThrottleMetric.{MySqlThrottleMetric, cluster_instance_key_of, metric_result}
use freno.Haproxy.Host.{BackendHost, filter_throttler_hosts}
use freno.Haproxy.Parser.{HaproxyError, ReadResult, csv, parse_csv_hosts}
use freno.Vitess.{Tablet}
use freno.Proxysql.{MySqlConnectionPoolServer}
use freno.Cache.Api.{CacheApi, default_expiration}
use freno.Throttle.Aggregate.{Inputs, aggregate_mysql_probes}
use freno.Throttle.State.{Throttler}
use freno.Throttle.Apps.{expire_throttled_apps}
use freno.Throttle.Hosts.{expire_skipped_hosts}

-- Some text of the list stands in the text.
unfoldable pub contains_any : Text → List Text → Bool
contains_any s [] = false
contains_any s (ignore ∷ rest) = elim (contains s ignore) [
  | true ↦ true
  | false ↦ contains_any s rest
]

unfoldable pub probe_of : MySqlClusterSettings → InstanceKey → Probe
probe_of cluster key = record {
  key = key;
  user = cluster.user;
  password = cluster.password;
  metric_query = cluster.metric_query;
  cache_millis = cluster.cache_millis;
  query_in_progress = pos 0;
  http_check_port = cluster.http_check_port;
  http_check_path = cluster.http_check_path;
  http_check_in_progress = pos 0;
}

-- What the sources of hosts answer for a cluster: the result of reading each HAProxy address with
-- the hosts of its CSV, the servers of ProxySQL, and the tablets of Vitess. `none` is an error.
pub record Sources : Type 0 where
  pub haproxy_read : Option Url → ReadResult
  pub proxysql_servers : Option (List MySqlConnectionPoolServer)
  pub vitess_tablets : Option (List Tablet)

-- The end of a refresh of one cluster: the probes that it sends, an error, or a panic in ParseHosts.
pub data Refreshed : Type 0 where
  sent_probes : ClusterProbes → Refreshed
  not_refreshed : Refreshed
  panicked : Refreshed

-- The hosts of the HAProxy addresses: a failed read ends the refresh, a CSV that is refused is
-- passed over.
pub data HaproxyHosts : Type 0 where
  total_hosts : List Text → HaproxyHosts
  unreadable : HaproxyHosts
  index_panic : HaproxyHosts

csv_hosts : Option (List BackendHost × Option HaproxyError) → Option (List Text)
csv_hosts none = none
csv_hosts (some (hosts, none)) = some (filter_throttler_hosts hosts)
csv_hosts (some (hosts, some e)) = some []

haproxy_hosts : (Option Url → ReadResult) → Text → List (Option Url) → List Text → HaproxyHosts
unfolding csv_hosts
haproxy_hosts read pool_name [] hosts = total_hosts hosts
haproxy_hosts read pool_name (u ∷ addresses) hosts = elim (read u) [
  | csv text ↦ elim (csv_hosts (parse_csv_hosts text pool_name)) [
    | none ↦ index_panic
    | some more ↦ haproxy_hosts read pool_name addresses (hosts ++ more)
  ]
  | _ ↦ unreadable
]

module _ ⦃c : CacheApi⦄ where
  -- addInstanceKey
  unfoldable pub add_instance_key :
      Throttler → Time → InstanceKey → MySqlClusterSettings → Probes → Probes
  unfolding contains_any probe_of
  add_instance_key t now key cluster probes =
      if contains_any (string_code key) cluster.ignore_hosts
      then probes
      else elim (c.get Time t.skipped_hosts now key.hostname) [
        | some expire_at ↦ probes
        | none ↦ if not (is_valid key) then probes else insert key (probe_of cluster key) probes
      ]

  pub add_keys : Throttler → Time → MySqlClusterSettings → List InstanceKey → Probes → Probes
  add_keys t now cluster [] probes = probes
  add_keys t now cluster (key ∷ keys) probes =
      add_keys t now cluster keys (add_instance_key t now key cluster probes)

  host_keys : ℤ → List Text → List InstanceKey
  host_keys port [] = []
  host_keys port (host ∷ hosts) = record { hostname = host; port = port } ∷ host_keys port hosts

  server_keys : List MySqlConnectionPoolServer → List InstanceKey
  server_keys [] = []
  server_keys (s ∷ servers) = record { hostname = s.host; port = s.port } ∷ server_keys servers

  tablet_keys : List Tablet → List InstanceKey
  tablet_keys [] = []
  tablet_keys (t ∷ tablets) =
      record { hostname = t.mysql_hostname; port = t.mysql_port } ∷ tablet_keys tablets

  -- The static hosts in turn: the first that does not parse ends the refresh.
  static_keys : ℤ → List Text → Option (List InstanceKey)
  static_keys port [] = some []
  static_keys port (host ∷ hosts) = elim (parse_instance_key host port) [
    | failed e ↦ none
    | parsed k ↦ elim (static_keys port hosts) [ none ↦ none | some keys ↦ some (k ∷ keys) ]
  ]

  cluster_probes : Throttler → Time → Text → MySqlClusterSettings → List InstanceKey → Refreshed
  cluster_probes t now cluster_name cluster keys = sent_probes (record {
    cluster_name = cluster_name;
    ignore_hosts_count = cluster.ignore_hosts_count;
    ignore_hosts_threshold = cluster.ignore_hosts_threshold;
    instance_probes = add_keys t now cluster keys [];
  })

  from_haproxy : Throttler → Time → Text → MySqlClusterSettings → HaproxyHosts → Refreshed
  unfolding cluster_probes host_keys
  from_haproxy t now name cluster unreadable = not_refreshed
  from_haproxy t now name cluster index_panic = panicked
  from_haproxy t now name cluster (total_hosts []) = not_refreshed
  from_haproxy t now name cluster (total_hosts (h ∷ hosts)) =
      cluster_probes t now name cluster (host_keys cluster.port (h ∷ hosts))

  from_servers :
      Throttler
      → Time
      → Text
      → MySqlClusterSettings
      → Option (List MySqlConnectionPoolServer)
      → Refreshed
  unfolding cluster_probes server_keys
  from_servers t now name cluster none = not_refreshed
  from_servers t now name cluster (some servers) =
      cluster_probes t now name cluster (server_keys servers)

  from_tablets : Throttler → Time → Text → MySqlClusterSettings → Option (List Tablet) → Refreshed
  unfolding cluster_probes tablet_keys
  from_tablets t now name cluster none = not_refreshed
  from_tablets t now name cluster (some tablets) =
      cluster_probes t now name cluster (tablet_keys tablets)

  -- The static hosts' probes come without the counts of ignored hosts.
  from_static :
      Throttler → Time → Text → MySqlClusterSettings → Option (List InstanceKey) → Refreshed
  from_static t now name cluster none = not_refreshed
  from_static t now name cluster (some keys) = sent_probes (record {
    cluster_name = name;
    ignore_hosts_count = pos 0;
    ignore_hosts_threshold = float_zero;
    instance_probes = add_keys t now cluster keys [];
  })

  -- The goroutine of refreshMySQLInventory for one cluster, behind the threshold that it sets.
  unfoldable pub refresh_cluster :
      (Text → Option Url) → Sources → Throttler → Time → Text → MySqlClusterSettings → Refreshed
  unfolding from_haproxy from_servers from_tablets from_static haproxy_hosts static_keys
  refresh_cluster parse_url sources t now cluster_name cluster =
      if not (haproxy_is_empty parse_url cluster.haproxy_settings)
      then from_haproxy t now cluster_name cluster (
          haproxy_hosts sources.haproxy_read cluster.haproxy_settings.pool_name
            (get_proxy_addresses parse_url cluster.haproxy_settings).0 [])
      else if not (proxysql_is_empty cluster.proxysql_settings)
      then from_servers t now cluster_name cluster sources.proxysql_servers
      else if not (vitess_is_empty cluster.vitess_settings)
      then from_tablets t now cluster_name cluster sources.vitess_tablets
      else if not (static_hosts_is_empty cluster.static_hosts_settings)
      then from_static t now cluster_name cluster
          (static_keys cluster.port cluster.static_hosts_settings.hosts)
      else not_refreshed
