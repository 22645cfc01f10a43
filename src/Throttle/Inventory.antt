-- ===== src/Throttle/Inventory.antt =====
-- pkg/throttle/throttler.go: the inventory of MySQL clusters and its aggregation. What goes to
-- memcache and to the status variables is in Report.
pub mod Laws
use freno.Prelude.{
  ℕ, ◌+◌, Bool, true, false, not, ◌&&◌, Option, none, some, List, [], ◌∷◌, ◌++◌, if◌then◌else◌,
  or_else, length, ◌==◌,
}
use freno.Go.Int.{ℤ, pos}
use freno.Go.Text.{Text, codes, str_eq, contains, text_eq}
use freno.Go.Float.{Float, float_zero}
use freno.Go.Dict.{Dict, lookup, insert}
use freno.Go.Time.{Time}
use freno.Base.Metric.{MetricResult}
use freno.Config.Stores.{
  MySqlClusterSettings, MySqlSettings, Url, haproxy_is_empty, get_proxy_addresses,
  proxysql_is_empty, vitess_is_empty, static_hosts_is_empty,
}
use freno.Mysql.Key.{
  InstanceKey, KeyResult, KeyError, parsed, failed, key_eq, string_code, is_valid,
  parse_instance_key,
}
use freno.Mysql.Probe.{Probe, Probes, ClusterProbes, MySqlHttpCheck, hash_key}
use freno.Mysql.Inventory.{MySqlInventory, cluster_instance_key_eq}
use freno.Mysql.ThrottleMetric.{MySqlThrottleMetric, cluster_instance_key_of, metric_result}
use freno.Haproxy.Host.{BackendHost, filter_throttler_hosts}
use freno.Haproxy.Parser.{HaproxyError, ReadResult, csv, parse_csv_hosts}
use freno.Vitess.{Tablet}
use freno.Proxysql.{MySqlConnectionPoolServer}
use freno.Cache.Api.{CacheApi, default_expiration}
use freno.Throttle.Aggregate.{Inputs, aggregate_mysql_probes}
use freno.Throttle.State.{Throttler}
use freno.Throttle.Apps.{expire_throttled_apps}
use freno.Throttle.Hosts.{expire_skipped_hosts}

module _ ⦃c : CacheApi⦄ where
  unfoldable pub set_threshold : Throttler → Time → Text → MySqlClusterSettings → Throttler
  set_threshold t now cluster_name cluster = record t {
    mysql_cluster_thresholds =
        c.set Float t.mysql_cluster_thresholds now cluster_name cluster.throttle_threshold
          default_expiration;
  }

  unfoldable pub update_mysql_cluster_probes : Throttler → ClusterProbes → Throttler
  update_mysql_cluster_probes t p = record t {
    mysql_inventory = record t.mysql_inventory {
      clusters_probes = insert p.cluster_name p.instance_probes t.mysql_inventory.clusters_probes;
      ignore_hosts_count =
          insert p.cluster_name p.ignore_hosts_count t.mysql_inventory.ignore_hosts_count;
      ignore_hosts_threshold =
          insert p.cluster_name p.ignore_hosts_threshold t.mysql_inventory.ignore_hosts_threshold;
    };
  }

  -- The metric of one cluster of the inventory. A missing key has the zero value.
  unfoldable pub cluster_metric : Bool → MySqlInventory → Text → Probes → MetricResult
  cluster_metric ignore_dial_tcp_errors inventory cluster_name probes =
      aggregate_mysql_probes
        (record {
          cluster_name = cluster_name;
          instance_results_map = inventory.instance_key_metrics;
          cluster_instance_http_checks_map = inventory.cluster_instance_http_checks;
          ignore_dial_tcp_errors = ignore_dial_tcp_errors;
          ignore_hosts_threshold =
              or_else (lookup cluster_name inventory.ignore_hosts_threshold) float_zero;
        })
        probes (or_else (lookup cluster_name inventory.ignore_hosts_count) (pos 0))

  aggregate_clusters :
      Bool → MySqlInventory → Time → Dict Text Probes → c.Cache MetricResult → c.Cache MetricResult
  unfolding cluster_metric
  aggregate_clusters dial inventory now [] m = m
  aggregate_clusters dial inventory now ((name, probes) ∷ rest) m =
      aggregate_clusters dial inventory now rest (
        c.set MetricResult m now (codes "mysql/" ++ name)
          (cluster_metric dial inventory name probes) default_expiration)

  unfoldable pub aggregate_mysql_metrics : Throttler → Time → Bool → Throttler
  unfolding aggregate_clusters
  aggregate_mysql_metrics t now ignore_dial_tcp_errors = if not t.is_leader then t else record t {
    aggregated_metrics =
        aggregate_clusters ignore_dial_tcp_errors t.mysql_inventory now
          t.mysql_inventory.clusters_probes t.aggregated_metrics;
  }
