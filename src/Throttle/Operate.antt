-- ===== src/Throttle/Operate.antt =====
-- pkg/throttle/throttler.go: the events of Operate. What the program starts as a goroutine that
-- reports by a channel is an event of its own.
use freno.Prelude.{Bool, not, Option, List, if◌then◌else◌}
use freno.Go.Text.{Text, text_eq}
use freno.Go.Dict.{insert}
use freno.Go.Time.{Time}
use freno.Config.Stores.{MySqlClusterSettings}
use freno.Mysql.Key.{key_eq}
use freno.Mysql.Probe.{ClusterProbes, MySqlHttpCheck, hash_key}
use freno.Mysql.Inventory.{cluster_instance_key_eq}
use freno.Mysql.ThrottleMetric.{MySqlThrottleMetric, cluster_instance_key_of, metric_result}
use freno.Cache.Api.{CacheApi}
use freno.Base.Health.{MetricHealthMap}
use freno.Throttle.State.{Throttler, collect_share_domain_metric_health}
use freno.Throttle.Apps.{expire_throttled_apps}
use freno.Throttle.Hosts.{expire_skipped_hosts}
use freno.Throttle.Inventory.{set_threshold, update_mysql_cluster_probes, aggregate_mysql_metrics}

module _ ⦃c : CacheApi⦄ where
  -- The cases of the loop of Operate that change the state, and the operations that it starts.
  pub data Event : Type 0 where
    leader_check : Bool → Event
    throttle_metric : MySqlThrottleMetric → Event
    http_check_result : MySqlHttpCheck → Event
    cluster_refresh : Text → MySqlClusterSettings → Event
    incoming_probes : ClusterProbes → Event
    aggregate_tick : Event
    throttled_apps_tick : Event
    skipped_hosts_tick : Event
    shared_domain_tick : Option (List (Option MetricHealthMap)) → Event

  unfoldable pub operate : Bool → Throttler → Time → Event → Throttler
  operate dial t now (leader_check is_leader) = record t { is_leader = is_leader }
  operate dial t now (throttle_metric metric) = record t {
    mysql_inventory = record t.mysql_inventory {
      instance_key_metrics =
          insert (cluster_instance_key_of metric) (metric_result metric)
            t.mysql_inventory.instance_key_metrics;
    };
  }
  operate dial t now (http_check_result check) = record t {
    mysql_inventory = record t.mysql_inventory {
      cluster_instance_http_checks =
          insert (hash_key check) check.check_result t.mysql_inventory.cluster_instance_http_checks;
    };
  }
  operate dial t now (cluster_refresh name cluster) =
      if not t.is_leader then t else set_threshold t now name cluster
  operate dial t now (incoming_probes p) = update_mysql_cluster_probes t p
  operate dial t now aggregate_tick = aggregate_mysql_metrics t now dial
  operate dial t now throttled_apps_tick = expire_throttled_apps t now
  operate dial t now skipped_hosts_tick = expire_skipped_hosts t now
  operate dial t now (shared_domain_tick answers) = collect_share_domain_metric_health t now answers
