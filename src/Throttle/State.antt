-- ===== src/Throttle/State.antt =====
-- pkg/throttle/throttler.go: the state of the throttler, its construction, and the operations that
-- only read or write one cache. The channels, the clients of memcache, ProxySQL and HTTP, and the
-- mutexes are not part of the state: each operation is one step, at the time `now`.
pub mod Health
use freno.Prelude.{ℕ, ◌*◌, Bool, false, Option, none, some, List, [], ◌∷◌, ◌++◌, if◌then◌else◌}
use freno.Go.Int.{ℤ, pos}
use freno.Go.Text.{Text, codes, text_eq}
use freno.Go.Float.{Float, float_zero}
use freno.Go.Dict.{Dict}
use freno.Go.Time.{Time, second, since}
use freno.Base.Metric.{MetricResult, AppThrottle, no_such_metric}
use freno.Base.Health.{
  MetricHealth, MetricHealthMap, new_metric_health, RecentApp, new_recent_app, aggregate,
}
use freno.Mysql.Inventory.{MySqlInventory, new_mysql_inventory}
use freno.Cache.Api.{CacheApi, default_expiration}

abbrev pub aggregated_metrics_expiration : ℕ
aggregated_metrics_expiration = 5 * second

abbrev pub recent_apps_expiration : ℕ
recent_apps_expiration = 86400 * second

abbrev pub non_deprioritized_app_map_expiration : ℕ
non_deprioritized_app_map_expiration = second

abbrev pub shared_domain_collect_interval : ℕ
shared_domain_collect_interval = second

module _ ⦃c : CacheApi⦄ where
  pub record Throttler : Type 0 where
    pub is_leader : Bool
    pub mysql_inventory : MySqlInventory
    pub mysql_cluster_thresholds : c.Cache Float
    pub aggregated_metrics : c.Cache MetricResult
    pub throttled_apps : c.Cache AppThrottle
    pub skipped_hosts : c.Cache Time
    pub recent_apps : c.Cache Time
    pub metrics_health : c.Cache Time
    pub share_domain_metric_health : c.Cache MetricHealth
    pub non_low_priority_app_requests_throttled : c.Cache Bool

  -- NewThrottler before its call of ThrottleApp.
  unfoldable pub empty_throttler : Throttler
  empty_throttler = record {
    is_leader = false;
    mysql_inventory = new_mysql_inventory;
    mysql_cluster_thresholds = c.new Float none;
    aggregated_metrics = c.new MetricResult (some aggregated_metrics_expiration);
    throttled_apps = c.new AppThrottle none;
    skipped_hosts = c.new Time none;
    recent_apps = c.new Time (some recent_apps_expiration);
    metrics_health = c.new Time none;
    share_domain_metric_health = c.new MetricHealth (some (5 * shared_domain_collect_interval));
    non_low_priority_app_requests_throttled =
        c.new Bool (some non_deprioritized_app_map_expiration);
  }

  unfoldable pub get_named_metric : Throttler → Time → Text → MetricResult
  get_named_metric t now metric_name =
      elim (c.get MetricResult t.aggregated_metrics now metric_name) [
        | some result ↦ result
        | none ↦ no_such_metric
      ]

  unfoldable pub get_mysql_cluster_metrics : Throttler → Time → Text → MetricResult × Float
  unfolding get_named_metric
  get_mysql_cluster_metrics t now cluster_name =
      elim (c.get Float t.mysql_cluster_thresholds now cluster_name) [
        | some threshold ↦ (get_named_metric t now (codes "mysql/" ++ cluster_name), threshold)
        | none ↦ (no_such_metric, float_zero)
      ]

  unfoldable pub aggregated_metrics_snapshot : Throttler → Time → Dict Text MetricResult
  aggregated_metrics_snapshot t now = c.items MetricResult t.aggregated_metrics now

  unfoldable pub mark_recent_app : Throttler → Time → Text → Text → Throttler
  mark_recent_app t now app_name remote_addr = record t {
    recent_apps =
        c.set Time t.recent_apps now (app_name ++ (b'/' ∷ remote_addr)) now default_expiration;
  }

  map_values : (Time → RecentApp) → Dict Text Time → Dict Text RecentApp
  map_values f [] = []
  map_values f ((k, v) ∷ m) = (k, f v) ∷ map_values f m

  unfoldable pub recent_apps_map : Throttler → Time → Dict Text RecentApp
  unfolding map_values
  recent_apps_map t now = map_values (new_recent_app now) (c.items Time t.recent_apps now)

  unfoldable pub mark_metric_healthy : Throttler → Time → Text → Throttler
  mark_metric_healthy t now metric_name = record t {
    metrics_health = c.set Time t.metrics_health now metric_name now default_expiration;
  }

  -- The pair of a duration and `found`.
  unfoldable pub time_since_metric_healthy : Throttler → Time → Text → Option ℕ
  time_since_metric_healthy t now metric_name = elim (c.get Time t.metrics_health now metric_name) [
    | some last_ok_time ↦ some (since now last_ok_time)
    | none ↦ none
  ]

  health_of : Time → Dict Text Time → MetricHealthMap
  health_of now [] = []
  health_of now ((k, v) ∷ m) = (k, new_metric_health now v) ∷ health_of now m

  unfoldable pub metrics_health_snapshot : Throttler → Time → MetricHealthMap
  unfolding health_of
  metrics_health_snapshot t now = health_of now (c.items Time t.metrics_health now)

  unfoldable pub get_share_domain_seconds_since_health : Throttler → Time → Text → ℤ
  get_share_domain_seconds_since_health t now metric_name =
      elim (c.get MetricHealth t.share_domain_metric_health now metric_name) [
        | some health ↦ health.seconds_since_last_healthy
        | none ↦ pos 0
      ]

  -- The health maps that the services of the shared domain answer; `none` where a request, the read
  -- of its body or its decoding fails, which the program logs.
  merge_health : MetricHealthMap → List (Option MetricHealthMap) → MetricHealthMap
  merge_health m [] = m
  merge_health m (none ∷ rest) = merge_health m rest
  merge_health m (some other ∷ rest) = merge_health (aggregate m other) rest

  store_health : Time → MetricHealthMap → c.Cache MetricHealth → c.Cache MetricHealth
  store_health now [] m = m
  store_health now ((name, health) ∷ rest) m =
      store_health now rest (c.set MetricHealth m now name health default_expiration)

  -- The answers are `none` where `sharedDomainServicesFunc` fails.
  unfoldable pub collect_share_domain_metric_health :
      Throttler → Time → Option (List (Option MetricHealthMap)) → Throttler
  unfolding merge_health store_health
  collect_share_domain_metric_health t now none = t
  collect_share_domain_metric_health t now (some answers) =
      if t.is_leader
      then record t {
        share_domain_metric_health =
            store_health now (merge_health [] answers) t.share_domain_metric_health;
      }
      else t
