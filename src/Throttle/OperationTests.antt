-- ===== src/Throttle/OperationTests.antt =====
-- The theorems on the operations and the checks of the throttler at a concrete state.
use freno.Prelude.{
  List, Option, inl, ℕ, ◌*◌, ◌≡◌, ◌≢◌, ◌↔◌, ◌⊎◌, refl, true, false, ◌&&◌, none, some, [], ◌∷◌, ◌++◌,
  if◌then◌else◌, arith,
}
use freno.Go.Text.{Text, codes, str_eq, text_eq}
use freno.Go.Int.{pos, ◌<ℤ◌, ◌≤ℤ◌}
use freno.Go.Float.{Float}
use freno.Go.Dict.{lookup}
use freno.Go.Time.{Time, second}
use freno.Base.Metric.{MetricResult, AppThrottle}
use freno.Base.Health.{MetricHealthMap}
use freno.Throttle.Check.ShareDomain.{check-collect_share_domain_metric_health}
use freno.Config.Stores.{MySqlClusterSettings}
use freno.Mysql.Key.{key_eq}
use freno.Cache.Api.{IsSteady-new, default_expiration}
use freno.Cache.Table.{table_cache, put, read, found}
use freno.Throttle.State.{
  Throttler, empty_throttler, get_named_metric, get_mysql_cluster_metrics,
  get_share_domain_seconds_since_health, collect_share_domain_metric_health,
}
use freno.Throttle.Apps.{throttle_app, is_app_throttled, expire_throttled_apps}
use freno.Throttle.Apps.Laws.{
  HasSteadyApps, is_app_throttled-expire_throttled_apps, throttle_app-HasSteadyApps,
}
use freno.Throttle.Hosts.Laws.{HasSteadyHosts}
use freno.Throttle.Check.{
  CheckFlags, check, standard_check_flags, freno_app_name, status_ok, status_expectation_failed,
  low_priority_denied,
}
use freno.Throttle.Check.Laws.{denied, effective_threshold, check_ok_iff}
use freno.Throttle.Check.Memory.{check_low_priority_denied}
use freno.Haproxy.Parser.{csv}
use freno.Config.Stores.{
  haproxy_is_empty, proxysql_is_empty, vitess_is_empty, static_hosts_is_empty,
}
use freno.Mysql.Key.{parse_instance_key}
use freno.Mysql.Probe.{ClusterProbes}
use freno.Go.Text.{has_byte}
use freno.Throttle.Refresh.Sent.{IsSound, has_dynamic_source, refresh_cluster-IsSound}
use freno.Throttle.Refresh.{add_keys, probe_of, Sources, sent_probes, refresh_cluster}
use freno.Throttle.Refresh.Laws.{has_key, admissible, lookup-add_keys}
use freno.Throttle.Tests.{first, second_key, two_probes, two_results}

abbrev app : Text
app = codes "archive"

abbrev store : Text
store = codes "main"

-- A draw of 0.
abbrev zeros : ℕ → Float
zeros i = pos 0

empty_steady : HasSteadyApps empty_throttler
unfolding empty_throttler
empty_steady = IsSteady-new AppThrottle

empty_steady_hosts : HasSteadyHosts empty_throttler
unfolding empty_throttler
empty_steady_hosts = IsSteady-new Time

-- The app is throttled at the time 5 up to the time 20.
abbrev throttled : Throttler
throttled = throttle_app empty_throttler 5 app 20 (pos 1)

throttled_steady : HasSteadyApps throttled
throttled_steady = throttle_app-HasSteadyApps empty_throttler 5 app 20 (pos 1) empty_steady

is_app_throttled-expire_throttled_apps_example :
    is_app_throttled (expire_throttled_apps throttled 21) 22 zeros app store
    ≡ is_app_throttled throttled 22 zeros app store
is_app_throttled-expire_throttled_apps_example =
    is_app_throttled-expire_throttled_apps throttled 21 22 zeros app store throttled_steady
      (omega arith)

-- The metric of the store is 3, at a threshold of 1.
abbrev lagging : Throttler
lagging = record empty_throttler {
  mysql_cluster_thresholds =
      table_cache.set Float (table_cache.new Float none) 0 store (pos 1) default_expiration;
  aggregated_metrics =
      table_cache.set MetricResult (table_cache.new MetricResult (some (5 * second))) 0
        (codes "mysql/" ++ store) (record { get = (pos 3, none) }) default_expiration;
}

check_ok_iff_example :
    ((check lagging 9 zeros app
        (codes "mysql")
        store
        (codes "local")
        standard_check_flags).0.status_code
      ≡ status_ok)
    ↔ ((app ≢ [])
        × (denied lagging 9 zeros app store standard_check_flags ≡ false)
        × ((get_mysql_cluster_metrics lagging 9 store).0.get.1 ≡ none)
        × ((get_mysql_cluster_metrics lagging 9 store).0.get.0
            ≤ℤ effective_threshold standard_check_flags
                (get_mysql_cluster_metrics lagging 9 store).1)
        × ((app ≡ freno_app_name)
            ⊎ (get_share_domain_seconds_since_health lagging 9 (codes "mysql" ++ (b'/' ∷ store))
                <ℤ pos 1)))
check_ok_iff_example = check_ok_iff lagging 9 zeros app store standard_check_flags (codes "local")

abbrev low_priority_flags : CheckFlags
low_priority_flags = record standard_check_flags { low_priority = true }

-- By the second check there is no metric any more, and the first check's app is throttled.
abbrev changed : Throttler
changed = record (throttle_app empty_throttler 10 app 0 (pos 1)) {
  non_low_priority_app_requests_throttled =
      (check lagging 9 zeros app (codes "mysql") store (codes "local")
        standard_check_flags).1.non_low_priority_app_requests_throttled;
}

check_low_priority_denied_example :
    (check changed 11 zeros
      (codes "other")
      (codes "mysql")
      store
      (codes "local")
      low_priority_flags).0.status_code
    ≡ status_expectation_failed
unfolding empty_throttler low_priority_denied is_app_throttled get_mysql_cluster_metrics
    get_named_metric table_cache put read found lookup str_eq
check_low_priority_denied_example =
    check_low_priority_denied lagging changed 9 11 zeros zeros app (codes "other") store
      (codes "local") (codes "local") standard_check_flags low_priority_flags refl
      ((λ h. cc), (λ h. cc), refl, refl) refl (refl, omega arith) refl refl (omega arith)

abbrev leader : Throttler
leader = record empty_throttler {
  is_leader = true;
  mysql_inventory = record {
    clusters_probes = (store, two_probes) ∷ [];
    ignore_hosts_count = [];
    ignore_hosts_threshold = [];
    instance_key_metrics = two_results;
    cluster_instance_http_checks = [];
  };
}

abbrev pub cluster : MySqlClusterSettings
cluster = record {
  user = [];
  password = [];
  metric_query = [];
  cache_millis = pos 0;
  throttle_threshold = pos 1;
  port = pos 3306;
  ignore_hosts_count = pos 0;
  ignore_hosts_threshold = pos 0;
  http_check_port = pos 0;
  http_check_path = [];
  ignore_hosts = codes "b" ∷ [];
  haproxy_settings = record { host = []; port = pos 0; addresses = []; pool_name = [] };
  proxysql_settings = record {
    addresses = [];
    user = [];
    password = [];
    hostgroup_id = 0;
    ignore_server_ttl_secs = 0;
  };
  vitess_settings = record { api = []; cells = []; keyspace = []; shard = []; timeout_secs = 0 };
  static_hosts_settings = record { hosts = codes "a" ∷ (codes "b" ∷ []) };
}

-- Another service of the shared domain has been unhealthy for eight seconds.
abbrev answers : List (Option MetricHealthMap)
answers =
    some (
      (codes "mysql/main", record { last_healthy_at = 1; seconds_since_last_healthy = pos 8 }) ∷ [])
    ∷ (none ∷ [])

check-collect_share_domain_metric_health_example :
    (check
      (collect_share_domain_metric_health leader 9 (some answers))
      11
      zeros
      app
      (codes "mysql")
      store
      (codes "local")
      standard_check_flags).0.status_code
    ≢ status_ok
unfolding empty_throttler lookup str_eq table_cache
check-collect_share_domain_metric_health_example =
    check-collect_share_domain_metric_health leader 9 11 answers zeros app store (codes "local")
      standard_check_flags refl refl (omega arith) ((refl, tt), tt) (inl (omega arith)) (λ h. cc)

lookup-add_keys_example :
    lookup first (add_keys leader 9 cluster (first ∷ (second_key ∷ [])) []) ≡ (
      if has_key first (first ∷ (second_key ∷ [])) && admissible leader 9 cluster first
      then some (probe_of cluster first)
      else lookup first [])
lookup-add_keys_example = lookup-add_keys leader 9 cluster (first ∷ (second_key ∷ [])) [] first

-- No source but the fixed list answers.
abbrev sources : Sources
sources = record { haproxy_read = λ u. csv []; proxysql_servers = none; vitess_tablets = none }

-- The probes of the fixed list.
abbrev static_probes : ClusterProbes
static_probes = record {
  cluster_name = store;
  ignore_hosts_count = pos 0;
  ignore_hosts_threshold = pos 0;
  instance_probes = add_keys empty_throttler 9 cluster (first ∷ (second_key ∷ [])) [];
}

refreshed :
    refresh_cluster (λ s. none) sources empty_throttler 9 store cluster ≡ sent_probes static_probes
unfolding refresh_cluster haproxy_is_empty proxysql_is_empty vitess_is_empty static_hosts_is_empty
    parse_instance_key has_byte str_eq
refreshed = refl

refresh_cluster-IsSound_example :
    IsSound empty_throttler 9 store cluster (has_dynamic_source (λ s. none) cluster) static_probes
refresh_cluster-IsSound_example =
    refresh_cluster-IsSound empty_throttler 9 store cluster (λ s. none) sources static_probes
      refreshed
