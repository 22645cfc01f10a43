-- ===== src/Throttle/VerdictTests.antt =====
-- The theorem on a check after an aggregation at two hosts, one of which may be ignored.
use freno.Prelude.{ℕ, ◌≡◌, ◌≢◌, ◌↔◌, ◌⊎◌, refl, true, false, none, [], ◌∷◌, ◌++◌, arith}
use freno.Go.Text.{Text, codes, str_eq, text_eq}
use freno.Go.Int.{pos, ◌<ℤ◌}
use freno.Go.Float.{Float}
use freno.Go.Dict.{lookup, insert}
use freno.Mysql.Key.{InstanceKey}
use freno.Mysql.Probe.{ClusterProbes}
use freno.Mysql.Inventory.{new_mysql_inventory}
use freno.Mysql.ThrottleMetric.{MySqlThrottleMetric}
use freno.Cache.Table.{table_cache, put, read, found}
use freno.Throttle.State.{Throttler, empty_throttler, get_share_domain_seconds_since_health}
use freno.Throttle.Apps.{throttle_app, new_throttler}
use freno.Throttle.Inventory.{aggregate_mysql_metrics, set_threshold, update_mysql_cluster_probes}
use freno.Throttle.Operate.{
  operate, leader_check, cluster_refresh, incoming_probes, throttle_metric,
}
use freno.Throttle.Check.{check, standard_check_flags, freno_app_name, status_ok}
use freno.Throttle.Check.Laws.{denied, effective_threshold}
use freno.Throttle.Run.{Reached, started, stepped, event}
use freno.Throttle.Run.Verdict.{IsWithin, cluster_inputs, tokens, check-aggregate_mysql_metrics_iff}
use freno.Throttle.Tests.{first, second_key, two_probes}
use freno.Throttle.OperationTests.{cluster}

abbrev app : Text
app = codes "archive"

abbrev store : Text
store = codes "main"

abbrev zeros : ℕ → Float
zeros i = pos 0

abbrev sent : ClusterProbes
sent = record {
  cluster_name = store;
  ignore_hosts_count = pos 1;
  ignore_hosts_threshold = pos 0;
  instance_probes = two_probes;
}

abbrev leading : Throttler
leading = operate false (new_throttler 5) 6 (leader_check true)

abbrev with_threshold : Throttler
with_threshold = operate false leading 7 (cluster_refresh store cluster)

abbrev with_probes : Throttler
with_probes = operate false with_threshold 8 (incoming_probes sent)

-- The first host lags, the second one does not.
abbrev lag_at : InstanceKey → Float → MySqlThrottleMetric
lag_at key value = record { cluster_name = store; key = key; value = value; err = none }

abbrev with_lag : Throttler
with_lag = operate false with_probes 8 (throttle_metric (lag_at first (pos 3)))

abbrev with_metrics : Throttler
with_metrics = operate false with_lag 8 (throttle_metric (lag_at second_key (pos 1)))

reached : Reached with_metrics
reached =
    stepped
      (stepped
        (stepped
          (stepped (stepped (started 5) (event (new_throttler 5) false 6 (leader_check true)))
            (event leading false 7 (cluster_refresh store cluster)))
          (event with_threshold false 8 (incoming_probes sent)))
        (event with_probes false 8 (throttle_metric (lag_at first (pos 3)))))
      (event with_lag false 8 (throttle_metric (lag_at second_key (pos 1))))

abbrev aggregated : Throttler
aggregated = aggregate_mysql_metrics with_metrics 9 false

check-aggregate_mysql_metrics_iff_example :
    ((check aggregated 11 zeros app
        (codes "mysql")
        store
        (codes "local")
        standard_check_flags).0.status_code
      ≡ status_ok)
    ↔ ((app ≢ [])
        × (denied aggregated 11 zeros app store standard_check_flags ≡ false)
        × IsWithin
            (cluster_inputs false with_metrics.mysql_inventory store)
            two_probes
            (tokens with_metrics.mysql_inventory store)
            (effective_threshold standard_check_flags (pos 1))
        × ((app ≡ freno_app_name)
            ⊎ (get_share_domain_seconds_since_health aggregated 11 (codes "mysql" ++ (b'/' ∷ store))
                <ℤ pos 1)))
unfolding operate new_throttler empty_throttler set_threshold update_mysql_cluster_probes lookup
    insert str_eq table_cache put read found throttle_app new_mysql_inventory
check-aggregate_mysql_metrics_iff_example =
    check-aggregate_mysql_metrics_iff with_metrics 9 11 false zeros app store (codes "local")
      standard_check_flags two_probes (pos 1) reached refl refl refl (omega arith)
