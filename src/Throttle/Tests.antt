-- ===== src/Throttle/Tests.antt =====
-- The theorems of the throttler at concrete states: a leader with one cluster of two hosts.
use mathlib.Core.List.{perm_append_comm}
use freno.Prelude.{◌-◌, ◌≤◌, ◌≡◌, ◌≢◌, ◌↔◌, refl, false, none, [], ◌∷◌, arith, length}
use freno.Go.Text.{codes, str_eq, text_eq}
use freno.Go.Int.{pos, pos_part}
use freno.Go.Float.{float_zero, sort_floats}
use freno.Go.Dict.{lookup}
use freno.Base.Metric.{simple_metric_result}
use freno.Mysql.Key.{InstanceKey, key_eq, equals}
use freno.Mysql.Probe.{Probe, Probes}
use freno.Mysql.Inventory.{
  InstanceMetricResultMap, get_cluster_instance_key, same_key, cluster_instance_key_eq,
}
use freno.Cache.Table.{table_cache}
use freno.Throttle.Aggregate.{Inputs, aggregate_mysql_probes, reading, get_or}
use freno.Throttle.Aggregate.Collect.{values_of, errors_of, unreads_of}
use freno.Throttle.Aggregate.Result.{
  ranked, ignored_values, aggregate_mysql_probes-ranked, aggregate_mysql_probes_succeeds,
  aggregate_mysql_probes-eq_of_perm,
}

abbrev pub first : InstanceKey
first = record { hostname = codes "a"; port = pos 3306 }

abbrev pub second_key : InstanceKey
second_key = record { hostname = codes "b"; port = pos 3306 }

abbrev pub probe_at : InstanceKey → Probe
probe_at k = record {
  key = k;
  user = [];
  password = [];
  metric_query = [];
  cache_millis = pos 0;
  query_in_progress = pos 0;
  http_check_port = pos 0;
  http_check_path = [];
  http_check_in_progress = pos 0;
}

abbrev pub two_probes : Probes
two_probes = (first, probe_at first) ∷ ((second_key, probe_at second_key) ∷ [])

abbrev swapped_probes : Probes
swapped_probes = (second_key, probe_at second_key) ∷ ((first, probe_at first) ∷ [])

abbrev pub two_results : InstanceMetricResultMap
two_results =
    (record { cluster_name = codes "main"; key = first }, record { get = (pos 3, none) })
    ∷ ((record { cluster_name = codes "main"; key = second_key }, record { get = (pos 1, none) })
        ∷ [])

abbrev two_hosts : Inputs
two_hosts = record {
  cluster_name = codes "main";
  instance_results_map = two_results;
  cluster_instance_http_checks_map = [];
  ignore_dial_tcp_errors = false;
  ignore_hosts_threshold = float_zero;
}

aggregate_mysql_probes-ranked_example :
    aggregate_mysql_probes two_hosts two_probes (pos 1)
    ≡ simple_metric_result (
        get_or
          (ranked two_hosts two_probes)
          (length (ranked two_hosts two_probes) - ignored_values two_hosts two_probes (pos 1) - 1)
          float_zero)
unfolding values_of errors_of unreads_of reading lookup get_cluster_instance_key same_key equals
    str_eq
aggregate_mysql_probes-ranked_example =
    aggregate_mysql_probes-ranked two_hosts two_probes (pos 1) refl (omega arith) (λ h. cc)

-- One of the two hosts is ignored, and the value of the other one stays.
ranked_value :
    get_or
      (ranked two_hosts two_probes)
      (length (ranked two_hosts two_probes) - ignored_values two_hosts two_probes (pos 1) - 1)
      float_zero
    ≡ pos 1
unfolding values_of errors_of reading lookup get_cluster_instance_key same_key equals str_eq
    sort_floats
ranked_value = refl

aggregate_mysql_probes_succeeds_example :
    ((aggregate_mysql_probes two_hosts two_probes (pos 0)).get.1 ≡ none) ↔ (
      (unreads_of two_hosts two_probes ≡ 0)
      × (errors_of two_hosts two_probes ≤ pos_part (pos 0))
      × (values_of two_hosts two_probes ≢ []))
aggregate_mysql_probes_succeeds_example =
    aggregate_mysql_probes_succeeds two_hosts two_probes (pos 0)

aggregate_mysql_probes-eq_of_perm_example :
    aggregate_mysql_probes two_hosts two_probes (pos 1)
    ≡ aggregate_mysql_probes two_hosts swapped_probes (pos 1)
unfolding values_of errors_of unreads_of reading lookup get_cluster_instance_key same_key equals
    str_eq
aggregate_mysql_probes-eq_of_perm_example =
    aggregate_mysql_probes-eq_of_perm two_hosts two_probes swapped_probes (pos 1)
      (perm_append_comm ((first, probe_at first) ∷ []) ((second_key, probe_at second_key) ∷ []))
      refl (omega arith)
