-- ===== src/Throttle/Aggregate.antt =====
-- pkg/throttle/mysql.go: the aggregation of a cluster's probes into one metric.
pub mod Collect
pub mod Trim
pub mod Result
pub mod Rank
use freno.Prelude.{
  ℕ, zero, suc, ◌+◌, ◌-◌, ◌≤◌, ◌≡◌, refl, Bool, true, false, ◌&&◌, not, List, [], ◌∷◌, ◌++◌, Option,
  none, some, arith, ltb, leb, ◌==◌, if◌then◌else◌, length, or_else,
}
use freno.Go.Int.{ℤ, pos, negsuc, ltb_ℤ, pos_part}
use freno.Go.Text.{Text, text_eq}
use freno.Go.Float.{Float, float_zero, sort_floats}
use freno.Go.Dict.{Dict, lookup}
use freno.Base.Metric.{
  MetricResult, Error, is_dial_tcp_error, no_hosts_metric_result, no_metric_result_yet,
  simple_metric_result,
}
use freno.Mysql.Key.{InstanceKey}
use freno.Mysql.Probe.{Probe, Probes, mysql_http_check_hash_key, status_not_found}
use freno.Mysql.Inventory.{
  InstanceMetricResultMap, ClusterInstanceHttpCheckResultMap, get_cluster_instance_key,
  cluster_instance_key_eq,
}

-- The arguments of aggregateMySQLProbes that do not change in the loop.
pub record Inputs : Type 0 where
  pub cluster_name : Text
  pub instance_results_map : InstanceMetricResultMap
  pub cluster_instance_http_checks_map : ClusterInstanceHttpCheckResultMap
  pub ignore_dial_tcp_errors : Bool
  pub ignore_hosts_threshold : Float

-- What the loop finds at one probe, in the order of its tests.
pub data Reading : Type 0 where
  not_found ignored_error unread : Reading
  erred : MetricResult → Reading
  value : Float → Reading

of_get : Bool → MetricResult → Float × Option Error → Reading
of_get ignore_dial_tcp_errors result (v, none) = value v
of_get ignore_dial_tcp_errors result (v, some e) =
    if ignore_dial_tcp_errors && is_dial_tcp_error (some e) then ignored_error else erred result

of_result : Bool → Option MetricResult → Reading
unfolding of_get
of_result ignore_dial_tcp_errors none = unread
of_result ignore_dial_tcp_errors (some result) = of_get ignore_dial_tcp_errors result result.get

unfoldable pub reading : Inputs → Probe → Reading
unfolding of_result
reading i probe =
    if or_else
        (lookup (mysql_http_check_hash_key i.cluster_name probe.key)
          i.cluster_instance_http_checks_map)
        0
      == status_not_found
    then not_found
    else of_result i.ignore_dial_tcp_errors
        (lookup (get_cluster_instance_key i.cluster_name probe.key) i.instance_results_map)

-- `ignoreHostsCount > 0`, with the count after the decrement.
abbrev pub spend : ℤ → Option ℤ
spend (pos (suc n)) = some (pos n)
spend (pos zero) = none
spend (negsuc n) = none

pub data Collected : Type 0 where
  stopped : MetricResult → Collected
  gathered : List Float → ℤ → Collected

-- The loop over the probes, in the order of the iteration.
pub collect : Inputs → Probes → List Float → ℤ → Collected
collect i [] values count = gathered values count
collect i ((k, probe) ∷ probes) values count = elim (reading i probe) [
  | not_found ↦ collect i probes values count
  | ignored_error ↦ collect i probes values count
  | unread ↦ stopped no_metric_result_yet
  | erred result ↦ elim (spend count) [
    | some left ↦ collect i probes values left
    | none ↦ stopped result
  ]
  | value v ↦ collect i probes (values ++ v ∷ []) count
]

-- xs[0:n]
abbrev pub take : ℕ → List Float → List Float
take zero xs = []
take (suc n) [] = []
take (suc n) (x ∷ xs) = x ∷ take n xs

-- xs[n], 0 out of range, where Go panics: `aggregate_mysql_probes` stays in range.
abbrev pub get_or : List Float → ℕ → Float → Float
get_or [] i d = d
get_or (x ∷ xs) zero d = x
get_or (x ∷ xs) (suc i) d = get_or xs i d

-- probeValues[len(probeValues)-1]
pub worst_value : List Float → Float
worst_value values = get_or values (length values - 1) float_zero

pub good_to_ignore : Float → List Float → Bool
unfolding worst_value
good_to_ignore threshold values =
    if leb (length values) 1
    then false
    else if not (ltb_ℤ float_zero threshold)
    then true
    else ltb_ℤ threshold (worst_value values)

-- The loop that spends the remaining tokens on the worst values.
pub trim : ℕ → Float → List Float → List Float
unfolding good_to_ignore
trim zero threshold values = values
trim (suc count) threshold values =
    trim count threshold
      (if good_to_ignore threshold values then take (length values - 1) values else values)

pub worst_of : Float → List Float → ℤ → MetricResult
worst_of threshold [] count = no_hosts_metric_result
worst_of threshold (v ∷ values) count =
    simple_metric_result (worst_value (trim (pos_part count) threshold (sort_floats (v ∷ values))))

of_collected : Float → Collected → MetricResult
unfolding worst_of
of_collected threshold (stopped result) = result
of_collected threshold (gathered values count) = worst_of threshold values count

unfoldable pub aggregate_mysql_probes : Inputs → Probes → ℤ → MetricResult
unfolding of_collected
aggregate_mysql_probes i probes ignore_hosts_count =
    of_collected i.ignore_hosts_threshold (collect i probes [] ignore_hosts_count)
