-- ===== src/Base/Metric.antt =====
-- pkg/base/throttle_metric.go, throttle_metric_app.go and app_throttle.go. A `MetricResult` is an
-- interface with the one method `Get`: it is given by what `Get` returns.
use freno.Prelude.{Bool, false, Option, none, some}
use freno.Go.Text.{Text, codes, has_prefix}
use freno.Go.Float.{Float, float_zero}
use freno.Go.Time.{Time}

-- The program compares these errors by identity. `other` is any error of another package.
pub data Error : Type 0 where
  threshold_exceeded_error no_hosts_error no_result_yet_error no_such_metric_error : Error
  app_denied_error : Error
  other : Text → Error

-- e.Error()
unfoldable pub message : Error → Text
message threshold_exceeded_error = codes "Threshold exceeded"
message no_hosts_error = codes "No hosts found"
message no_result_yet_error = codes "Metric not collected yet"
message no_such_metric_error = codes "No such metric"
message app_denied_error = codes "App denied"
message (other m) = m

unfoldable pub is_dial_tcp_error : Option Error → Bool
is_dial_tcp_error none = false
is_dial_tcp_error (some e) = has_prefix (message e) (codes "dial tcp")

pub record MetricResult : Type 0 where
  pub get : Float × Option Error

unfoldable pub no_hosts_metric_result : MetricResult
no_hosts_metric_result = record { get = (float_zero, some no_hosts_error) }

unfoldable pub no_metric_result_yet : MetricResult
no_metric_result_yet = record { get = (float_zero, some no_result_yet_error) }

unfoldable pub no_such_metric : MetricResult
no_such_metric = record { get = (float_zero, some no_such_metric_error) }

unfoldable pub app_denied_metric : MetricResult
app_denied_metric = record { get = (float_zero, some app_denied_error) }

unfoldable pub simple_metric_result : Float → MetricResult
simple_metric_result value = record { get = (value, none) }

pub record AppThrottle : Type 0 where
  pub expire_at : Time
  pub ratio : Float
