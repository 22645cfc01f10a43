-- ===== src/Throttle/Check.antt =====
-- pkg/throttle/check.go and check_result.go, with AppRequestMetricResult of throttler.go. What the
-- program starts as a goroutine is done in the same step, after the answer. Counters has the counters
-- of the package metrics, SelfChecks the gauges.
pub mod Laws
pub mod SelfChecks
pub mod Counters
pub mod Memory
pub mod Frame
pub mod ShareDomain
use freno.Prelude.{
  ℕ, ◌+◌, Bool, true, false, not, ◌&&◌, ◌||◌, Option, none, some, List, [], ◌∷◌, ◌++◌,
  if◌then◌else◌, ◌==◌,
}
use freno.Go.Text.{Text, codes, str_eq, split, text_eq}
use freno.Go.Int.{ℤ, pos, ltb_ℤ}
use freno.Go.Float.{Float, float_zero}
use freno.Go.Time.{Time}
use freno.Base.Metric.{
  Error, MetricResult, message, app_denied_error, no_such_metric_error, threshold_exceeded_error,
  other, no_hosts_error, no_result_yet_error, app_denied_metric,
}
use freno.Cache.Api.{CacheApi, default_expiration}
use freno.Throttle.State.{
  Throttler, get_mysql_cluster_metrics, mark_recent_app, mark_metric_healthy,
  get_share_domain_seconds_since_health,
}
use freno.Throttle.Apps.{is_app_throttled}

abbrev pub status_ok : ℕ
status_ok = 200

abbrev pub status_not_found : ℕ
status_not_found = 404

abbrev pub status_expectation_failed : ℕ
status_expectation_failed = 417

abbrev pub status_too_many_requests : ℕ
status_too_many_requests = 429

abbrev pub status_internal_server_error : ℕ
status_internal_server_error = 500

abbrev pub freno_app_name : Text
freno_app_name = codes "freno"

abbrev pub freno_share_domain_app_name : Text
freno_share_domain_app_name = codes "freno-share-domain"

pub record CheckFlags : Type 0 where
  pub read_check : Bool
  pub override_threshold : Float
  pub low_priority : Bool
  pub ok_if_not_exists : Bool

abbrev pub standard_check_flags : CheckFlags
standard_check_flags = record {
  read_check = false;
  override_threshold = float_zero;
  low_priority = false;
  ok_if_not_exists = false;
}

pub record CheckResult : Type 0 where
  pub status_code : ℕ
  pub value : Float
  pub threshold : Float
  pub error : Option Error
  pub message : Text

message_of : Option Error → Text
message_of none = []
message_of (some e) = message e

unfoldable pub new_check_result : ℕ → Float → Float → Option Error → CheckResult
unfolding message_of
new_check_result status_code value threshold error = record {
  status_code = status_code;
  value = value;
  threshold = threshold;
  error = error;
  message = message_of error;
}

unfoldable pub new_error_check_result : ℕ → Option Error → CheckResult
unfolding new_check_result
new_error_check_result status_code error = new_check_result status_code float_zero float_zero error

unfoldable pub no_such_metric_check_result : CheckResult
unfolding new_error_check_result
no_such_metric_check_result = new_error_check_result status_not_found (some no_such_metric_error)

-- What the chain of tests finds: a status with the error, and whether later requests of low
-- priority are to be denied.
pub record Verdict : Type 0 where
  pub status : ℕ
  pub reason : Option Error
  pub deny_low_priority : Bool

-- The value is compared only where the metric has no error.
judge_value : CheckFlags → Bool → Bool → ℤ → Verdict
judge_value flags is_freno exceeds seconds_since_health =
    if exceeds
    then record {
      status = status_too_many_requests;
      reason = some threshold_exceeded_error;
      deny_low_priority = not flags.low_priority && (not flags.read_check && not is_freno);
    }
    else if not is_freno && not (ltb_ℤ seconds_since_health (pos 1))
    then record {
      status = status_too_many_requests;
      reason = some threshold_exceeded_error;
      deny_low_priority = false;
    }
    else record { status = status_ok; reason = none; deny_low_priority = false }

judge : Option Error → Verdict → Verdict
judge none on_value = on_value
judge (some app_denied_error) on_value = record {
  status = status_expectation_failed;
  reason = some app_denied_error;
  deny_low_priority = false;
}
judge (some no_such_metric_error) on_value = record {
  status = status_not_found;
  reason = some no_such_metric_error;
  deny_low_priority = false;
}
judge (some e) on_value = record {
  status = status_internal_server_error;
  reason = some e;
  deny_low_priority = false;
}

module _ ⦃c : CacheApi⦄ where
  -- AppRequestMetricResult; `metric` is what `metricResultFunc` returns.
  unfoldable pub app_request_metric_result :
      Throttler
      → Time
      → (ℕ → Float)
      → Text
      → Text
      → MetricResult × Float
      → Bool
      → MetricResult × Float
  app_request_metric_result t now rand app_name store_name metric deny_app =
      if deny_app
      then (app_denied_metric, float_zero)
      else if is_app_throttled t now rand app_name store_name
      then (app_denied_metric, float_zero)
      else metric

  -- A low priority request is denied while a request of normal priority has recently been throttled.
  unfoldable pub low_priority_denied : Throttler → Time → CheckFlags → Text → Bool
  low_priority_denied t now flags metric_name =
      if flags.low_priority
      then elim (c.get Bool t.non_low_priority_app_requests_throttled now metric_name) [
        | some b ↦ true
        | none ↦ false
      ]
      else false

  mark_denied : Bool → Time → Text → Throttler → Throttler
  mark_denied deny now metric_name t =
      if deny
      then record t {
        non_low_priority_app_requests_throttled =
            c.set Bool t.non_low_priority_app_requests_throttled now metric_name true
              default_expiration;
      }
      else t

  unfoldable pub check_app_metric_result :
      Throttler
      → Time
      → (ℕ → Float)
      → Text
      → Text
      → Text
      → MetricResult × Float
      → CheckFlags
      → CheckResult × Throttler
  unfolding app_request_metric_result low_priority_denied judge judge_value mark_denied
  check_app_metric_result t now rand app_name store_type store_name metric flags =
      let metric_name = store_type ++ (b'/' ∷ store_name) in
      let deny_app = low_priority_denied t now flags metric_name in
      let answer = app_request_metric_result t now rand app_name store_name metric deny_app in
      let threshold =
        if ltb_ℤ float_zero flags.override_threshold then flags.override_threshold else answer.1 in
      let value = answer.0.get.0 in
      let error = answer.0.get.1 in
      let verdict = judge error (
        judge_value flags (str_eq app_name freno_app_name) (ltb_ℤ threshold value)
          (get_share_domain_seconds_since_health t now metric_name)) in
      if str_eq app_name []
      then (
        new_check_result status_expectation_failed value threshold
            (some (other (codes "no app indicated"))),
        t,
      )
      else (
        new_check_result verdict.status value threshold verdict.reason,
        mark_denied verdict.deny_low_priority now metric_name t,
      )

  unfoldable pub check :
      Throttler
      → Time
      → (ℕ → Float)
      → Text
      → Text
      → Text
      → Text
      → CheckFlags
      → CheckResult × Throttler
  check t now rand app_name store_type store_name remote_addr flags =
      if str_eq store_type (codes "mysql")
      then (let answer =
            check_app_metric_result t now rand app_name store_type store_name
              (get_mysql_cluster_metrics t now store_name) flags in
          (answer.0, mark_recent_app answer.1 now app_name remote_addr))
      else (no_such_metric_check_result, t)

  unfoldable pub split_metric_tokens : Text → Option (Text × Text)
  split_metric_tokens metric_name = elim (split metric_name b'/') [
    | store_type ∷ (store_name ∷ []) ↦ some (store_type, store_name)
    | _ ↦ none
  ]

  -- The flags are the object StandardCheckFlags, whose field LowPriority the handlers of write
  -- checks set. The second check, of the app of the shared domain, is made for its counters. It
  -- draws its own random values.
  unfoldable pub local_check :
      Throttler → Time → (ℕ → Float) → (ℕ → Float) → CheckFlags → Text → CheckResult × Throttler
  local_check t now rand rand' flags metric_name = elim (split_metric_tokens metric_name) [
    | none ↦ (no_such_metric_check_result, t)
    | some (store_type, store_name) ↦
        let (result, t') =
          check t now rand freno_app_name store_type store_name (codes "local") flags in
        let (shared, t'') =
          check t' now rand' freno_share_domain_app_name store_type store_name (codes "local")
            flags in
        (
          result,
          if result.status_code == status_ok then mark_metric_healthy t'' now metric_name else t'',
        )
  ]
