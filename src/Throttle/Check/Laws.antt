-- ===== src/Throttle/Check/Laws.antt =====
-- The laws of a check: when it is answered with each status, and what it remembers.
use freno.Prelude.{
  ℕ, ◌≡◌, ◌≢◌, ◌↔◌, ◌⊎◌, Bool, true, false, ◌||◌, none, [], ◌∷◌, ◌++◌, if◌then◌else◌, arith,
}
use freno.Go.Text.{Text, codes, str_eq, str_eq_iff, text_eq}
use freno.Go.Int.{pos, ltb_ℤ, ◌<ℤ◌, ◌≤ℤ◌}
use freno.Go.Float.{Float, float_zero}
use freno.Go.Time.{Time}
use freno.Base.Metric.{MetricResult, app_denied_metric}
use freno.Cache.Api.{CacheApi}
use freno.Throttle.State.{
  Throttler, get_mysql_cluster_metrics, get_share_domain_seconds_since_health,
}
use freno.Throttle.Apps.{is_app_throttled}
use freno.Throttle.Check.{
  CheckFlags, check_app_metric_result, check, low_priority_denied, new_check_result, freno_app_name,
  status_ok, status_expectation_failed,
}

-- The threshold of a check: the one of the flags, if that is positive.
abbrev pub effective_threshold : CheckFlags → Float → Float
effective_threshold flags threshold =
    if ltb_ℤ float_zero flags.override_threshold then flags.override_threshold else threshold

module _ ⦃c : CacheApi⦄ (t : Throttler) (now : Time) (rand : ℕ → Float) (app_name store_name : Text)
    (flags : CheckFlags) where
  abbrev metric_name : Text
  metric_name = codes "mysql" ++ (b'/' ∷ store_name)

  abbrev metric : MetricResult × Float
  metric = get_mysql_cluster_metrics t now store_name

  -- The request is denied whatever the metric.
  abbrev pub denied : Bool
  denied =
      low_priority_denied t now flags metric_name || is_app_throttled t now rand app_name store_name

  -- A check of a MySQL store is answered with 200 exactly when the app is named, is not denied, the
  -- metric has no error, its value is not above the threshold, and the app is freno itself or the
  -- shared domain was last healthy less than a second ago by the health that is kept for the
  -- metric, or no such health is kept.
  pub check_ok_iff :
      (remote_addr : Text)
      → ((check t now rand app_name (codes "mysql") store_name remote_addr flags).0.status_code
          ≡ status_ok)
        ↔ ((app_name ≢ [])
            × (denied ≡ false)
            × (metric.0.get.1 ≡ none)
            × (metric.0.get.0 ≤ℤ effective_threshold flags metric.1)
            × ((app_name ≡ freno_app_name)
                ⊎ (get_share_domain_seconds_since_health t now metric_name <ℤ pos 1)))
  unfolding check check_app_metric_result new_check_result app_denied_metric str_eq
  check_ok_iff remote_addr =
      ground (arith, str_eq_iff app_name [], str_eq_iff app_name freno_app_name)

module _ ⦃c : CacheApi⦄ where
  -- A throttled app is denied whatever the metric and the flags.
  pub check_denied :
      (t : Throttler) (now : Time) (rand : ℕ → Float) (app_name store_name remote_addr : Text)
      (flags : CheckFlags)
      → is_app_throttled t now rand app_name store_name ≡ true
      → (check t now rand app_name (codes "mysql") store_name remote_addr flags).0.status_code
        ≡ status_expectation_failed
  unfolding check check_app_metric_result new_check_result app_denied_metric str_eq
  check_denied t now rand app_name store_name remote_addr flags h =
      ground (arith, str_eq_iff app_name [])
