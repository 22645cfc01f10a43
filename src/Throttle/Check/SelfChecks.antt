-- ===== src/Throttle/Check/SelfChecks.antt =====
-- pkg/throttle/check.go: SelfChecks, a tick of which checks every aggregated metric, and
-- reportAggregated, which sets the gauges of the metrics. The goroutines of a tick are run in turn,
-- each with its own draws.
use freno.Prelude.{ℕ, suc, Option, none, some, [], ◌∷◌, ◌++◌}
use freno.Go.Text.{Text, codes, text_eq}
use freno.Go.Float.{Float}
use freno.Go.Dict.{Dict, insert}
use freno.Go.Time.{Time}
use freno.Base.Metric.{Error, MetricResult}
use freno.Cache.Api.{CacheApi}
use freno.Throttle.State.{Throttler, aggregated_metrics_snapshot}
use freno.Throttle.Check.{split_metric_tokens, standard_check_flags, local_check}
use freno.Throttle.Run.{Reached, stepped, self_checked}

set_gauge : Dict Text Float → Text × Text → Float × Option Error → Dict Text Float
set_gauge gauges (store_type, store_name) (value, some e) = gauges
set_gauge gauges (store_type, store_name) (value, none) =
    insert (codes "aggregated." ++ (store_type ++ (b'.' ∷ store_name))) value gauges

unfoldable report_aggregated :
    ⦃c : CacheApi⦄ → Dict Text Float → Text → MetricResult → Dict Text Float
unfolding set_gauge
report_aggregated gauges metric_name metric_result = elim (split_metric_tokens metric_name) [
  | none ↦ gauges
  | some tokens ↦ set_gauge gauges tokens metric_result.get
]

module _ ⦃c : CacheApi⦄ (now : Time) (rand rand' : ℕ → ℕ → Float) where
  -- The metrics in turn; `i` counts the goroutines.
  check_each :
      ℕ → Dict Text MetricResult → Throttler × Dict Text Float → Throttler × Dict Text Float
  unfolding report_aggregated
  check_each i [] (t, gauges) = (t, gauges)
  check_each i ((metric_name, metric_result) ∷ metrics) (t, gauges) = check_each (suc i) metrics (
    (local_check t now (rand i) (rand' i) standard_check_flags metric_name).1,
    report_aggregated gauges metric_name metric_result,
  )

  unfoldable self_checks_tick : Throttler × Dict Text Float → Throttler × Dict Text Float
  unfolding check_each
  self_checks_tick (t, gauges) = check_each 0 (aggregated_metrics_snapshot t now) (t, gauges)

  check_each-Reached :
      (i : ℕ) (metrics : Dict Text MetricResult) (t : Throttler) (gauges : Dict Text Float)
      → Reached t
      → Reached (check_each i metrics (t, gauges)).0
  unfolding check_each
  check_each-Reached i [] t gauges r = r
  check_each-Reached i ((metric_name, metric_result) ∷ metrics) t gauges r =
      check_each-Reached (suc i) metrics
        (local_check t now (rand i) (rand' i) standard_check_flags metric_name).1
        (report_aggregated gauges metric_name metric_result)
        (stepped r (self_checked t now (rand i) (rand' i) standard_check_flags metric_name))

  -- A tick of the self checks is a sequence of steps of the throttler.
  self_checks_tick-Reached :
      (t : Throttler) (gauges : Dict Text Float)
      → Reached t
      → Reached (self_checks_tick (t, gauges)).0
  unfolding self_checks_tick
  self_checks_tick-Reached t gauges r =
      check_each-Reached 0 (aggregated_metrics_snapshot t now) t gauges r
