-- ===== src/Throttle/RunTests.antt =====
-- The theorems on the runs of the throttler at concrete states.
use freno.Prelude.{arith, ℕ, true, ◌≡◌, List, [], ◌∷◌}
use freno.Go.Text.{Text, codes}
use freno.Go.Int.{pos}
use freno.Go.Time.{Time}
use freno.Base.Metric.{AppThrottle}
use freno.Cache.Api.{IsSteady-new}
use freno.Cache.Table.{table_cache}
use freno.Throttle.State.{empty_throttler}
use freno.Throttle.Apps.{throttle_app, new_throttler}
use freno.Throttle.Run.{
  Op, throttle, sweep_apps, skip, recover, sweep_hosts, perform, run, operation, started, stepped,
}
use freno.Throttle.Run.Spec.{view, run_spec, IsSteadyState, run_refines}
use freno.Throttle.Run.Invariant.{IsWellFormed, Reached-IsWellFormed}
use freno.Throttle.Collect
use freno.Throttle.Collect.{
  Collector, new_collector, collect, advance, replace_probes, leader_change, ticked, advanced,
  replaced, elected,
}
use freno.Throttle.Collect.Laws.{IsExclusive, Reached-IsExclusive}
use freno.Go.Dict.{lookup}
use freno.Go.Text.{text_eq}
use freno.Throttle.Check.Counters.{IsOrdered, count_check, count_check-IsOrdered}

abbrev app : Text
app = codes "archive"

abbrev host : Text
host = codes "db-1"

empty-IsSteadyState : IsSteadyState empty_throttler
unfolding empty_throttler
empty-IsSteadyState = (IsSteady-new AppThrottle, IsSteady-new Time)

-- An app is throttled, a host is skipped, the throttle ends, and both sweeps run.
abbrev ops : List (Time × Op)
ops =
    (5, throttle app 20 (pos 1))
    ∷ ((6, skip host 90) ∷ ((21, sweep_apps) ∷ ((22, sweep_hosts) ∷ ((23, recover host) ∷ []))))

run_refines_example : view (run ops empty_throttler) 30 ≡ run_spec ops (view empty_throttler 30)
run_refines_example = run_refines ops empty_throttler 30 empty-IsSteadyState

Reached-IsWellFormed_example : IsWellFormed (throttle_app (new_throttler 5) 6 app 20 (pos 1))
unfolding perform
Reached-IsWellFormed_example =
    Reached-IsWellFormed
      (stepped (started 5) (operation (new_throttler 5) 6 (throttle app 20 (pos 1))))

-- Two goroutines for one probe: the first has passed the flag, the second is turned away.
abbrev answer : Text → ℕ → ℕ
answer cluster_name probe = probe

abbrev collecting : Collector ℕ
collecting =
    collect (collect (leader_change true (replace_probes (codes "main") (1 ∷ []) new_collector)))

Reached-IsExclusive_example : IsExclusive (advance answer 1 (advance answer 0 collecting))
Reached-IsExclusive_example = Reached-IsExclusive answer (
    Collect.stepped
      (Collect.stepped
        (Collect.stepped
          (Collect.stepped
            (Collect.stepped
              (Collect.stepped Collect.new (replaced (codes "main") (1 ∷ []) new_collector))
              (elected true _))
            (ticked _))
          (ticked _))
        (advanced 0 _))
      (advanced 1 _))

-- A check that ends in an internal error is counted in all three ways.
nothing_counted : IsOrdered []
unfolding lookup
nothing_counted p = (omega arith, omega arith)

count_check-IsOrdered_example : IsOrdered (count_check app (codes "mysql") (codes "main") 500 [])
count_check-IsOrdered_example =
    count_check-IsOrdered app (codes "mysql") (codes "main") 500 [] nothing_counted
