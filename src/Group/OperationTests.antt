-- ===== src/Group/OperationTests.antt =====
-- The theorem on the throttles that outlive a leader at a concrete state.
use freno.Prelude.{◌≡◌, refl, true, false, [], ◌∷◌, arith}
use freno.Go.Text.{Text, codes, str_eq, text_eq}
use freno.Go.Int.{pos}
use freno.Go.Dict.{lookup}
use freno.Base.Metric.{AppThrottle}
use freno.Cache.Api.{IsSteady-new}
use freno.Cache.Table.{table_cache}
use freno.Throttle.State.{Throttler, empty_throttler}
use freno.Throttle.Run.{throttle, sweep_apps, perform, operation}
use freno.Throttle.Run.Between.{at_once, after}
use freno.Throttle.Apps.Laws.{HasSteadyApps}
use freno.Throttle.Check.{check, standard_check_flags, status_expectation_failed}
use freno.Group.Election.{ElectionRow}
use freno.Group.Backend.{Stored, Clock}
use freno.Group.Backend
use freno.Group.Operations.{Service, elections, tick}
use freno.Group.Operations.Laws.{check-failover}

abbrev as_is : Text → Text
as_is s = s

empty-HasSteadyApps : HasSteadyApps empty_throttler
unfolding empty_throttler
empty-HasSteadyApps = IsSteady-new AppThrottle

-- The leader throttles an app for an hour.
abbrev leader : Stored
leader = record { throttler = empty_throttler; throttled_rows = []; skipped_rows = [] }

abbrev written : Clock
written = record { now = 70000000000; db_now = 100 }

-- Ten seconds later it has stopped, and another service tries.
abbrev read : Clock
read = record { now = 90000000000; db_now = 110 }

abbrev held : ElectionRow
held = record {
  row_domain = codes "dc:prod";
  row_share_domain = [];
  row_service_id = codes "one:9777";
  last_seen_active = 100;
}

abbrev follower : Service
follower = record {
  backend = record {
    domain = codes "dc:prod";
    share_domain = [];
    service_id = codes "two:9777";
    leader_state = false;
    health_state = true;
  };
  stored = record {
    throttler = empty_throttler;
    throttled_rows =
        (Backend.throttle leader written true (codes "archive") (pos 60) 3670000000000
          (pos 5)).0.throttled_rows;
    skipped_rows = [];
  };
  election = (codes "dc:prod", held) ∷ [];
  health = [];
}

-- After its tick the new leader throttles another app and sweeps the throttles.
abbrev later_on : Throttler
later_on =
    perform
      (perform (tick as_is follower read (elections true true)).stored.throttler 90000000001
        (throttle (codes "copy") 0 (pos 1)))
      2000000000000 sweep_apps

check-failover_example :
    (check later_on 3000000000000
      (λ i. pos 0)
      (codes "archive")
      (codes "mysql")
      (codes "main")
      (codes "10.0.0.1")
      standard_check_flags).0.status_code
    ≡ status_expectation_failed
unfolding lookup str_eq
check-failover_example =
    check-failover as_is leader follower written read (codes "archive") 59 3670000000000 later_on
      3000000000000 (pos 5) (λ i. pos 0) (codes "main") (codes "10.0.0.1") standard_check_flags
      empty-HasSteadyApps tt refl refl refl refl (omega arith) (ground arith) (λ i. refl)
      (omega arith)
      (after (after at_once (operation _ _ _) (λ h. cc)) (operation _ _ _) (omega arith))
