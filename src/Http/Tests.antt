-- ===== src/Http/Tests.antt =====
-- The theorems of the handlers at concrete requests.
use freno.Prelude.{◌+◌, ◌*◌, ◌≤◌, ◌↔◌, ◌≡◌, refl, true, false, none, some, [], arith}
use freno.Go.Text.{codes, str_eq}
use freno.Go.Decimal.{atoi}
use freno.Go.Int.{pos}
use freno.Go.Float.{float_one}
use freno.Base.Metric.{AppThrottle}
use freno.Cache.Api.{IsSteady-new}
use freno.Cache.Table.{table_cache}
use freno.Throttle.State.{Throttler, empty_throttler}
use freno.Throttle.Run.{throttle, sweep_apps, perform, operation, checked}
use freno.Throttle.Run.Between.{Between, at_once, after}
use freno.Go.Utf8.{coerce, coerce_from}
use freno.Throttle.Apps.Laws.{HasSteadyApps}
use freno.Throttle.Check.{check, standard_check_flags, status_expectation_failed}
use freno.Group.Backend.{Stored, Clock}
use freno.Http.{CheckRequest, api_throttle_app, ttl_of, ratio_of}
use freno.Http.Laws.{check-api_throttle_app}
use freno.Http.{expire_at_of}
use freno.Go.Time.{minute}
use freno.Http.Bounds.{expire_at_of_iff}
use freno.Group.Service.{Submission, mysql_service, raft_service, raft_command}
use freno.Group.Fsm.{generic_command}
use freno.Http.Laws.{check-api_throttle_app_ok}

abbrev request : CheckRequest
request = record {
  app = codes "archive";
  store_type = codes "mysql";
  store_name = codes "main";
  forwarded_for = [];
  remote_address = codes "10.0.0.1:4000";
  p = [];
}

abbrev nothing_stored : Stored
nothing_stored = record { throttler = empty_throttler; throttled_rows = []; skipped_rows = [] }

abbrev clock : Clock
clock = record { now = 1000; db_now = 0 }

empty_steady_apps : HasSteadyApps empty_throttler
unfolding empty_throttler
empty_steady_apps = IsSteady-new AppThrottle

-- The state that the request leaves, and what another throttle, a check of the app and a sweep make
-- of it.
abbrev left : Throttler
left =
    (api_throttle_app mysql_service nothing_stored clock false (codes "archive") [] (codes "30")
      (codes "1") (some (pos 1))).0.throttler

abbrev busy : Throttler → Throttler
busy t =
    perform
      (check (perform t 1100 (throttle (codes "copy") 0 (pos 1))) 1200 (λ i. pos 0)
        (codes "archive") (codes "mysql") (codes "main") (codes "local") standard_check_flags).1
      1900 sweep_apps

busy-Between : (t : Throttler) → Between (codes "archive") 2000 t (busy t)
busy-Between t =
    after (after (after at_once (operation _ _ _) (λ h. cc)) (checked _ _ _ _ _ _ _ _) tt)
      (operation _ _ _) (omega arith)

check-api_throttle_app_example :
    (check
      (busy left)
      2000
      (λ i. pos 0)
      (codes "archive")
      (codes "mysql")
      (codes "main")
      (codes "local")
      standard_check_flags).0.status_code
    ≡ status_expectation_failed
unfolding ttl_of ratio_of str_eq atoi float_one
check-api_throttle_app_example =
    check-api_throttle_app nothing_stored clock false (codes "archive") (codes "30") (codes "1")
      (some (pos 1)) 29 (pos 1) (busy left) 2000 (λ i. pos 0) (codes "main") (codes "local")
      standard_check_flags empty_steady_apps refl refl refl (omega arith) (λ i. refl) (omega arith)
      (busy-Between left)

-- The raft store's node leads, and the command is applied.
abbrev submitted : Submission
submitted = record { leads = true; apply_error = none; applied_late = false }

abbrev applied : Throttler
applied =
    (api_throttle_app raft_service empty_throttler clock submitted (codes "archive") [] (codes "30")
      (codes "1") (some (pos 1))).0

check-api_throttle_app_ok_example :
    (check
      (busy applied)
      2000
      (λ i. pos 0)
      (codes "archive")
      (codes "mysql")
      (codes "main")
      (codes "local")
      standard_check_flags).0.status_code
    ≡ status_expectation_failed
unfolding ttl_of ratio_of str_eq atoi float_one raft_command generic_command api_throttle_app coerce
    coerce_from
check-api_throttle_app_ok_example =
    check-api_throttle_app_ok raft_service empty_throttler clock submitted (codes "archive")
      (codes "30") (codes "1") (some (pos 1)) 29 (pos 1) (busy applied) 2000 (λ i. pos 0)
      (codes "main") (codes "local") standard_check_flags empty_steady_apps refl refl refl refl refl
      (omega arith) (λ i. refl) (omega arith) (busy-Between applied)

expire_at_of_iff_example :
    (expire_at_of 70000000000 (pos 153722868) ≡ 70000000000 + 153722868 * minute)
    ↔ (153722868 ≤ 153722867)
expire_at_of_iff_example = expire_at_of_iff 70000000000 153722868 (omega arith)
