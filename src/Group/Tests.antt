-- ===== src/Group/Tests.antt =====
-- The theorems of the election, of the backend's tables and of the raft state machine at concrete
-- states.
use freno.Prelude.{ℕ, ◌≡◌, refl, true, false, none, some, List, [], ◌∷◌, inl, arith}
use freno.Go.Text.{Text, codes, str_eq, to_lower, text_eq}
use freno.Go.Int.{pos}
use freno.Go.Dict.{Dict, lookup}
use freno.Go.Time.{Time}
use freno.Base.Metric.{AppThrottle}
use freno.Cache.Api.{IsSteady-new}
use freno.Cache.Table.{table_cache}
use freno.Throttle.State.{empty_throttler}
use freno.Throttle.Apps.{is_app_throttled}
use freno.Throttle.Apps.Laws.{HasSteadyApps, throttle_of}
use freno.Group.Election.{
  ElectionRow, Backend, ServiceElection, attempt_leadership, read_leadership,
}
use freno.Group.Election.Laws.{
  leaves_to, attempts, attempts_keep_leader, read_leadership-attempt_leadership,
}
use freno.Group.Backend.{Clock, ThrottledRow, read_throttled_apps}
use freno.Group.Backend.Laws.{taken_over, throttle_of-read_throttled_apps}
use freno.Group.Fsm.{Command, throttle_command, snapshot, restore, replay}
use freno.Group.Snapshot.{
  FieldNames, Value, throttles, times, object_of, persist, marshal_snapshot, snapshot_data_fields,
}
use freno.Throttle.Apps.{throttle_app, throttled_apps_map}
use freno.Go.Utf8.{coerce}
use freno.Throttle.State.{Throttler}
use freno.Throttle.Hosts.{skip_host, skipped_hosts_map}
use freno.Throttle.Hosts.Laws.{skip_of}
use freno.Group.Fsm.Restore.{restored_throttle, restored_skip, restore-persist}
use freno.Group.Fsm.Laws.{first_log, second_log, is_app_throttled-replay}

-- A binary collation.
abbrev as_is : Text → Text
as_is s = s

abbrev one : Backend
one = record {
  domain = codes "dc:prod";
  share_domain = [];
  service_id = codes "one:9777";
  leader_state = false;
  health_state = true;
}

abbrev two : Backend
two = record one { service_id = codes "two:9777" }

abbrev held : ElectionRow
held = record {
  row_domain = codes "dc:prod";
  row_share_domain = [];
  row_service_id = codes "one:9777";
  last_seen_active = 100;
}

abbrev elected : ServiceElection
elected = (codes "dc:prod", held) ∷ []

-- The other service tries, the holder renews, and the other one tries again.
abbrev contest : List (Backend × ℕ)
contest = (two, 103) ∷ ((one, 104) ∷ ((two, 109) ∷ []))

attempts_keep_leader_example : (read_leadership as_is one (attempts as_is contest elected)).0 ≡ true
unfolding lookup str_eq
attempts_keep_leader_example =
    attempts_keep_leader as_is one held contest elected refl refl
      (omega arith, (omega arith, (omega arith, tt)))

read_leadership-attempt_leadership_example :
    (read_leadership as_is two (attempt_leadership as_is two 106 elected)).0
    ≡ leaves_to as_is two 106 (lookup (codes "dc:prod") elected)
read_leadership-attempt_leadership_example =
    read_leadership-attempt_leadership as_is two 106 elected

empty_steady_apps : HasSteadyApps empty_throttler
unfolding empty_throttler
empty_steady_apps = IsSteady-new AppThrottle

abbrev clock : Clock
clock = record { now = 70000000000; db_now = 200 }

abbrev stored_rows : Dict Text ThrottledRow
stored_rows = (codes "archive", record { expires_at = some 230; row_ratio = pos 1 }) ∷ []

throttle_of-read_throttled_apps_example :
    throttle_of
      (read_throttled_apps clock stored_rows empty_throttler)
      71000000000
      (codes "archive")
    ≡ elim (lookup (codes "archive") stored_rows) [
      | none ↦ throttle_of empty_throttler 71000000000 (codes "archive")
      | some row ↦ taken_over clock row (throttle_of empty_throttler 71000000000 (codes "archive"))
    ]
unfolding lookup str_eq
throttle_of-read_throttled_apps_example =
    throttle_of-read_throttled_apps stored_rows clock empty_throttler 71000000000 (codes "archive")
      empty_steady_apps (refl, tt) (ground arith, ground arith, inl (omega arith))

-- The second replica reaches the commands when the first throttle has ended.
abbrev log : List (Command × (Time × Time))
log =
    (throttle_command (codes "archive") 20 (pos 1), (5, 30))
    ∷ ((throttle_command (codes "copy") 90 (pos 1), (6, 31)) ∷ [])

is_app_throttled-replay_example :
    is_app_throttled
      (replay (first_log log) empty_throttler)
      40
      (λ i. pos 0)
      (codes "copy")
      (codes "main")
    ≡ is_app_throttled
        (replay (second_log log) empty_throttler)
        40
        (λ i. pos 0)
        (codes "copy")
        (codes "main")
is_app_throttled-replay_example =
    is_app_throttled-replay log empty_throttler 40 (λ i. pos 0) (codes "copy") (codes "main")
      empty_steady_apps (refl, omega arith, omega arith, (refl, omega arith, omega arith, tt))

-- A throttler with a throttle and a skip, and an empty one that restores its snapshot.
abbrev holder : Throttler
holder = skip_host (throttle_app empty_throttler 5 (codes "archive") 20 (pos 1)) 5 (codes "db-1") 30

abbrev exported_fields : FieldNames
exported_fields = record { apps_field = codes "ThrottledApps"; hosts_field = codes "SkippedHosts" }

abbrev kept_members : List (Text × Value)
kept_members =
    (
      codes "ThrottledApps",
      throttles ((codes "archive", record { expire_at = 20; ratio = pos 1 }) ∷ []),
    )
    ∷ ((codes "SkippedHosts", times ((codes "db-1", 30) ∷ [])) ∷ [])

restore-persist_example :
    (restore snapshot_data_fields empty_throttler 9 (object_of []) ≡ some (empty_throttler, true))
    × (replica' : Throttler) × (restore exported_fields empty_throttler 9 (object_of kept_members)
        ≡ some (replica', true))
    × (throttle_of replica' 10 (codes "archive")
        ≡ restored_throttle 9
            (throttle_of holder 7 (codes "archive"))
            (throttle_of empty_throttler 10 (codes "archive")))
    × (skip_of replica' 10 (codes "db-1")
        ≡ restored_skip 9
            (skip_of holder 7 (codes "db-1"))
            (skip_of empty_throttler 10 (codes "db-1")))
unfolding persist str_eq to_lower throttled_apps_map table_cache skip_host throttle_app
    empty_throttler coerce skipped_hosts_map marshal_snapshot snapshot
restore-persist_example =
    restore-persist exported_fields holder empty_throttler 7 9 10 (codes "archive") (codes "db-1")
      (object_of []) (object_of kept_members) refl refl refl (refl, tt) (refl, tt) empty_steady_apps
      (IsSteady-new Time) refl refl
