-- ===== src/Group/ServiceTests.antt =====
-- The theorems on the consensus services, on the choice between them and on a leader's end at
-- concrete states.
use freno.Prelude.{ℕ, ◌≡◌, refl, Bool, true, false, none, some, List, [], ◌∷◌, Among}
use freno.Go.Text.{Text, codes, str_eq, text_eq}
use freno.Go.Utf8.{coerce, coerce_from}
use freno.Go.Int.{pos}
use freno.Go.Dict.{lookup}
use freno.Go.Time.{Time}
use freno.Base.Metric.{AppThrottle}
use freno.Cache.Api.{IsSteady-new}
use freno.Cache.Table.{table_cache}
use freno.Config.Read.{ConfigurationSettings, new_configuration_settings}
use freno.Throttle.State.{empty_throttler}
use freno.Throttle.Run.Spec.{IsSteadyState, view, run_spec}
use freno.Group.Election.{Backend, ElectionRow, ServiceElection, read_leadership}
use freno.Group.Election.Laws.{attempts}
use freno.Group.Election.Failover.{services, attempts_replace_leader}
use freno.Group.Backend.{Stored, Clock, throttle, unthrottle, skip}
use freno.Group.Fsm.{generic_command}
use freno.Group.Service.{Submission, raft_command, mysql_service, raft_service}
use freno.Group.Service.Laws.{
  Request, throttle_request, unthrottle_request, skip_request, ops_of, serve_all, serve_all_refines,
  mysql_service-raft_service,
}
use freno.Group.Consensus.{RaftSetup, new_mysql_backend, setup_raft, new_consensus_service_provider}
use freno.Group.Consensus.Laws.{served, chosen, served-chosen}

empty-IsSteadyState : IsSteadyState empty_throttler
unfolding empty_throttler
empty-IsSteadyState = (IsSteady-new AppThrottle, IsSteady-new Time)

abbrev clock : Clock
clock = record { now = 70000000000; db_now = 200 }

abbrev stored : Stored
stored = record { throttler = empty_throttler; throttled_rows = []; skipped_rows = [] }

-- Both answer without an error: the statement is run, and the command is applied.
abbrev both : Bool × Submission
both = (true, record { leads = true; apply_error = none; applied_late = false })

abbrev requests : List (Clock × (Bool × Submission) × Request)
requests =
    (clock, both, throttle_request (codes "archive") (pos 1) 130000000000 (pos 1))
    ∷ ((clock, both, skip_request (codes "db-1") (pos 0) 0)
        ∷ ((clock, both, unthrottle_request (codes "archive")) ∷ []))

mysql_serves : (serve_all mysql_service (λ o. o.0) requests stored).1 ≡ true
unfolding serve_all throttle unthrottle skip
mysql_serves = refl

raft_serves : (serve_all raft_service (λ o. o.1) requests empty_throttler).1 ≡ true
unfolding serve_all raft_command generic_command
raft_serves = refl

serve_all_refines_example :
    view (serve_all mysql_service (λ o. o.0) requests stored).0.throttler 80000000000
    ≡ run_spec (ops_of (λ name. name) requests) (view empty_throttler 80000000000)
serve_all_refines_example =
    serve_all_refines mysql_service (λ o. o.0) requests stored 80000000000 empty-IsSteadyState
      mysql_serves

mysql_service-raft_service_example :
    view (serve_all mysql_service (λ o. o.0) requests stored).0.throttler 80000000000
    ≡ view (serve_all raft_service (λ o. o.1) requests empty_throttler).0 80000000000
unfolding coerce coerce_from
mysql_service-raft_service_example =
    mysql_service-raft_service requests stored empty_throttler 80000000000 empty-IsSteadyState
      empty-IsSteadyState refl (refl, (refl, (refl, tt))) mysql_serves raft_serves

-- The backend's host is set, and its database does not open.
abbrev with_host : ConfigurationSettings
with_host = record new_configuration_settings {
  backend_mysql_host = codes "db-1";
  backend_mysql_schema = codes "freno";
  raft_data_dir = codes "/var/lib/freno";
}

abbrev opens : RaftSetup → Bool
opens store = true

served-chosen_example :
    served (new_consensus_service_provider with_host opens false (some (codes "one")))
    ≡ chosen with_host
        (new_mysql_backend with_host false (some (codes "one")))
        (setup_raft with_host opens)
served-chosen_example = served-chosen with_host opens false (some (codes "one"))

-- A binary collation.
abbrev as_is : Text → Text
as_is s = s

abbrev one : Backend
one = record {
  domain = codes "dc:prod";
  share_domain = [];
  service_id = codes "one:9777";
  leader_state = false;
  health_state = true;
}

abbrev two : Backend
two = record one { service_id = codes "two:9777" }

abbrev held : ElectionRow
held = record {
  row_domain = codes "dc:prod";
  row_share_domain = [];
  row_service_id = codes "one:9777";
  last_seen_active = 100;
}

abbrev elected : ServiceElection
elected = (codes "dc:prod", held) ∷ []

-- The holder has stopped; the other one tries early and late.
abbrev contest : List (Backend × ℕ)
contest = (two, 103) ∷ ((two, 106) ∷ [])

attempts_replace_leader_example :
    ((read_leadership as_is one (attempts as_is contest elected)).0 ≡ false)
    × ((b : Backend) × Among b (services as_is contest)
        × ((read_leadership as_is b (attempts as_is contest elected)).0 ≡ true))
unfolding lookup str_eq
attempts_replace_leader_example =
    attempts_replace_leader as_is one held contest elected refl refl (refl, (refl, tt)) refl

-- A byte that starts no character, a cut one, a surrogate, and the euro sign, which is kept.
not_utf8 : coerce (255 ∷ 65 ∷ []) ≡ 239 ∷ 191 ∷ 189 ∷ 65 ∷ []
unfolding coerce coerce_from
not_utf8 = refl

cut_off : coerce (226 ∷ 130 ∷ []) ≡ 239 ∷ 191 ∷ 189 ∷ 239 ∷ 191 ∷ 189 ∷ []
unfolding coerce coerce_from
cut_off = refl

surrogate : coerce (237 ∷ 160 ∷ 128 ∷ []) ≡ coerce (255 ∷ 255 ∷ 255 ∷ [])
unfolding coerce coerce_from
surrogate = refl

euro_sign : coerce (226 ∷ 130 ∷ 172 ∷ []) ≡ 226 ∷ 130 ∷ 172 ∷ []
unfolding coerce coerce_from
euro_sign = refl
