-- ===== src/Http/Reports.antt =====
-- pkg/http/api.go: the handlers that print a state. A reply carries the value that is encoded as
-- JSON, where there is one.
use freno.Prelude.{ℕ, Bool, not, Option, none, some, List, [], ◌∷◌, ◌++◌, if◌then◌else◌}
use freno.Go.Text.{Text, codes, str_eq}
use freno.Go.Float.{Float}
use freno.Go.Dict.{Dict}
use freno.Go.Time.{Time}
use freno.Base.Metric.{Error, message, MetricResult, AppThrottle}
use freno.Base.Health.{MetricHealthMap}
use freno.Cache.Api.{CacheApi}
use freno.Config.Read.{ConfigurationSettings}
use freno.Throttle.State.{Throttler, aggregated_metrics_snapshot, metrics_health_snapshot}
use freno.Throttle.Apps.{throttled_apps_map}
use freno.Throttle.Hosts.{skipped_hosts_map}
use freno.Throttle.Check.{CheckResult, status_ok, status_internal_server_error}
use freno.Group.Consensus.{ConsensusServiceStatus}
use freno.Group.Service.{ConsensusService}

record Reply (A : Type 0) : Type 0 where
  pub status : ℕ
  pub value : Option A

abbrev encoded : {A : Type 0} → A → Reply A
encoded a = record { status = status_ok; value = some a }

-- The identity of the leader, or of the machine: an empty one is an error.
abbrev named : Text → Reply Text
named name =
    if not (str_eq name [])
    then record { status = status_ok; value = some name }
    else record { status = status_internal_server_error; value = none }

unfoldable consensus_leader : Text → Reply Text
consensus_leader leader = named leader

unfoldable consensus_state : Text → Reply Text
consensus_state state_description = encoded state_description

unfoldable consensus_status : ConsensusServiceStatus → Reply ConsensusServiceStatus
consensus_status status = encoded status

unfoldable api_hostname : Text → Reply Text
api_hostname hostname = named hostname

-- NewAPIImpl: the name is empty where the machine has none.
unfoldable new_api_hostname : Option Text → Text
new_api_hostname none = []
new_api_hostname (some name) = name

unfoldable respond_to_check_request : Bool → CheckResult → Reply CheckResult
respond_to_check_request is_get result = record {
  status = result.status_code;
  value = if is_get then some result else none;
}

-- The text of a metric; `format` is fmt.Sprintf with %.3f where it is brief, and otherwise with %f.
module _ (format : Bool → Float → Text) where
  description : Bool → Float × Option Error → Text
  description brief (value, none) = format brief value
  description brief (value, some e) = codes "error: " ++ message e

  descriptions : Bool → Dict Text MetricResult → Dict Text Text
  unfolding description
  descriptions brief [] = []
  descriptions brief ((metric_name, metric) ∷ metrics) =
      (metric_name, description brief metric.get) ∷ descriptions brief metrics

  unfoldable api_aggregated_metrics :
      ⦃c : CacheApi⦄ → Throttler → Time → Bool → Reply (Dict Text Text)
  unfolding descriptions
  api_aggregated_metrics t now brief =
      encoded (descriptions brief (aggregated_metrics_snapshot t now))

unfoldable api_metrics_health : ⦃c : CacheApi⦄ → Throttler → Time → Reply MetricHealthMap
api_metrics_health t now = encoded (metrics_health_snapshot t now)

module _ ⦃c : CacheApi⦄ (service : ConsensusService) where
  unfoldable api_throttled_apps : service.State → Time → Reply (Dict Text AppThrottle)
  api_throttled_apps s now = encoded (throttled_apps_map (service.throttler_of s) now)

  unfoldable api_skipped_hosts : service.State → Time → Reply (Dict Text Time)
  api_skipped_hosts s now = encoded (skipped_hosts_map (service.throttler_of s) now)

-- The servers and the path of memcache.
unfoldable api_memcache_config : ConfigurationSettings → Reply (List Text × Text)
api_memcache_config s = encoded (s.memcache_servers, s.memcache_path)
