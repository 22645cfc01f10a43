-- ===== src/Haproxy/Host.antt =====
-- pkg/haproxy/host.go and throttle.go. A status is one of the five constants, since every status
-- comes from ToBackendHostStatus.
use freno.Prelude.{Bool, true, false, not, List, [], ◌∷◌, if◌then◌else◌}
use freno.Go.Text.{Text, codes, str_eq}

pub data BackendHostStatus : Type 0 where
  status_down status_nolb status_up status_no_check status_unknown : BackendHostStatus

unfoldable pub to_backend_host_status : Text → BackendHostStatus
to_backend_host_status status =
    if str_eq status (codes "DOWN")
    then status_down
    else if str_eq status (codes "NOLB")
    then status_nolb
    else if str_eq status (codes "UP")
    then status_up
    else if str_eq status (codes "no check")
    then status_no_check
    else status_unknown

pub record BackendHost : Type 0 where
  pub hostname : Text
  pub status : BackendHostStatus
  pub is_transitioning : Bool

unfoldable pub new_backend_host : Text → BackendHostStatus → Bool → BackendHost
new_backend_host hostname status is_transitioning = record {
  hostname = hostname;
  status = status;
  is_transitioning = is_transitioning;
}

abbrev pub is_status_up : BackendHostStatus → Bool
is_status_up status_up = true
is_status_up status_down = false
is_status_up status_nolb = false
is_status_up status_no_check = false
is_status_up status_unknown = false

abbrev pub is_status_no_check : BackendHostStatus → Bool
is_status_no_check status_no_check = true
is_status_no_check status_up = false
is_status_no_check status_down = false
is_status_no_check status_nolb = false
is_status_no_check status_unknown = false

host_is_relevant : BackendHostStatus → Bool → Bool
host_is_relevant status_up is_transitioning = not is_transitioning
host_is_relevant status_down is_transitioning = true
host_is_relevant status_no_check is_transitioning = true
host_is_relevant status_nolb is_transitioning = false
host_is_relevant status_unknown is_transitioning = false

unfoldable pub filter_throttler_hosts : List BackendHost → List Text
unfolding host_is_relevant
filter_throttler_hosts [] = []
filter_throttler_hosts (host ∷ hosts) =
    let rest = filter_throttler_hosts hosts in
    if host_is_relevant host.status host.is_transitioning then host.hostname ∷ rest else rest
