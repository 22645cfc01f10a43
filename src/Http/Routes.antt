-- ===== src/Http/Routes.antt =====
-- pkg/http/api.go: ConfigureRoutes, which gives each path its handler. The router is the list of
-- what has been registered; the endpoints are those that the handler of help prints.
use freno.Prelude.{
  ◌≡◌, refl, Bool, true, false, not, ◌&&◌, List, [], ◌∷◌, ◌++◌, map, if◌then◌else◌, contains_of,
}
use freno.Go.Text.{Text, codes, str_eq}

-- The handlers of the API, and those of other packages.
data Handler : Type 0 where
  lb_check leader_check consensus_leader consensus_state consensus_status hostname : Handler
  write_check write_check_if_exists read_check read_check_if_exists : Handler
  aggregated_metrics metrics_health throttle_app unthrottle_app throttled_apps recent_apps : Handler
  skip_host skipped_hosts recover_host help memcache_config metrics_handle pprof : Handler

data Method : Type 0 where
  head_method get_method : Method

record Router : Type 0 where
  pub routes : List (Method × Text × Handler)
  pub endpoints : List Text

abbrev new_router : Router
new_router = record { routes = []; endpoints = [] }

unfoldable register : Router → Text → Handler → Router
register r path handler = record {
  routes = r.routes ++ (head_method, path, handler) ∷ ((get_method, path, handler) ∷ []);
  endpoints = r.endpoints ++ path ∷ [];
}

unfoldable register_all : Router → List (Text × Handler) → Router
unfolding register
register_all r [] = r
register_all r ((path, handler) ∷ rest) = register_all (register r path handler) rest

-- The calls of register before those of profiling.
abbrev api_routes : List (Text × Handler)
api_routes =
    (codes "/lb-check", lb_check)
    ∷ (codes "/_ping", lb_check)
    ∷ (codes "/status", lb_check)
    ∷ (codes "/leader-check", leader_check)
    ∷ (codes "/raft/leader", consensus_leader)
    ∷ (codes "/raft/state", consensus_state)
    ∷ (codes "/consensus/leader", consensus_leader)
    ∷ (codes "/consensus/state", consensus_state)
    ∷ (codes "/consensus/status", consensus_status)
    ∷ (codes "/hostname", hostname)
    ∷ (codes "/check/:app/:storeType/:storeName", write_check)
    ∷ (codes "/check-if-exists/:app/:storeType/:storeName", write_check_if_exists)
    ∷ (codes "/check-read/:app/:storeType/:storeName/:threshold", read_check)
    ∷ (codes "/check-read-if-exists/:app/:storeType/:storeName/:threshold", read_check_if_exists)
    ∷ (codes "/aggregated-metrics", aggregated_metrics)
    ∷ (codes "/metrics-health", metrics_health)
    ∷ (codes "/throttle-app/:app", throttle_app)
    ∷ (codes "/throttle-app/:app/ratio/:ratio", throttle_app)
    ∷ (codes "/throttle-app/:app/ttl/:ttlMinutes", throttle_app)
    ∷ (codes "/throttle-app/:app/ttl/:ttlMinutes/ratio/:ratio", throttle_app)
    ∷ (codes "/unthrottle-app/:app", unthrottle_app)
    ∷ (codes "/throttled-apps", throttled_apps)
    ∷ (codes "/recent-apps", recent_apps)
    ∷ (codes "/recent-apps/:lastMinutes", recent_apps)
    ∷ (codes "/skip-host/:hostName", skip_host)
    ∷ (codes "/skip-host/:hostName/ttl/:ttlMinutes", skip_host)
    ∷ (codes "/skipped-hosts", skipped_hosts)
    ∷ (codes "/recover-host/:hostName", recover_host)
    ∷ (codes "/debug/vars", metrics_handle)
    ∷ (codes "/debug/metrics", metrics_handle)
    ∷ []

-- The paths of profiling, below /debug/pprof/.
abbrev profiling_routes : List (Method × Text × Handler)
profiling_routes =
    map (λ name. (get_method, codes "/debug/pprof/" ++ name, pprof))
      ([]
        ∷ codes "cmdline"
        ∷ codes "profile"
        ∷ codes "symbol"
        ∷ codes "trace"
        ∷ codes "goroutine"
        ∷ codes "heap"
        ∷ codes "threadcreate"
        ∷ codes "block"
        ∷ [])

unfoldable configure_routes : Bool → Router
unfolding register_all register
configure_routes enable_profiling =
    let r = register_all new_router api_routes in
    let r' = if enable_profiling then record r { routes = r.routes ++ profiling_routes } else r in
    let r'' = register r' (codes "/help") help in
    record r'' {
      routes = r''.routes ++ (get_method, codes "/config/memcache", memcache_config) ∷ [];
    }

abbrev same_method : Method → Method → Bool
same_method head_method head_method = true
same_method get_method get_method = true
same_method _ _ = false

-- No path is registered twice for a method, on which the router would panic.
abbrev are_distinct : List (Method × Text × Handler) → Bool
are_distinct [] = true
are_distinct ((m, path, handler) ∷ routes) =
    not (contains_of (λ r. same_method r.0 m && str_eq r.1 path) routes) && are_distinct routes

configure_routes_distinct :
    (enable_profiling : Bool) → are_distinct (configure_routes enable_profiling).routes ≡ true
unfolding configure_routes str_eq
configure_routes_distinct true = refl
configure_routes_distinct false = refl
