-- ===== src/Group/Service/Laws.antt =====
-- What a consensus service promises, whichever fills the interface: its requests are the operations
-- of the throttler, one after the other.
use freno.Prelude.{◌≡◌, refl, ◌∙◌, ap, sym, Bool, true, ◌&&◌, List, [], ◌∷◌, map, All, arith}
use freno.Go.Text.{Text}
use freno.Go.Utf8.{coerce}
use freno.Go.Int.{ℤ}
use freno.Go.Float.{Float}
use freno.Go.Time.{Time}
use freno.Cache.Api.{CacheApi}
use freno.Throttle.State.{Throttler}
use freno.Throttle.Run.{Op, throttle, unthrottle, skip, recover, perform, run}
use freno.Throttle.Run.Spec.{view, run_spec, IsSteadyState, run_refines}
use freno.Group.Backend.{Stored, Clock}
use freno.Group.Service.{ConsensusService, Submission, mysql_service, raft_service}

-- A request, as the handlers make it.
pub data Request : Type 0 where
  throttle_request : Text → ℤ → Time → Float → Request
  unthrottle_request : Text → Request
  skip_request : Text → ℤ → Time → Request
  recover_request : Text → Request

abbrev pub name_in : Request → Text
name_in (throttle_request app_name ttl expire_at ratio) = app_name
name_in (unthrottle_request app_name) = app_name
name_in (skip_request host_name ttl expire_at) = host_name
name_in (recover_request host_name) = host_name

-- The operation of a request, at the name that the service makes of the one asked for.
abbrev pub op_of : (Text → Text) → Request → Op
op_of name_of (throttle_request app_name ttl expire_at ratio) =
    throttle (name_of app_name) expire_at ratio
op_of name_of (unthrottle_request app_name) = unthrottle (name_of app_name)
op_of name_of (skip_request host_name ttl expire_at) = skip (name_of host_name) expire_at
op_of name_of (recover_request host_name) = recover (name_of host_name)

-- The operations of the requests, with their times.
abbrev pub ops_of : {B : Type 0} → (Text → Text) → List (Clock × B × Request) → List (Time × Op)
ops_of name_of requests = map (λ r. (r.0.now, op_of name_of r.2)) requests

-- Every name that is asked for is UTF-8: it is the same after its trip through JSON.
abbrev pub NamesUtf8 : {B : Type 0} → List (Clock × B × Request) → Type 0
NamesUtf8 = All (λ r. coerce (name_in r.2) ≡ name_in r.2)

op_of-coerce :
    (request : Request)
    → coerce (name_in request) ≡ name_in request
    → op_of coerce request ≡ op_of (λ name. name) request
op_of-coerce (throttle_request app_name ttl expire_at ratio) h =
    ap (λ name. throttle name expire_at ratio) h
op_of-coerce (unthrottle_request app_name) h = ap unthrottle h
op_of-coerce (skip_request host_name ttl expire_at) h = ap (λ name. skip name expire_at) h
op_of-coerce (recover_request host_name) h = ap recover h

ops_of-coerce :
    {B : Type 0} (requests : List (Clock × B × Request))
    → NamesUtf8 requests
    → ops_of coerce requests ≡ ops_of (λ name. name) requests
ops_of-coerce [] h = refl
ops_of-coerce ((clock, o, request) ∷ requests) (h, hs) =
    rw (op_of-coerce request h, ops_of-coerce requests hs) refl

module _ ⦃c : CacheApi⦄ where
  unfoldable pub serve :
      (service : ConsensusService)
      → service.State
      → Clock
      → service.Outside
      → Request
      → service.State × Bool
  serve service s clock o (throttle_request app_name ttl expire_at ratio) =
      service.throttle_app s clock o app_name ttl expire_at ratio
  serve service s clock o (unthrottle_request app_name) = service.unthrottle_app s clock o app_name
  serve service s clock o (skip_request host_name ttl expire_at) =
      service.skip_host s clock o host_name ttl expire_at
  serve service s clock o (recover_request host_name) = service.recover_host s clock o host_name

  -- The requests in turn, and whether all of them are answered without an error. `pick` takes what
  -- the world answers to the service.
  unfoldable pub serve_all :
      {B : Type 0} (service : ConsensusService)
      → (B → service.Outside)
      → List (Clock × B × Request)
      → service.State
      → service.State × Bool
  unfolding serve
  serve_all service pick [] s = (s, true)
  serve_all service pick ((clock, o, request) ∷ requests) s =
      let answer = serve service s clock (pick o) request in
      let rest = serve_all service pick requests answer.0 in (rest.0, answer.1 && rest.1)

  serve_ok :
      (service : ConsensusService) (s : service.State) (clock : Clock) (o : service.Outside)
      (request : Request)
      → (serve service s clock o request).1 ≡ true
      → service.throttler_of (serve service s clock o request).0
        ≡ perform (service.throttler_of s) clock.now (op_of service.name_of request)
  unfolding serve
  serve_ok service s clock o (throttle_request app_name ttl expire_at ratio) h =
      service.throttle_app_ok s clock o app_name ttl expire_at ratio h
  serve_ok service s clock o (unthrottle_request app_name) h =
      service.unthrottle_app_ok s clock o app_name h
  serve_ok service s clock o (skip_request host_name ttl expire_at) h =
      service.skip_host_ok s clock o host_name ttl expire_at h
  serve_ok service s clock o (recover_request host_name) h =
      service.recover_host_ok s clock o host_name h

  -- The throttler of a service after requests that are all answered without an error.
  serve_all-run :
      {B : Type 0} (service : ConsensusService) (pick : B → service.Outside)
      (requests : List (Clock × B × Request)) (s : service.State)
      → (serve_all service pick requests s).1 ≡ true
      → service.throttler_of (serve_all service pick requests s).0
        ≡ run (ops_of service.name_of requests) (service.throttler_of s)
  unfolding serve_all run
  serve_all-run service pick [] s h = refl
  serve_all-run service pick ((clock, o, request) ∷ requests) s h =
      let answer = serve service s clock (pick o) request in
      serve_all-run service pick requests answer.0 (ground (arith, h))
      ∙ ap (run (ops_of service.name_of requests))
          (serve_ok service s clock (pick o) request (ground (arith, h)))

  -- Whichever service fills the interface, requests that are all answered without an error leave
  -- the throttles and skips that the specification of their operations leaves, at the names that
  -- the service makes of those asked for: the MySQL backend keeps them, and the raft store replaces
  -- each byte of a name that is not part of a UTF-8 encoded character. The throttles and skips of
  -- the state before do not end by the caches' own lifetimes, as in a new throttler.
  pub serve_all_refines :
      {B : Type 0} (service : ConsensusService) (pick : B → service.Outside)
      (requests : List (Clock × B × Request)) (s : service.State) (u : Time)
      → IsSteadyState (service.throttler_of s)
      → (serve_all service pick requests s).1 ≡ true
      → view (service.throttler_of (serve_all service pick requests s).0) u
        ≡ run_spec (ops_of service.name_of requests) (view (service.throttler_of s) u)
  serve_all_refines service pick requests s u steady h =
      ap (λ t. view t u) (serve_all-run service pick requests s h)
      ∙ run_refines (ops_of service.name_of requests) (service.throttler_of s) u steady

  -- From states that show the same throttles and skips, which do not end by the caches' own
  -- lifetimes, the MySQL backend and the raft store show the same ones after the same requests,
  -- where both answer all of them without an error and every name that is asked for is UTF-8.
  pub mysql_service-raft_service :
      (requests : List (Clock × (Bool × Submission) × Request)) (s : Stored) (t : Throttler)
      (u : Time)
      → IsSteadyState s.throttler
      → IsSteadyState t
      → view s.throttler u ≡ view t u
      → NamesUtf8 requests
      → (serve_all mysql_service (λ o. o.0) requests s).1 ≡ true
      → (serve_all raft_service (λ o. o.1) requests t).1 ≡ true
      → view (mysql_service.throttler_of (serve_all mysql_service (λ o. o.0) requests s).0) u
        ≡ view (raft_service.throttler_of (serve_all raft_service (λ o. o.1) requests t).0) u
  mysql_service-raft_service requests s t u steady steady' same utf8 h h' =
      serve_all_refines mysql_service (λ o. o.0) requests s u steady h
      ∙ ap (run_spec (ops_of (λ name. name) requests)) same
      ∙ ap (λ ops. run_spec ops (view t u)) (sym (ops_of-coerce requests utf8))
      ∙ sym (serve_all_refines raft_service (λ o. o.1) requests t u steady' h')
