-- ===== src/Http.antt =====
-- pkg/http/api.go: the handlers that ask for a check or change the throttler. The parameters of a
-- route are texts, empty where the route has none; ParseFloat is given by its answer. The
-- consensus service is a parameter.
pub mod Laws
pub mod Bounds
pub mod Reports
pub mod Routes
mod Tests
use freno.Prelude.{
  ℕ, ◌+◌, Bool, true, false, not, ◌&&◌, ◌||◌, Option, none, some, List, [], ◌∷◌, ◌++◌,
  if◌then◌else◌, ◌==◌,
}
use freno.Go.Text.{Text, codes, str_eq, split, text_eq}
use freno.Go.Int.{ℤ, pos, negsuc, ltb_ℤ, eqb_ℤ, scale64}
use freno.Go.Decimal.{atoi}
use freno.Go.Float.{Float, float_zero, float_one, float_of}
use freno.Go.Dict.{Dict}
use freno.Go.Time.{Time, time_zero, minute, add_duration}
use freno.Base.Metric.{AppThrottle}
use freno.Base.Health.{RecentApp}
use freno.Cache.Api.{CacheApi}
use freno.Throttle.State.{Throttler, recent_apps_map}
use freno.Throttle.Apps.{throttled_apps_map}
use freno.Throttle.Check.{
  CheckFlags, CheckResult, check, standard_check_flags, status_ok, status_not_found,
  status_internal_server_error,
}
use freno.Group.Backend.{Clock}
use freno.Group.Service.{ConsensusService}

-- A response: the status, and for GET the message of its body.
pub record Response : Type 0 where
  pub status_code : ℕ
  pub body : Option Text

unfoldable pub respond_generic : Bool → Option Text → Response
respond_generic is_get none = record {
  status_code = status_ok;
  body = if is_get then some (codes "OK") else none;
}
respond_generic is_get (some e) = record {
  status_code = status_internal_server_error;
  body = if is_get then some e else none;
}

unfoldable pub leader_check : Bool → ℕ
leader_check is_leader = if is_leader then status_ok else status_not_found

-- What a handler of a check reads of the request.
pub record CheckRequest : Type 0 where
  pub app : Text
  pub store_type : Text
  pub store_name : Text
  pub forwarded_for : Text
  pub remote_address : Text
  pub p : Text

first_part : List Text → Text
first_part [] = []
first_part (part ∷ parts) = part

unfoldable pub remote_addr_of : CheckRequest → Text
unfolding first_part
remote_addr_of r =
    if str_eq r.forwarded_for [] then first_part (split r.remote_address b':') else r.forwarded_for

-- The name of an app, or of an app on one store.
unfoldable pub app_name_of : Text → Text → Text
app_name_of app store_name = if str_eq store_name [] then app else app ++ (b'/' ∷ store_name)

-- The minutes of a route; `none` where the text is refused.
unfoldable pub ttl_of : Text → Option ℤ
ttl_of text = if str_eq text [] then some (pos 0) else atoi text

-- time.Now().Add(time.Duration(ttlMinutes) * time.Minute), or the zero time.
unfoldable pub expire_at_of : Time → ℤ → Time
expire_at_of now ttl_minutes =
    if eqb_ℤ ttl_minutes (pos 0) then time_zero else add_duration now (scale64 minute ttl_minutes)

-- The text of the ratio with what ParseFloat answers; `none` is an error.
unfoldable pub ratio_of : Text → Option Float → Option Float
ratio_of text answer = if str_eq text [] then some (float_of (negsuc 0)) else elim answer [
  | none ↦ none
  | some ratio ↦ if ltb_ℤ ratio float_zero || ltb_ℤ float_one ratio then none else some ratio
]

module _ ⦃c : CacheApi⦄ where
  -- A check's status, the throttler after it, and the flags: the handler sets LowPriority in the
  -- object that it is given.
  unfoldable pub api_check :
      Throttler → Time → (ℕ → Float) → CheckRequest → CheckFlags → ℕ × (Throttler × CheckFlags)
  api_check t now rand r flags =
      let flags' = record flags { low_priority = str_eq r.p (codes "low") } in
      let answer = check t now rand r.app r.store_type r.store_name (remote_addr_of r) flags' in
      (
        if answer.0.status_code == status_not_found && flags'.ok_if_not_exists
            then status_ok
            else answer.0.status_code,
        (answer.1, flags'),
      )

  -- The two handlers of write checks pass objects that live as long as the program.
  unfoldable pub write_check :
      Throttler → Time → (ℕ → Float) → CheckRequest → CheckFlags → ℕ × (Throttler × CheckFlags)
  unfolding api_check
  write_check t now rand r standard = api_check t now rand r standard

  -- The handlers of read checks make their flags anew.
  unfoldable pub read_check :
      Throttler → Time → (ℕ → Float) → CheckRequest → Option Float → Bool → ℕ × Throttler
  unfolding api_check
  read_check t now rand r none if_exists = (status_internal_server_error, t)
  read_check t now rand r (some override_threshold) if_exists =
      let answer = api_check t now rand r (record {
        read_check = true;
        override_threshold = override_threshold;
        low_priority = false;
        ok_if_not_exists = if_exists;
      }) in
      (answer.0, answer.1.0)

  recent : ℤ → Dict Text RecentApp → Dict Text RecentApp
  recent last_minutes [] = []
  recent last_minutes ((key, app) ∷ apps) =
      let rest = recent last_minutes apps in
      if ltb_ℤ last_minutes (pos app.minutes_since_checked) then rest else (key, app) ∷ rest

  unfoldable pub api_recent_apps : Throttler → Time → Text → Option (Dict Text RecentApp)
  unfolding recent
  api_recent_apps t now text = elim (ttl_of text) [
    | none ↦ none
    | some last_minutes ↦ some (
        if ltb_ℤ (pos 0) last_minutes
        then recent last_minutes (recent_apps_map t now)
        else recent_apps_map t now)
  ]

-- The handlers that go through the consensus service. `o` is what the world answers to it.
module _ ⦃c : CacheApi⦄ (service : ConsensusService) where
  -- ThrottleApp. The texts of the two errors of parsing are not modelled.
  unfoldable pub api_throttle_app :
      service.State
      → Clock
      → service.Outside
      → Text
      → Text
      → Text
      → Text
      → Option Float
      → service.State × Bool
  api_throttle_app s clock o app store_name ttl_text ratio_text answer = elim (ttl_of ttl_text) [
    | none ↦ (s, false)
    | some ttl_minutes ↦ elim (ratio_of ratio_text answer) [
      | none ↦ (s, false)
      | some ratio ↦
          service.throttle_app s clock o (app_name_of app store_name) ttl_minutes
            (expire_at_of clock.now ttl_minutes) ratio
    ]
  ]

  -- The apps of the snapshot that have the name, in turn, up to the first error.
  unthrottle_named :
      Clock → service.Outside → Text → Dict Text AppThrottle → service.State → service.State × Bool
  unthrottle_named clock o app_name [] s = (s, true)
  unthrottle_named clock o app_name ((app, a) ∷ apps) s =
      if str_eq app app_name
      then (let rest =
            unthrottle_named clock o app_name apps (service.unthrottle_app s clock o app).0 in
          if (service.unthrottle_app s clock o app).1
          then rest
          else service.unthrottle_app s clock o app)
      else unthrottle_named clock o app_name apps s

  unfoldable pub api_unthrottle_app :
      service.State → Clock → service.Outside → Text → Text → service.State × Bool
  unfolding unthrottle_named
  api_unthrottle_app s clock o app store_name =
      unthrottle_named clock o (app_name_of app store_name)
        (throttled_apps_map (service.throttler_of s) clock.now) s

  -- SkipHost goes on after an error of ParseInt, with the value `left` that comes with the error: it
  -- has then responded twice, first with the error. The responses are listed.
  unfoldable pub api_skip_host :
      service.State → Clock → service.Outside → ℤ → Text → Text → service.State × List Bool
  api_skip_host s clock o left host_name ttl_text = elim (ttl_of ttl_text) [
    | none ↦
        let answer = service.skip_host s clock o host_name left (expire_at_of clock.now left) in
        (answer.0, false ∷ answer.1 ∷ [])
    | some ttl_minutes ↦
        let answer =
          service.skip_host s clock o host_name ttl_minutes (expire_at_of clock.now ttl_minutes) in
        (answer.0, answer.1 ∷ [])
  ]

  unfoldable pub api_recover_host :
      service.State → Clock → service.Outside → Text → service.State × Bool
  api_recover_host s clock o host_name = service.recover_host s clock o host_name
