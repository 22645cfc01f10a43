-- ===== src/Http/Laws.antt =====
-- The laws of the handlers: the status of a check of a metric that need not exist, and the effect of
-- a throttle that was asked for by HTTP on the checks that follow.
use freno.Prelude.{
  ℕ, suc, ◌+◌, ◌*◌, ◌-◌, ◌^◌, ◌≤◌, ◌≡◌, refl, sym, ap, ◌∙◌, Bool, true, false, Option, some, [],
  if◌then◌else◌, ◌==◌, arith,
}
use mathlib.Core.Path.{subst}
use freno.Go.Text.{Text, codes, str_eq, str_eq_iff, text_eq}
use freno.Go.Int.{pos, ltb_ℤ, scale64_exact}
use freno.Go.Float.{Float, float_zero}
use freno.Go.Time.{Time, minute, add_duration}
use freno.Cache.Api.{CacheApi}
use freno.Throttle.State.{Throttler}
use freno.Throttle.Apps.{throttle_app, next_throttle}
use freno.Throttle.Apps.Laws.{
  HasSteadyApps, throttle_of, throttle_of-throttle_app, throttle_app-HasSteadyApps,
}
use freno.Throttle.Run.Between.{Between, check-Between}
use freno.Throttle.Check.{
  CheckFlags, check, check_app_metric_result, new_check_result, status_ok, status_not_found,
  status_expectation_failed,
}
use freno.Throttle.Run.{throttle, perform}
use freno.Group.Backend.{Stored, Clock}
use freno.Group.Service.{ConsensusService, mysql_service, throttle_ok}
use freno.Http.{
  CheckRequest, api_check, ttl_of, expire_at_of, ratio_of, app_name_of, api_throttle_app,
}

-- The end of a number of minutes that fits a duration.
expire_at_of_minutes :
    (now : Time) (n : ℕ)
    → suc n * minute ≤ 2 ^ 63 - 1
    → expire_at_of now (pos (suc n)) ≡ now + suc n * minute
unfolding expire_at_of add_duration
expire_at_of_minutes now n b = ground (arith, scale64_exact minute (suc n) b)

module _ ⦃c : CacheApi⦄ where
  -- A check whose flags say that the metric need not exist is answered with 200 where the same
  -- check without that flag is answered with 404, and with the same status otherwise.
  pub api_check_if_exists :
      (t : Throttler) (now : Time) (rand : ℕ → Float) (r : CheckRequest) (flags : CheckFlags)
      → (api_check t now rand r (record flags { ok_if_not_exists = true })).0 ≡ (
          if (api_check t now rand r (record flags { ok_if_not_exists = false })).0
            == status_not_found
          then status_ok
          else (api_check t now rand r (record flags { ok_if_not_exists = false })).0)
  unfolding api_check check check_app_metric_result new_check_result
  api_check_if_exists t now rand r flags = ground arith

  perform-throttle :
      (t : Throttler) (now : Time) (app : Text) (expire_at : Time) (ratio : Float)
      → perform t now (throttle app expire_at ratio) ≡ throttle_app t now app expire_at ratio
  unfolding perform
  perform-throttle t now app expire_at ratio = refl

  -- What the service does for a request that parses.
  throttled_by :
      (service : ConsensusService) (s : service.State) (clock : Clock) (o : service.Outside)
      (app ttl_text ratio_text : Text) (answer : Option Float) (n : ℕ) (ratio : Float)
      → ttl_of ttl_text ≡ some (pos (suc n))
      → ratio_of ratio_text answer ≡ some ratio
      → suc n * minute ≤ 2 ^ 63 - 1
      → api_throttle_app service s clock o app [] ttl_text ratio_text answer
        ≡ service.throttle_app s clock o app (pos (suc n)) (clock.now + suc n * minute) ratio
  unfolding api_throttle_app app_name_of str_eq
  throttled_by service s clock o app ttl_text ratio_text answer n ratio h k b =
      rw (api_throttle_app, h, k, expire_at_of_minutes clock.now n b) refl

  -- A throttle that is set at a ratio denies the app up to its end, whatever steps that leave the
  -- app alone come in between.
  check_throttled :
      (t t' u : Throttler) (now later : Time) (app : Text) (n : ℕ) (ratio : Float)
      (rand : ℕ → Float) (store_name remote_addr : Text) (flags : CheckFlags)
      → HasSteadyApps t
      → t' ≡ throttle_app t now app (now + suc n * minute) ratio
      → ltb_ℤ ratio float_zero ≡ false
      → ((i : ℕ) → ltb_ℤ (rand i) ratio ≡ true)
      → later ≤ now + suc n * minute
      → Between app later t' u
      → (check u later rand app (codes "mysql") store_name remote_addr flags).0.status_code
        ≡ status_expectation_failed
  unfolding next_throttle
  check_throttled t t' u now later app n ratio rand store_name remote_addr flags st e z d l m =
      let end = now + suc n * minute in
      let steady : HasSteadyApps t' =
        subst HasSteadyApps (sym e) (throttle_app-HasSteadyApps t now app end ratio st) in
      let entry : throttle_of t' later app ≡ some (record { expire_at = end; ratio = ratio }) =
        ap (λ (x : Throttler). throttle_of x later app) e
        ∙ ground (
          arith,
          z,
          str_eq_iff app app,
          throttle_of-throttle_app t now app end ratio later app st,
        ) in
      check-Between app later (record { expire_at = end; ratio = ratio }) rand store_name
        remote_addr flags steady entry (ground (arith, l)) d m

  -- A request to throttle an app for some minutes at a ratio that is not negative, which parses,
  -- makes every check of the app on every MySQL store, up to the end of these minutes, be answered
  -- with 417 if its draws are below the ratio, even where the statement of the backend fails.
  -- Between the request and the check any events of Operate, operations on other apps and on hosts,
  -- checks and self checks may come, but no other throttle or unthrottle of the app, whether it is
  -- asked for or comes from a read of the app's stored row. The minutes fit a duration, the sweeps
  -- of throttles come at the time of the check at the latest, and the throttles of the state before
  -- do not end by the cache's own lifetime, as in a new throttler.
  pub check-api_throttle_app :
      (s : Stored) (clock : Clock) (db_ok : Bool) (app ttl_text ratio_text : Text)
      (answer : Option Float) (n : ℕ) (ratio : Float) (t' : Throttler) (later : Time)
      (rand : ℕ → Float) (store_name remote_addr : Text) (flags : CheckFlags)
      → HasSteadyApps s.throttler
      → ttl_of ttl_text ≡ some (pos (suc n))
      → ratio_of ratio_text answer ≡ some ratio
      → ltb_ℤ ratio float_zero ≡ false
      → suc n * minute ≤ 2 ^ 63 - 1
      → ((i : ℕ) → ltb_ℤ (rand i) ratio ≡ true)
      → later ≤ clock.now + suc n * minute
      → Between app later
          (api_throttle_app mysql_service s clock db_ok app [] ttl_text ratio_text
            answer).0.throttler
          t'
      → (check t' later rand app (codes "mysql") store_name remote_addr flags).0.status_code
        ≡ status_expectation_failed
  check-api_throttle_app s clock db_ok app ttl_text ratio_text answer n ratio t' later rand
        store_name remote_addr flags st h k z b d l m =
      let end = clock.now + suc n * minute in
      let done =
        throttled_by mysql_service s clock db_ok app ttl_text ratio_text answer n ratio h k b in
      check_throttled s.throttler
        (api_throttle_app mysql_service s clock db_ok app [] ttl_text ratio_text answer).0.throttler
        t' clock.now later app n ratio rand store_name remote_addr flags st
        (ap (λ (r : Stored × Bool). r.0.throttler) done
          ∙ throttle_ok s clock db_ok app (pos (suc n)) end ratio
          ∙ perform-throttle s.throttler clock.now app end ratio)
        z d l m

  -- With any consensus service, a request to throttle an app for some minutes at a ratio that is
  -- not negative, which parses and is answered without an error, makes every check of the app on
  -- every MySQL store, up to the end of these minutes, be answered with 417 if its draws are below
  -- the ratio. Between the request and the check any events of Operate, operations on other apps
  -- and on hosts, checks and self checks may come, but no other throttle or unthrottle of the app.
  -- The service keeps the app's name as it is, which the raft store does where the name is UTF-8.
  -- The minutes fit a duration, the sweeps of throttles come at the time of the check at the
  -- latest, and the throttles of the state before do not end by the cache's own lifetime, as in a
  -- new throttler.
  pub check-api_throttle_app_ok :
      (service : ConsensusService) (s : service.State) (clock : Clock) (o : service.Outside)
      (app ttl_text ratio_text : Text) (answer : Option Float) (n : ℕ) (ratio : Float)
      (t' : Throttler) (later : Time) (rand : ℕ → Float) (store_name remote_addr : Text)
      (flags : CheckFlags)
      → HasSteadyApps (service.throttler_of s)
      → service.name_of app ≡ app
      → ttl_of ttl_text ≡ some (pos (suc n))
      → ratio_of ratio_text answer ≡ some ratio
      → (api_throttle_app service s clock o app [] ttl_text ratio_text answer).1 ≡ true
      → ltb_ℤ ratio float_zero ≡ false
      → suc n * minute ≤ 2 ^ 63 - 1
      → ((i : ℕ) → ltb_ℤ (rand i) ratio ≡ true)
      → later ≤ clock.now + suc n * minute
      → Between app later
          (service.throttler_of
            (api_throttle_app service s clock o app [] ttl_text ratio_text answer).0)
          t'
      → (check t' later rand app (codes "mysql") store_name remote_addr flags).0.status_code
        ≡ status_expectation_failed
  check-api_throttle_app_ok service s clock o app ttl_text ratio_text answer n ratio t' later rand
        store_name remote_addr flags st named h k ok z b d l m =
      let t = service.throttler_of s in
      let end = clock.now + suc n * minute in
      let done = throttled_by service s clock o app ttl_text ratio_text answer n ratio h k b in
      check_throttled t
        (service.throttler_of
          (api_throttle_app service s clock o app [] ttl_text ratio_text answer).0)
        t' clock.now later app n ratio rand store_name remote_addr flags st
        (ap (λ (r : service.State × Bool). service.throttler_of r.0) done
          ∙ service.throttle_app_ok s clock o app (pos (suc n)) end ratio
              (sym (ap (λ (r : service.State × Bool). r.1) done) ∙ ok)
          ∙ ap (λ name. perform t clock.now (throttle name end ratio)) named
          ∙ perform-throttle t clock.now app end ratio)
        z d l m
