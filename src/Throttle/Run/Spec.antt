-- ===== src/Throttle/Run/Spec.antt =====
-- The contract of the throttled apps and the skipped hosts: two functions, which each operation
-- changes at one name, and which the sweeps thin out. The caches implement it.
use freno.Prelude.{
  ◌≡◌, refl, ◌∙◌, ap, ◌||◌, Option, none, some, List, [], ◌∷◌, if◌then◌else◌, arith,
}
use mathlib.Core.Path.{fun_ext, ap₂}
use freno.Go.Text.{Text, str_eq, text_eq}
use freno.Go.Time.{Time, is_zero, before}
use freno.Base.Metric.{AppThrottle}
use freno.Cache.Api.{CacheApi}
use freno.Throttle.State.{Throttler}
use freno.Throttle.Apps.{
  expired, next_throttle, throttle_app, unthrottle_app, expire_throttled_apps,
}
use freno.Throttle.Apps.Laws.{
  HasSteadyApps, throttle_of, throttle_of-throttle_app, throttle_of-unthrottle_app,
  throttle_of-expire_throttled_apps, throttle_app-HasSteadyApps, unthrottle_app-HasSteadyApps,
  expire_throttled_apps-HasSteadyApps,
}
use freno.Throttle.Hosts.{skip_end, skip_host, recover_host, expire_skipped_hosts}
use freno.Throttle.Hosts.Laws.{
  HasSteadyHosts, skip_of, skip_of-skip_host, skip_of-recover_host, skip_of-expire_skipped_hosts,
  skip_host-HasSteadyHosts, recover_host-HasSteadyHosts, expire_skipped_hosts-HasSteadyHosts,
}
use freno.Throttle.Apps.Frame.{throttle_app_frame, expire_throttled_apps_frame}
use freno.Throttle.Hosts.Frame.{skip_host_frame, expire_skipped_hosts_frame}
use freno.Throttle.Run.{
  Op, throttle, unthrottle, sweep_apps, skip, recover, sweep_hosts, perform, run,
}

-- What the operations keep: the throttle of each app, and the end of the skip of each host.
pub record View : Type 0 where
  pub apps : Text → Option AppThrottle
  pub hosts : Text → Option Time

abbrev pub update {ℓ} : {A : Type ℓ} → (Text → Option A) → Text → Option A → Text → Option A
update f name a other = if str_eq name other then a else f other

-- The entries that a sweep leaves.
abbrev pub unexpired : Time → Option AppThrottle → Option AppThrottle
unexpired now none = none
unexpired now (some a) = if expired now a then none else some a

abbrev pub unended : Time → Option Time → Option Time
unended now none = none
unended now (some e) = if before e now then none else some e

unfoldable pub perform_spec : View → Time → Op → View
perform_spec v now (throttle app_name expire_at ratio) = record v {
  apps = update v.apps app_name (
      if is_zero expire_at || before now expire_at
      then some (next_throttle (v.apps app_name) expire_at ratio)
      else none);
}
perform_spec v now (unthrottle app_name) = record v { apps = update v.apps app_name none }
perform_spec v now sweep_apps = record v { apps = λ name. unexpired now (v.apps name) }
perform_spec v now (skip host_name expire_at) = record v {
  hosts =
      update v.hosts host_name
        (if before now (skip_end now expire_at) then some (skip_end now expire_at) else none);
}
perform_spec v now (recover host_name) = record v { hosts = update v.hosts host_name none }
perform_spec v now sweep_hosts = record v { hosts = λ name. unended now (v.hosts name) }

unfoldable pub run_spec : List (Time × Op) → View → View
unfolding perform_spec
run_spec [] v = v
run_spec ((now, op) ∷ ops) v = run_spec ops (perform_spec v now op)

module _ ⦃c : CacheApi⦄ where
  -- What the caches show at a time.
  abbrev pub view : Throttler → Time → View
  view t u = record { apps = λ name. throttle_of t u name; hosts = λ name. skip_of t u name }

  abbrev pub IsSteadyState : Throttler → Type 0
  IsSteadyState t = HasSteadyApps t × HasSteadyHosts t

  -- A change of the throttles shows in the apps alone, and one of the skips in the hosts alone.
  skip_of_frame :
      (t t' : Throttler) (u : Time) (name : Text)
      → t' ≡ record t { throttled_apps = t'.throttled_apps }
      → skip_of t' u name ≡ skip_of t u name
  skip_of_frame t t' u name e = ap (λ (x : Throttler). skip_of x u name) e

  throttle_of_frame :
      (t t' : Throttler) (u : Time) (name : Text)
      → t' ≡ record t { skipped_hosts = t'.skipped_hosts }
      → throttle_of t' u name ≡ throttle_of t u name
  throttle_of_frame t t' u name e = ap (λ (x : Throttler). throttle_of x u name) e

  steady_hosts_frame :
      (t t' : Throttler)
      → t' ≡ record t { throttled_apps = t'.throttled_apps }
      → HasSteadyHosts t
      → HasSteadyHosts t'
  steady_hosts_frame t t' e h = rw e h

  steady_apps_frame :
      (t t' : Throttler)
      → t' ≡ record t { skipped_hosts = t'.skipped_hosts }
      → HasSteadyApps t
      → HasSteadyApps t'
  steady_apps_frame t t' e h = rw e h

  pub perform-IsSteadyState :
      (t : Throttler) (now : Time) (op : Op) → IsSteadyState t → IsSteadyState (perform t now op)
  unfolding perform unthrottle_app recover_host
  perform-IsSteadyState t now (throttle a e r) (s, h) = (
    throttle_app-HasSteadyApps t now a e r s,
    steady_hosts_frame t (throttle_app t now a e r) (throttle_app_frame t now a e r) h,
  )
  perform-IsSteadyState t now (unthrottle a) (s, h) = (unthrottle_app-HasSteadyApps t a s, h)
  perform-IsSteadyState t now sweep_apps (s, h) = (
    expire_throttled_apps-HasSteadyApps t now s,
    steady_hosts_frame t (expire_throttled_apps t now) (expire_throttled_apps_frame t now) h,
  )
  perform-IsSteadyState t now (skip n e) (s, h) = (
    steady_apps_frame t (skip_host t now n e) (skip_host_frame t now n e) s,
    skip_host-HasSteadyHosts t now n e h,
  )
  perform-IsSteadyState t now (recover n) (s, h) = (s, recover_host-HasSteadyHosts t n h)
  perform-IsSteadyState t now sweep_hosts (s, h) = (
    steady_apps_frame t (expire_skipped_hosts t now) (expire_skipped_hosts_frame t now) s,
    expire_skipped_hosts-HasSteadyHosts t now h,
  )

  View-ext :
      (v w : View)
      → ((name : Text) → v.apps name ≡ w.apps name)
      → ((name : Text) → v.hosts name ≡ w.hosts name)
      → v ≡ w
  View-ext v w h k = ap₂ (λ a b. record { apps = a; hosts = b }) (fun_ext h) (fun_ext k)

  view-perform :
      (t : Throttler) (now u : Time) (op : Op)
      → IsSteadyState t
      → view (perform t now op) u ≡ perform_spec (view t u) now op
  unfolding perform perform_spec unthrottle_app recover_host
  view-perform t now u (throttle a e r) (s, h) =
      View-ext _ _
        (λ name. ground (arith, throttle_of-throttle_app t now a e r u name s, s.same now u a))
        (λ name. skip_of_frame t (throttle_app t now a e r) u name (throttle_app_frame t now a e r))
  view-perform t now u (unthrottle a) (s, h) =
      View-ext _ _ (λ name. throttle_of-unthrottle_app t a u name) (λ name. refl)
  view-perform t now u sweep_apps (s, h) =
      View-ext _ _ (λ name. ground (arith, throttle_of-expire_throttled_apps t now u name s))
        (λ name.
          skip_of_frame t (expire_throttled_apps t now) u name (expire_throttled_apps_frame t now))
  view-perform t now u (skip n e) (s, h) =
      View-ext _ _
        (λ name. throttle_of_frame t (skip_host t now n e) u name (skip_host_frame t now n e))
        (λ name. ground (arith, skip_of-skip_host t now n e u name h))
  view-perform t now u (recover n) (s, h) =
      View-ext _ _ (λ name. refl) (λ name. skip_of-recover_host t n u name)
  view-perform t now u sweep_hosts (s, h) =
      View-ext _ _
        (λ name.
          throttle_of_frame t (expire_skipped_hosts t now) u name
            (expire_skipped_hosts_frame t now))
        (λ name. ground (arith, skip_of-expire_skipped_hosts t now u name h))

  -- Any sequence of throttles, unthrottles, skips, recoveries and sweeps, at any times, leaves the
  -- throttles and skips that its specification leaves: two functions from names, which each
  -- operation changes at one name, and from which the sweeps take what has ended. The throttles and
  -- skips before do not end by the caches' own lifetimes, as in a new throttler.
  pub run_refines :
      (ops : List (Time × Op)) (t : Throttler) (u : Time)
      → IsSteadyState t
      → view (run ops t) u ≡ run_spec ops (view t u)
  unfolding run run_spec
  run_refines [] t u s = refl
  run_refines ((now, op) ∷ ops) t u s =
      run_refines ops (perform t now op) u (perform-IsSteadyState t now op s)
      ∙ ap (run_spec ops) (view-perform t now u op s)
