-- ===== src/Throttle/Run/Between.antt =====
-- Steps that come between an operation on an app and a later check of it, and leave the app's
-- throttle alone.
use freno.Prelude.{
  ℕ, Bool, ◌≤◌, ◌≡◌, ◌≢◌, ◌∙◌, ap, refl, not, none, some, inl, inr, ◌==◌, true, false, if_keeps,
  arith, ◌∷◌, ◌++◌, Option-cases,
}
use freno.Go.Text.{Text, codes, str_eq_iff, text_eq}
use freno.Go.Int.{ltb_ℤ}
use freno.Go.Float.{Float}
use freno.Go.Time.{Time}
use freno.Base.Metric.{AppThrottle}
use freno.Cache.Api.{CacheApi}
use freno.Throttle.State.{Throttler, mark_metric_healthy, collect_share_domain_metric_health}
use freno.Throttle.Hosts.{recover_host, skip_host, expire_skipped_hosts}
use freno.Throttle.Apps.{expired, expire_throttled_apps}
use freno.Throttle.Apps.Laws.{
  HasSteadyApps, throttle_of, throttle_app-HasSteadyApps, unthrottle_app-HasSteadyApps,
  expire_throttled_apps-HasSteadyApps, throttle_of-throttle_app, throttle_of-unthrottle_app,
  throttle_of-expire_throttled_apps, draws, is_app_throttled_verdicts,
}
use freno.Throttle.Hosts.Frame.{skip_host_frame, expire_skipped_hosts_frame}
use freno.Throttle.Inventory.{aggregate_mysql_metrics, set_threshold, update_mysql_cluster_probes}
use freno.Throttle.Inventory.Laws.{aggregate_mysql_metrics_frame}
use freno.Throttle.Check.{
  CheckFlags, check, local_check, split_metric_tokens, freno_app_name, freno_share_domain_app_name,
  status_ok, status_expectation_failed,
}
use freno.Throttle.Check.Laws.{check_denied}
use freno.Throttle.Check.Frame.{check_frame}
use freno.Throttle.Operate.{
  Event, operate, leader_check, throttle_metric, http_check_result, cluster_refresh,
  incoming_probes, aggregate_tick, throttled_apps_tick, skipped_hosts_tick, shared_domain_tick,
}
use freno.Throttle.Run.{
  Op, throttle, unthrottle, sweep_apps, skip, recover, sweep_hosts, perform, Step, event, operation,
  checked, self_checked,
}

-- The operation neither throttles nor unthrottles the app, and a sweep comes at `later` at most.
abbrev pub OpSpares : Text → Time → Time → Op → Type 0
OpSpares app later now (throttle name expire_at ratio) = name ≢ app
OpSpares app later now (unthrottle name) = name ≢ app
OpSpares app later now sweep_apps = now ≤ later
OpSpares app later now (skip name expire_at) = Unit
OpSpares app later now (recover name) = Unit
OpSpares app later now sweep_hosts = Unit

module _ ⦃c : CacheApi⦄ where
  -- An event is no operation on an app: a sweep comes at `later` at most.
  abbrev pub EventSpares : Time → Time → Event → Type 0
  EventSpares later now throttled_apps_tick = now ≤ later
  EventSpares later now (leader_check b) = Unit
  EventSpares later now (throttle_metric metric) = Unit
  EventSpares later now (http_check_result r) = Unit
  EventSpares later now (cluster_refresh name cluster) = Unit
  EventSpares later now (incoming_probes p) = Unit
  EventSpares later now aggregate_tick = Unit
  EventSpares later now skipped_hosts_tick = Unit
  EventSpares later now (shared_domain_tick answers) = Unit

  abbrev pub Spares : Text → Time → {t u : Throttler} → Step t u → Type 0
  Spares app later (event t dial now e) = EventSpares later now e
  Spares app later (operation t now op) = OpSpares app later now op
  Spares app later (checked t now rand name store_type store remote_addr flags) = Unit
  Spares app later (self_checked t now rand rand' flags metric_name) = Unit

  -- Any steps of the throttler up to a check at `later`, none of which throttles or unthrottles the
  -- app: events of Operate, operations on other apps and on hosts, checks and self checks.
  pub data Between (app : Text) (later : Time) (t : Throttler) : Throttler → Type 0 where
    at_once : Between app later t t
    after :
        {u v : Throttler}
        → Between app later t u
        → (step : Step u v) → Spares app later step
        → Between app later t v

  -- The throttles are the same.
  Same : Throttler → Throttler → Type 0
  Same t u = u.throttled_apps ≡ t.throttled_apps

  check-Same :
      (t : Throttler) (now : Time) (rand : ℕ → Float) (app store_type store remote_addr : Text)
      (flags : CheckFlags)
      → Same t (check t now rand app store_type store remote_addr flags).1
  unfolding Same
  check-Same t now rand app store_type store remote_addr flags =
      ap (λ (x : Throttler). x.throttled_apps)
        (check_frame t now rand app store_type store remote_addr flags).0

  local_check-Same :
      (t : Throttler) (now : Time) (rand rand' : ℕ → Float) (flags : CheckFlags)
      (metric_name : Text)
      → Same t (local_check t now rand rand' flags metric_name).1
  unfolding local_check Same mark_metric_healthy
  local_check-Same t now rand rand' flags metric_name =
      elim (Option-cases (split_metric_tokens metric_name)) [
        | inl e ↦ rw (local_check, e) refl
        | inr (tokens, e) ↦
            let own = check t now rand freno_app_name tokens.0 tokens.1 (codes "local") flags in
            let shared =
              check own.1 now rand' freno_share_domain_app_name tokens.0 tokens.1 (codes "local")
                flags in
            let kept : shared.1.throttled_apps ≡ t.throttled_apps =
              check-Same own.1 now rand' freno_share_domain_app_name tokens.0 tokens.1
                (codes "local") flags
              ∙ check-Same t now rand freno_app_name tokens.0 tokens.1 (codes "local") flags in
            rw (local_check, e)
              (if_keeps (Same t) (own.0.status_code == status_ok)
                (mark_metric_healthy shared.1 now metric_name) shared.1 kept kept)
      ]

  -- What is carried along the steps: the throttles have no end by the cache's own lifetime, and the
  -- app has its entry.
  abbrev Holds : Text → Time → AppThrottle → Throttler → Type 0
  Holds app later a t = HasSteadyApps t × (throttle_of t later app ≡ some a)

  Same-Holds :
      (app : Text) (later : Time) (a : AppThrottle) (t u : Throttler)
      → Same t u
      → Holds app later a t
      → Holds app later a u
  unfolding Same
  Same-Holds app later a t u e (s, h) = (rw e s, rw e h)

  sweep-Holds :
      (app : Text) (later now : Time) (a : AppThrottle) (t : Throttler)
      → expired later a ≡ false
      → now ≤ later
      → Holds app later a t
      → Holds app later a (expire_throttled_apps t now)
  sweep-Holds app later now a t e l (s, h) = (
    expire_throttled_apps-HasSteadyApps t now s,
    ground (arith, throttle_of-expire_throttled_apps t now later app s, h, e, l),
  )

  perform-Holds :
      (app : Text) (later now : Time) (a : AppThrottle) (t : Throttler) (op : Op)
      → expired later a ≡ false
      → OpSpares app later now op
      → Holds app later a t
      → Holds app later a (perform t now op)
  unfolding perform Same recover_host
  perform-Holds app later now a t (throttle name expire_at ratio) e n (s, h) = (
    throttle_app-HasSteadyApps t now name expire_at ratio s,
    ground (
      arith,
      n,
      str_eq_iff name app,
      throttle_of-throttle_app t now name expire_at ratio later app s,
      h,
    ),
  )
  perform-Holds app later now a t (unthrottle name) e n (s, h) = (
    unthrottle_app-HasSteadyApps t name s,
    ground (arith, n, str_eq_iff name app, throttle_of-unthrottle_app t name later app, h),
  )
  perform-Holds app later now a t sweep_apps e l h = sweep-Holds app later now a t e l h
  perform-Holds app later now a t (skip name expire_at) e l h =
      Same-Holds app later a t (skip_host t now name expire_at)
        (ap (λ (x : Throttler). x.throttled_apps) (skip_host_frame t now name expire_at)) h
  perform-Holds app later now a t (recover name) e l h = h
  perform-Holds app later now a t sweep_hosts e l h =
      Same-Holds app later a t (expire_skipped_hosts t now)
        (ap (λ (x : Throttler). x.throttled_apps) (expire_skipped_hosts_frame t now)) h

  operate-Holds :
      (app : Text) (later now : Time) (a : AppThrottle) (t : Throttler) (dial : Bool) (e : Event)
      → expired later a ≡ false
      → EventSpares later now e
      → Holds app later a t
      → Holds app later a (operate dial t now e)
  unfolding operate set_threshold update_mysql_cluster_probes collect_share_domain_metric_health
      perform Same
  operate-Holds app later now a t dial (leader_check b) f n h = h
  operate-Holds app later now a t dial (throttle_metric metric) f n h = h
  operate-Holds app later now a t dial (http_check_result r) f n h = h
  operate-Holds app later now a t dial (cluster_refresh name cluster) f n h =
      if_keeps (Holds app later a) (not t.is_leader) t (set_threshold t now name cluster) h h
  operate-Holds app later now a t dial (incoming_probes p) f n h = h
  operate-Holds app later now a t dial aggregate_tick f n h =
      Same-Holds app later a t (aggregate_mysql_metrics t now dial)
        (ap (λ (x : Throttler). x.throttled_apps) (aggregate_mysql_metrics_frame t now dial).0) h
  operate-Holds app later now a t dial throttled_apps_tick f n h =
      sweep-Holds app later now a t f n h
  operate-Holds app later now a t dial skipped_hosts_tick f n h =
      perform-Holds app later now a t sweep_hosts f tt h
  operate-Holds app later now a t dial (shared_domain_tick none) f n h = h
  operate-Holds app later now a t dial (shared_domain_tick (some answers)) f n h =
      if_keeps (Holds app later a) t.is_leader _ t h h

  Step-Holds :
      (app : Text) (later : Time) (a : AppThrottle) {t u : Throttler} (step : Step t u)
      → expired later a ≡ false
      → Spares app later step
      → Holds app later a t
      → Holds app later a u
  Step-Holds app later a (event t dial now e) f n h = operate-Holds app later now a t dial e f n h
  Step-Holds app later a (operation t now op) f n h = perform-Holds app later now a t op f n h
  Step-Holds app later a (checked t now rand name store_type store remote_addr flags) f n h =
      Same-Holds app later a t (check t now rand name store_type store remote_addr flags).1
        (check-Same t now rand name store_type store remote_addr flags) h
  Step-Holds app later a (self_checked t now rand rand' flags metric_name) f n h =
      Same-Holds app later a t (local_check t now rand rand' flags metric_name).1
        (local_check-Same t now rand rand' flags metric_name) h

  Between-Holds :
      (app : Text) (later : Time) (a : AppThrottle) {t u : Throttler}
      → expired later a ≡ false
      → Between app later t u
      → Holds app later a t
      → Holds app later a u
  Between-Holds app later a f at_once h = h
  Between-Holds app later a f (after m step n) h =
      Step-Holds app later a step f n (Between-Holds app later a f m h)

  -- A throttle that lasts up to a check is there at the check, whatever steps that leave the app
  -- alone come in between.
  throttle_of-Between :
      (app : Text) (later : Time) (a : AppThrottle) {t u : Throttler}
      → HasSteadyApps t
      → throttle_of t later app ≡ some a
      → expired later a ≡ false
      → Between app later t u
      → throttle_of u later app ≡ some a
  throttle_of-Between app later a s h e m = (Between-Holds app later a e m (s, h)).1

  -- A throttle that lasts up to a check denies the check, whatever steps that leave the app alone
  -- come in between, if the draws of the check are below its ratio.
  pub check-Between :
      (app : Text) (later : Time) (a : AppThrottle) {t u : Throttler} (rand : ℕ → Float)
      (store_name remote_addr : Text) (flags : CheckFlags)
      → HasSteadyApps t
      → throttle_of t later app ≡ some a
      → expired later a ≡ false
      → ((i : ℕ) → ltb_ℤ (rand i) a.ratio ≡ true)
      → Between app later t u
      → (check u later rand app (codes "mysql") store_name remote_addr flags).0.status_code
        ≡ status_expectation_failed
  check-Between app later a {t = t} {u = u} rand store_name remote_addr flags s h e d m =
      check_denied u later rand app store_name remote_addr flags (
        ground (
          arith,
          throttle_of-Between app later a s h e m,
          e,
          is_app_throttled_verdicts u later rand app store_name,
          d (draws (throttle_of u later (app ++ (b'/' ∷ store_name))) later),
        ))
