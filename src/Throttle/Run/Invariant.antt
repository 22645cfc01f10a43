-- ===== src/Throttle/Run/Invariant.antt =====
-- What holds of every state that the service reaches: the caches keep the lifetimes with which they
-- were made, the entries of the caches without a lifetime stay, and no cluster stands twice.
use freno.Prelude.{
  ℕ, sym, ◌+◌, ◌*◌, ◌==◌, ◌∙◌, ◌≡◌, inl, inr, Bool, not, none, some, if_keeps, Option-cases,
}
use mathlib.Core.Path.{subst}
use freno.Go.Text.{Text, codes, text_eq}
use freno.Go.Float.{Float}
use freno.Go.Dict.{KeysOnce, insert-KeysOnce}
use freno.Go.Time.{Time, second}
use freno.Base.Metric.{AppThrottle, MetricResult}
use freno.Mysql.Inventory.{new_mysql_inventory}
use freno.Cache.Api.{CacheApi, IsSteady, IsSteady-new, IsSteady-set_default}
use freno.Throttle.State.{
  Throttler, empty_throttler, aggregated_metrics_expiration, non_deprioritized_app_map_expiration,
  mark_metric_healthy, collect_share_domain_metric_health,
}
use freno.Throttle.Hosts.{recover_host, skip_host, expire_skipped_hosts}
use freno.Throttle.Apps.{
  unthrottle_app, throttle_app, default_throttle_ratio, new_throttler, expire_throttled_apps,
}
use freno.Throttle.Apps.Frame.{throttle_app_frame, expire_throttled_apps_frame}
use freno.Throttle.Hosts.Frame.{skip_host_frame, expire_skipped_hosts_frame}
use freno.Throttle.Inventory.Laws.{aggregate_mysql_metrics_frame}
use freno.Config.Stores.{MySqlClusterSettings}
use freno.Throttle.Inventory.{aggregate_mysql_metrics, set_threshold, update_mysql_cluster_probes}
use freno.Throttle.Check.{
  CheckFlags, check, local_check, split_metric_tokens, freno_app_name, freno_share_domain_app_name,
  status_ok,
}
use freno.Throttle.Check.Frame.{Marks, check_frame}
use freno.Throttle.Operate.{
  Event, operate, leader_check, throttle_metric, http_check_result, cluster_refresh,
  incoming_probes, aggregate_tick, throttled_apps_tick, skipped_hosts_tick, shared_domain_tick,
}
use freno.Throttle.Run.{
  Op, throttle, unthrottle, sweep_apps, skip, recover, sweep_hosts, perform, Step, event, operation,
  checked, self_checked, Reached, started, stepped,
}
use freno.Throttle.Run.Spec.{IsSteadyState, perform-IsSteadyState}

module _ ⦃c : CacheApi⦄ where
  -- The parts of the state that the operations on apps and hosts leave alone.
  abbrev pub HasLifetimes : Throttler → Type 0
  HasLifetimes t =
      IsSteady Float t.mysql_cluster_thresholds
      × IsSteady Time t.metrics_health
      × (c.ttl MetricResult t.aggregated_metrics ≡ some aggregated_metrics_expiration)
      × (c.ttl Bool t.non_low_priority_app_requests_throttled
          ≡ some non_deprioritized_app_map_expiration)
      × KeysOnce t.mysql_inventory.clusters_probes

  abbrev pub IsWellFormed : Throttler → Type 0
  IsWellFormed t = IsSteadyState t × HasLifetimes t

  empty-IsWellFormed : IsWellFormed empty_throttler
  unfolding empty_throttler new_mysql_inventory
  empty-IsWellFormed = (
    (IsSteady-new AppThrottle, IsSteady-new Time),
    (
      IsSteady-new Float,
      IsSteady-new Time,
      c.ttl-new MetricResult (some aggregated_metrics_expiration),
      c.ttl-new Bool (some non_deprioritized_app_map_expiration),
      tt,
    ),
  )

  -- A state that differs in the throttles alone, or in the skips alone, has the lifetimes.
  HasLifetimes-throttles :
      (t t' : Throttler)
      → t' ≡ record t { throttled_apps = t'.throttled_apps }
      → HasLifetimes t
      → HasLifetimes t'
  HasLifetimes-throttles t t' e h = rw e h

  HasLifetimes-skips :
      (t t' : Throttler)
      → t' ≡ record t { skipped_hosts = t'.skipped_hosts }
      → HasLifetimes t
      → HasLifetimes t'
  HasLifetimes-skips t t' e h = rw e h

  perform-HasLifetimes :
      (t : Throttler) (now : Time) (op : Op) → HasLifetimes t → HasLifetimes (perform t now op)
  unfolding perform unthrottle_app recover_host
  perform-HasLifetimes t now (throttle a e r) l =
      HasLifetimes-throttles t (throttle_app t now a e r) (throttle_app_frame t now a e r) l
  perform-HasLifetimes t now (unthrottle a) l = l
  perform-HasLifetimes t now sweep_apps l =
      HasLifetimes-throttles t (expire_throttled_apps t now) (expire_throttled_apps_frame t now) l
  perform-HasLifetimes t now (skip n e) l =
      HasLifetimes-skips t (skip_host t now n e) (skip_host_frame t now n e) l
  perform-HasLifetimes t now (recover n) l = l
  perform-HasLifetimes t now sweep_hosts l =
      HasLifetimes-skips t (expire_skipped_hosts t now) (expire_skipped_hosts_frame t now) l

  perform-IsWellFormed :
      (t : Throttler) (now : Time) (op : Op) → IsWellFormed t → IsWellFormed (perform t now op)
  perform-IsWellFormed t now op (s, l) =
      (perform-IsSteadyState t now op s, perform-HasLifetimes t now op l)

  set_threshold-IsWellFormed :
      (t : Throttler) (now : Time) (name : Text) (cluster : MySqlClusterSettings)
      → IsWellFormed t
      → IsWellFormed (set_threshold t now name cluster)
  unfolding set_threshold
  set_threshold-IsWellFormed t now name cluster (s, (thresholds, health, metrics, marks, once)) = (
    s,
    (
      IsSteady-set_default Float t.mysql_cluster_thresholds now name cluster.throttle_threshold
          thresholds,
      health,
      metrics,
      marks,
      once,
    ),
  )

  aggregate_mysql_metrics-IsWellFormed :
      (t : Throttler) (now : Time) (dial : Bool)
      → IsWellFormed t
      → IsWellFormed (aggregate_mysql_metrics t now dial)
  aggregate_mysql_metrics-IsWellFormed t now dial (s, (thresholds, health, metrics, marks, once)) =
      let (frame, ttl) = aggregate_mysql_metrics_frame t now dial in
      let kept : IsWellFormed (record t {
        aggregated_metrics = (aggregate_mysql_metrics t now dial).aggregated_metrics;
      }) =
        (s, (thresholds, health, ttl ∙ metrics, marks, once)) in
      subst IsWellFormed (sym frame) kept

  operate-IsWellFormed :
      (t : Throttler) (dial : Bool) (now : Time) (e : Event)
      → IsWellFormed t
      → IsWellFormed (operate dial t now e)
  unfolding operate update_mysql_cluster_probes collect_share_domain_metric_health perform
  operate-IsWellFormed t dial now (leader_check b) h = h
  operate-IsWellFormed t dial now (throttle_metric metric) h = h
  operate-IsWellFormed t dial now (http_check_result r) h = h
  operate-IsWellFormed t dial now (cluster_refresh name cluster) h =
      if_keeps IsWellFormed (not t.is_leader) t (set_threshold t now name cluster) h
        (set_threshold-IsWellFormed t now name cluster h)
  operate-IsWellFormed t dial now (incoming_probes p)
        (s, (thresholds, health, metrics, marks, once)) =
      (
        s,
        (
          thresholds,
          health,
          metrics,
          marks,
          insert-KeysOnce p.cluster_name p.instance_probes t.mysql_inventory.clusters_probes once,
        ),
      )
  operate-IsWellFormed t dial now aggregate_tick h =
      aggregate_mysql_metrics-IsWellFormed t now dial h
  operate-IsWellFormed t dial now throttled_apps_tick h = perform-IsWellFormed t now sweep_apps h
  operate-IsWellFormed t dial now skipped_hosts_tick h = perform-IsWellFormed t now sweep_hosts h
  operate-IsWellFormed t dial now (shared_domain_tick none) h = h
  operate-IsWellFormed t dial now (shared_domain_tick (some answers)) h =
      if_keeps IsWellFormed t.is_leader _ t h h

  Marks-IsWellFormed : (t t' : Throttler) → Marks t t' → IsWellFormed t → IsWellFormed t'
  Marks-IsWellFormed t t' (frame, ttl) (s, (thresholds, health, metrics, marks, once)) =
      let kept : IsWellFormed (record t {
        recent_apps = t'.recent_apps;
        non_low_priority_app_requests_throttled = t'.non_low_priority_app_requests_throttled;
      }) =
        (s, (thresholds, health, metrics, ttl ∙ marks, once)) in
      subst IsWellFormed (sym frame) kept

  check-IsWellFormed :
      (t : Throttler) (now : Time) (rand : ℕ → Float) (app store_type store remote_addr : Text)
      (flags : CheckFlags)
      → IsWellFormed t
      → IsWellFormed (check t now rand app store_type store remote_addr flags).1
  check-IsWellFormed t now rand app store_type store remote_addr flags h =
      Marks-IsWellFormed t (check t now rand app store_type store remote_addr flags).1
        (check_frame t now rand app store_type store remote_addr flags) h

  mark_metric_healthy-IsWellFormed :
      (t : Throttler) (now : Time) (name : Text)
      → IsWellFormed t
      → IsWellFormed (mark_metric_healthy t now name)
  unfolding mark_metric_healthy
  mark_metric_healthy-IsWellFormed t now name (s, (thresholds, health, metrics, marks, once)) = (
    s,
    (
      thresholds,
      IsSteady-set_default Time t.metrics_health now name now health,
      metrics,
      marks,
      once,
    ),
  )

  local_check-IsWellFormed :
      (t : Throttler) (now : Time) (rand rand' : ℕ → Float) (flags : CheckFlags)
      (metric_name : Text)
      → IsWellFormed t
      → IsWellFormed (local_check t now rand rand' flags metric_name).1
  unfolding local_check
  local_check-IsWellFormed t now rand rand' flags metric_name h =
      elim (Option-cases (split_metric_tokens metric_name)) [
        | inl e ↦ rw (local_check, e) h
        | inr (tokens, e) ↦
            let own = check t now rand freno_app_name tokens.0 tokens.1 (codes "local") flags in
            let shared =
              check own.1 now rand' freno_share_domain_app_name tokens.0 tokens.1 (codes "local")
                flags in
            let kept =
              check-IsWellFormed own.1 now rand' freno_share_domain_app_name tokens.0 tokens.1
                (codes "local") flags
                (check-IsWellFormed t now rand freno_app_name tokens.0 tokens.1 (codes "local")
                  flags h) in
            rw (local_check, e)
              (if_keeps IsWellFormed (own.0.status_code == status_ok)
                (mark_metric_healthy shared.1 now metric_name) shared.1
                (mark_metric_healthy-IsWellFormed shared.1 now metric_name kept) kept)
      ]

  Step-IsWellFormed : {t u : Throttler} → Step t u → IsWellFormed t → IsWellFormed u
  Step-IsWellFormed (event t dial now e) h = operate-IsWellFormed t dial now e h
  Step-IsWellFormed (operation t now op) h = perform-IsWellFormed t now op h
  Step-IsWellFormed (checked t now rand app store_type store remote_addr flags) h =
      check-IsWellFormed t now rand app store_type store remote_addr flags h
  Step-IsWellFormed (self_checked t now rand rand' flags metric_name) h =
      local_check-IsWellFormed t now rand rand' flags metric_name h

  -- In every state that the throttler reaches by its construction, the events of Operate, the
  -- operations on apps and hosts, the checks and the self checks, no cluster stands twice in the
  -- inventory, the caches of throttles, skips, thresholds and health have no entry that ends by a
  -- lifetime of the cache, and the caches of metrics and of marks have the lifetimes that
  -- NewThrottler gives them.
  pub Reached-IsWellFormed : {t : Throttler} → Reached t → IsWellFormed t
  unfolding new_throttler perform
  Reached-IsWellFormed (started now) =
      perform-IsWellFormed empty_throttler now
        (throttle (codes "abusing-app") (now + 24 * 365 * 10 * 3600 * second)
          default_throttle_ratio)
        empty-IsWellFormed
  Reached-IsWellFormed (stepped r step) = Step-IsWellFormed step (Reached-IsWellFormed r)
