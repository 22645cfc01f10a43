-- ===== src/Throttle/Check/Memory.antt =====
-- What a check remembers: the denial of low priority, and the health of a metric.
use freno.Prelude.{
  ℕ, ◌==◌, ◌+◌, ◌-◌, ◌≤◌, ◌≡◌, ◌≢◌, ◌⊎◌, inl, inr, ◌∙◌, ap, Bool, true, false, none, some, [], ◌∷◌,
  ◌++◌, if◌then◌else◌, arith, Option-cases,
}
use freno.Go.Text.{Text, codes, str_eq, str_eq_iff, text_eq}
use freno.Go.Int.{◌<ℤ◌}
use freno.Go.Float.{Float}
use freno.Go.Time.{Time, second, since}
use freno.Base.Metric.{app_denied_metric}
use freno.Cache.Api.{CacheApi, IsSteady, default_expiration}
use freno.Throttle.State.{
  Throttler, get_mysql_cluster_metrics, mark_recent_app, mark_metric_healthy,
  time_since_metric_healthy, non_deprioritized_app_map_expiration,
}
use freno.Throttle.Check.{
  CheckFlags, check_app_metric_result, check, local_check, new_check_result,
  no_such_metric_check_result, freno_share_domain_app_name, freno_app_name, status_ok,
  status_expectation_failed, split_metric_tokens,
}
use freno.Throttle.Check.Laws.{effective_threshold, denied}

module _ ⦃c : CacheApi⦄ where
  -- The value of the metric is above the threshold of the check.
  abbrev pub Exceeds : Throttler → Time → Text → CheckFlags → Type 0
  Exceeds t now store_name flags =
      ((get_mysql_cluster_metrics t now store_name).0.get.1 ≡ none)
      × (effective_threshold flags (get_mysql_cluster_metrics t now store_name).1
          <ℤ (get_mysql_cluster_metrics t now store_name).0.get.0)

  -- A write check of normal priority, by another app than freno.
  abbrev pub IsNormal : Text → CheckFlags → Type 0
  IsNormal app_name flags =
      (app_name ≢ [])
      × (app_name ≢ freno_app_name)
      × (flags.low_priority ≡ false)
      × (flags.read_check ≡ false)

  -- It leaves a mark on the metric.
  marks :
      (t : Throttler) (now : Time) (rand : ℕ → Float) (app_name store_name remote_addr : Text)
      (flags : CheckFlags)
      → IsNormal app_name flags
      → denied t now rand app_name store_name flags ≡ false
      → Exceeds t now store_name flags
      → (check t now rand app_name
          (codes "mysql")
          store_name
          remote_addr
          flags).1.non_low_priority_app_requests_throttled
        ≡ c.set Bool t.non_low_priority_app_requests_throttled now
            (codes "mysql" ++ (b'/' ∷ store_name))
            true
            default_expiration
  unfolding check check_app_metric_result mark_recent_app str_eq
  marks t now rand app_name store_name remote_addr flags n d e =
      ground (arith, str_eq_iff app_name [], str_eq_iff app_name freno_app_name)

  -- A marked metric denies a low priority check.
  denies :
      (t : Throttler) (now : Time) (rand : ℕ → Float) (app_name store_name remote_addr : Text)
      (flags : CheckFlags)
      → flags.low_priority ≡ true
      → c.get Bool t.non_low_priority_app_requests_throttled now
          (codes "mysql" ++ (b'/' ∷ store_name))
        ≡ some true
      → (check t now rand app_name (codes "mysql") store_name remote_addr flags).0.status_code
        ≡ status_expectation_failed
  unfolding check check_app_metric_result new_check_result app_denied_metric str_eq
  denies t now rand app_name store_name remote_addr flags l g =
      ground (arith, str_eq_iff app_name [])

  -- Once a write check of normal priority, by a named app other than freno that is not denied, has
  -- found the metric above its threshold, every low priority check of the same store within the
  -- next second is answered with 417, whichever app asks, in every state with the marks that the
  -- first check left: its metrics, thresholds, throttles, skips and all the rest are arbitrary. The
  -- cache of these marks has the lifetime that NewThrottler gives it.
  pub check_low_priority_denied :
      (t t' : Throttler) (now later : Time) (rand rand' : ℕ → Float)
      (app_name app_name' store_name remote_addr remote_addr' : Text) (flags flags' : CheckFlags)
      → c.ttl Bool t.non_low_priority_app_requests_throttled
        ≡ some non_deprioritized_app_map_expiration
      → IsNormal app_name flags
      → denied t now rand app_name store_name flags ≡ false
      → Exceeds t now store_name flags
      → t'.non_low_priority_app_requests_throttled
        ≡ (check t now rand app_name
            (codes "mysql")
            store_name
            remote_addr
            flags).1.non_low_priority_app_requests_throttled
      → flags'.low_priority ≡ true
      → later ≤ now + second
      → (check t' later rand' app_name'
          (codes "mysql")
          store_name
          remote_addr'
          flags').0.status_code
        ≡ status_expectation_failed
  check_low_priority_denied t t' now later rand rand' app_name app_name' store_name remote_addr
        remote_addr' flags flags' d n f e kept l h =
      let m = t.non_low_priority_app_requests_throttled in
      let metric_name = codes "mysql" ++ (b'/' ∷ store_name) in
      denies t' later rand' app_name' store_name remote_addr' flags' l (
        ap (λ b. c.get Bool b later metric_name)
          (kept ∙ marks t now rand app_name store_name remote_addr flags n f e)
        ∙ ground (
          arith,
          c.get-set Bool m now metric_name true default_expiration later metric_name,
          d,
          str_eq_iff metric_name metric_name,
        ))

  -- A check of low priority, of a read, or by freno itself leaves no mark.
  pub check_leaves_no_mark :
      (t : Throttler) (now : Time) (rand : ℕ → Float)
      (app_name store_type store_name remote_addr : Text) (flags : CheckFlags)
      → (flags.low_priority ≡ true) ⊎ (flags.read_check ≡ true) ⊎ (app_name ≡ freno_app_name)
      → (check t now rand app_name store_type store_name remote_addr
          flags).1.non_low_priority_app_requests_throttled
        ≡ t.non_low_priority_app_requests_throttled
  unfolding check check_app_metric_result mark_recent_app
  check_leaves_no_mark t now rand app_name store_type store_name remote_addr flags h =
      ground (arith, str_eq_iff app_name freno_app_name)

  metrics_health-check :
      (t : Throttler) (now : Time) (rand : ℕ → Float)
      (app_name store_type store_name remote_addr : Text) (flags : CheckFlags)
      → (check t now rand app_name store_type store_name remote_addr flags).1.metrics_health
        ≡ t.metrics_health
  unfolding check check_app_metric_result mark_recent_app
  metrics_health-check t now rand app_name store_type store_name remote_addr flags = ground arith

  -- A self check of a metric makes the metric healthy as of now if it is answered with 200, and
  -- otherwise leaves the time at which it was healthy as it was. The times of health do not end by
  -- the cache's own lifetime, as in a new throttler.
  pub time_since_metric_healthy-local_check :
      (t : Throttler) (now later : Time) (rand rand' : ℕ → Float) (flags : CheckFlags)
      (metric_name : Text)
      → IsSteady Time t.metrics_health
      → time_since_metric_healthy
          (local_check t now rand rand' flags metric_name).1
          later
          metric_name
        ≡ (if (local_check t now rand rand' flags metric_name).0.status_code == status_ok
            then some (later - now)
            else time_since_metric_healthy t later metric_name)
  unfolding time_since_metric_healthy local_check mark_metric_healthy since
      no_such_metric_check_result
  time_since_metric_healthy-local_check t now later rand rand' flags metric_name s =
      elim (Option-cases (split_metric_tokens metric_name)) [
        | inl e ↦ ground (arith, e)
        | inr (tokens, e) ↦
            let own = check t now rand freno_app_name tokens.0 tokens.1 (codes "local") flags in
            let shared =
              check own.1 now rand' freno_share_domain_app_name tokens.0 tokens.1 (codes "local")
                flags in
            let kept : shared.1.metrics_health ≡ t.metrics_health =
              metrics_health-check own.1 now rand' freno_share_domain_app_name tokens.0 tokens.1
                (codes "local") flags
              ∙ metrics_health-check t now rand freno_app_name tokens.0 tokens.1 (codes "local")
                  flags in
            ground (
              arith,
              e,
              kept,
              s.no_ttl,
              str_eq_iff metric_name metric_name,
              c.get-set Time shared.1.metrics_health now metric_name now default_expiration later
                  metric_name,
            )
      ]
