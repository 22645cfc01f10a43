-- ===== src/Throttle/Check/Frame.antt =====
-- The frame of a check: it changes the recent apps, the marks of denied priority, and for a self
-- check the times of health.
use freno.Prelude.{ℕ, ◌≡◌, refl, ◌∙◌, ap, Bool, true, [], ◌∷◌, ◌++◌, if_keeps}
use freno.Go.Text.{Text, codes, str_eq}
use freno.Go.Float.{Float}
use freno.Go.Time.{Time}
use freno.Base.Metric.{MetricResult}
use freno.Cache.Api.{CacheApi, default_expiration}
use freno.Throttle.State.{Throttler, mark_recent_app, get_mysql_cluster_metrics}
use freno.Throttle.Check.{CheckFlags, CheckResult, mark_denied, check_app_metric_result, check}

module _ ⦃c : CacheApi⦄ where
  -- The second state is the first but for the recent apps and the marks, whose cache keeps its
  -- lifetime.
  abbrev pub Marks : Throttler → Throttler → Type 0
  Marks t t' =
      (t' ≡ record t {
        recent_apps = t'.recent_apps;
        non_low_priority_app_requests_throttled = t'.non_low_priority_app_requests_throttled;
      })
      × (c.ttl Bool t'.non_low_priority_app_requests_throttled
          ≡ c.ttl Bool t.non_low_priority_app_requests_throttled)

  Marks-trans : (t t' t'' : Throttler) → Marks t t' → Marks t' t'' → Marks t t''
  Marks-trans t t' t'' (p, i) (q, j) = (
    q
        ∙ ap
            (λ (x : Throttler). record x {
              recent_apps = t''.recent_apps;
              non_low_priority_app_requests_throttled = t''.non_low_priority_app_requests_throttled;
            })
            p,
    j ∙ i,
  )

  mark_denied_frame :
      (b : Bool) (now : Time) (name : Text) (t : Throttler) → Marks t (mark_denied b now name t)
  unfolding mark_denied
  mark_denied_frame b now name t =
      if_keeps (Marks t) b _ t
        (
          refl,
          c.ttl-set Bool t.non_low_priority_app_requests_throttled now name true default_expiration,
        )
        (refl, refl)

  check_app_metric_result_frame :
      (t : Throttler) (now : Time) (rand : ℕ → Float) (app store_type store : Text)
      (metric : MetricResult × Float) (flags : CheckFlags)
      → Marks t (check_app_metric_result t now rand app store_type store metric flags).1
  unfolding check_app_metric_result
  check_app_metric_result_frame t now rand app store_type store metric flags =
      if_keeps (λ (r : CheckResult × Throttler). Marks t r.1) (str_eq app []) _ _ (refl, refl)
        (mark_denied_frame _ now (store_type ++ (b'/' ∷ store)) t)

  pub check_frame :
      (t : Throttler) (now : Time) (rand : ℕ → Float) (app store_type store remote_addr : Text)
      (flags : CheckFlags)
      → Marks t (check t now rand app store_type store remote_addr flags).1
  unfolding check mark_recent_app
  check_frame t now rand app store_type store remote_addr flags =
      let answer =
        check_app_metric_result t now rand app store_type store
          (get_mysql_cluster_metrics t now store) flags in
      if_keeps (λ (r : CheckResult × Throttler). Marks t r.1) (str_eq store_type (codes "mysql")) _
        _
        (Marks-trans t answer.1 (mark_recent_app answer.1 now app remote_addr)
          (check_app_metric_result_frame t now rand app store_type store
            (get_mysql_cluster_metrics t now store) flags)
          (refl, refl))
        (refl, refl)
