-- ===== src/Throttle/Check/ShareDomain.antt =====
-- A service that is unhealthy in the shared domain holds the writers of the others back.
use freno.Prelude.{ℕ, ◌+◌, ◌*◌, ◌≤◌, ◌≡◌, ◌≢◌, true, some, List, Option, ◌∷◌, ◌++◌, inl, inr, arith}
use freno.Go.Int.{pos}
use freno.Go.Text.{Text, codes}
use freno.Go.Float.{Float}
use freno.Go.Time.{Time, second}
use freno.Base.Health.{MetricHealth, MetricHealthMap}
use freno.Cache.Api.{CacheApi}
use freno.Throttle.State.{
  Throttler, shared_domain_collect_interval, collect_share_domain_metric_health,
}
use freno.Throttle.State.Health.{SomeUnhealthy, AreMaps, get_share_domain-collect}
use freno.Throttle.Check.{CheckFlags, check, freno_app_name, status_ok}
use freno.Throttle.Check.Laws.{check_ok_iff}

module _ ⦃c : CacheApi⦄ where
  -- For five seconds after a collection of the shared domain's health on the leader, in which some
  -- service answered that a metric had been unhealthy for at least a second, no check of its store
  -- by an app other than freno is answered with 200, whatever the other services answered. The
  -- answers name no metric twice, and the cache of the health has the lifetime that NewThrottler
  -- gives it.
  pub check-collect_share_domain_metric_health :
      (t : Throttler) (now later : Time) (answers : List (Option MetricHealthMap))
      (rand : ℕ → Float) (app_name store_name remote_addr : Text) (flags : CheckFlags)
      → t.is_leader ≡ true
      → c.ttl MetricHealth t.share_domain_metric_health ≡ some (5 * shared_domain_collect_interval)
      → later ≤ now + 5 * second
      → AreMaps answers
      → SomeUnhealthy (pos 1) (codes "mysql" ++ (b'/' ∷ store_name)) answers
      → app_name ≢ freno_app_name
      → (check
          (collect_share_domain_metric_health t now (some answers))
          later
          rand
          app_name
          (codes "mysql")
          store_name
          remote_addr
          flags).0.status_code
        ≢ status_ok
  check-collect_share_domain_metric_health t now later answers rand app_name store_name remote_addr
        flags l d h k s n =
      let t' = collect_share_domain_metric_health t now (some answers) in
      let worst =
        get_share_domain-collect t now later answers (codes "mysql" ++ (b'/' ∷ store_name)) (pos 1)
          l d h k s in
      λ ok.
        let facts = (check_ok_iff t' later rand app_name store_name flags remote_addr).0 ok in
        elim facts.4 [ inl e ↦ n e | inr healthy ↦ omega (arith, worst, healthy) ]
