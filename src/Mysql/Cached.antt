-- ===== src/Mysql/Cached.antt =====
-- The laws of reading a throttle metric through the cache.
use freno.Prelude.{ℕ, ◌≡◌, none, arith}
use freno.Go.Text.{Text, text_eq}
use freno.Mysql.Probe.{Probe}
use freno.Cache.Api.{CacheApi}
use freno.Mysql.ThrottleMetric.{
  MySqlThrottleMetric, Databases, cache_mysql_throttle_metric, get_cached_mysql_throttle_metric,
  read_throttle_metric,
}

module _ ⦃c : CacheApi⦄ where
  -- Without a cached metric the metric that is read is labelled by the cluster and the probe of the
  -- request.
  pub read_throttle_metric_labels :
      (db : Databases) (uri : Text) (m : c.Cache MySqlThrottleMetric) (now : ℕ) (probe : Probe)
      (cluster_name : Text)
      → get_cached_mysql_throttle_metric m now probe ≡ none
      → ((read_throttle_metric db uri m now probe cluster_name).0.cluster_name ≡ cluster_name)
        × ((read_throttle_metric db uri m now probe cluster_name).0.key ≡ probe.key)
  unfolding read_throttle_metric cache_mysql_throttle_metric
  read_throttle_metric_labels db uri m now probe cluster_name h = ground (arith, h)
