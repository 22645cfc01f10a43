-- ===== src/Throttle/Inventory/Laws.antt =====
-- The law of the inventory: what the aggregation of the metrics publishes.
use freno.Prelude.{
  Bool-cases, inl, inr, ◌+◌, ◌*◌, ◌≤◌, ◌≡◌, refl, ◌∙◌, Bool, true, none, some, [], ◌∷◌, ◌++◌, arith,
}
use freno.Go.Text.{Text, codes, str_eq_iff, text_eq}
use freno.Go.Dict.{Dict, lookup, KeysOnce}
use freno.Go.Time.{Time, second}
use freno.Base.Metric.{MetricResult}
use freno.Mysql.Key.{key_eq}
use freno.Mysql.Probe.{Probes}
use freno.Mysql.Inventory.{MySqlInventory}
use freno.Cache.Api.{CacheApi, default_expiration}
use freno.Throttle.State.{Throttler, aggregated_metrics_expiration, get_named_metric}
use freno.Throttle.Inventory.{cluster_metric, aggregate_clusters, aggregate_mysql_metrics}

module _ ⦃c : CacheApi⦄ where
  get-aggregate_clusters :
      (dial : Bool) (inventory : MySqlInventory) (now later : Time) (clusters : Dict Text Probes)
      (m : c.Cache MetricResult) (name : Text)
      → c.ttl MetricResult m ≡ some aggregated_metrics_expiration
      → later ≤ now + 5 * second
      → KeysOnce clusters
      → c.get MetricResult
          (aggregate_clusters dial inventory now clusters m)
          later
          (codes "mysql/" ++ name)
        ≡ elim (lookup name clusters) [
          | none ↦ c.get MetricResult m later (codes "mysql/" ++ name)
          | some probes ↦ some (cluster_metric dial inventory name probes)
        ]
  unfolding aggregate_clusters lookup
  get-aggregate_clusters dial inventory now later [] m name d h k = refl
  get-aggregate_clusters dial inventory now later ((j, probes) ∷ clusters) m name d h (n, k) =
      let value = cluster_metric dial inventory j probes in
      let m' = c.set MetricResult m now (codes "mysql/" ++ j) value default_expiration in
      ground (
        arith,
        d,
        c.ttl-set MetricResult m now (codes "mysql/" ++ j) value default_expiration,
        c.get-set MetricResult m now (codes "mysql/" ++ j) value default_expiration later
            (codes "mysql/" ++ name),
        str_eq_iff j name,
        str_eq_iff (codes "mysql/" ++ j) (codes "mysql/" ++ name),
        get-aggregate_clusters dial inventory now later clusters m' name
            (c.ttl-set MetricResult m now (codes "mysql/" ++ j) value default_expiration ∙ d) h k,
      )

  ttl-aggregate_clusters :
      (dial : Bool) (inventory : MySqlInventory) (now : Time) (clusters : Dict Text Probes)
      (m : c.Cache MetricResult)
      → c.ttl MetricResult (aggregate_clusters dial inventory now clusters m) ≡ c.ttl MetricResult m
  unfolding aggregate_clusters
  ttl-aggregate_clusters dial inventory now [] m = refl
  ttl-aggregate_clusters dial inventory now ((j, probes) ∷ clusters) m =
      let value = cluster_metric dial inventory j probes in
      ttl-aggregate_clusters dial inventory now clusters
        (c.set MetricResult m now (codes "mysql/" ++ j) value default_expiration)
      ∙ c.ttl-set MetricResult m now (codes "mysql/" ++ j) value default_expiration

  -- The aggregation changes the metrics alone, and keeps the lifetime of their cache.
  pub aggregate_mysql_metrics_frame :
      (t : Throttler) (now : Time) (dial : Bool)
      → (aggregate_mysql_metrics t now dial ≡ record t {
        aggregated_metrics = (aggregate_mysql_metrics t now dial).aggregated_metrics;
      })
        × (c.ttl MetricResult (aggregate_mysql_metrics t now dial).aggregated_metrics
            ≡ c.ttl MetricResult t.aggregated_metrics)
  unfolding aggregate_mysql_metrics
  aggregate_mysql_metrics_frame t now dial = elim (Bool-cases t.is_leader) [
    | inl l ↦ rw l (
      refl,
      ttl-aggregate_clusters dial t.mysql_inventory now t.mysql_inventory.clusters_probes
          t.aggregated_metrics,
    )
    | inr l ↦ rw l (refl, refl)
  ]

  -- For five seconds after an aggregation on the leader, the metric of each cluster of the
  -- inventory is the aggregate of its probes as the inventory had them. No cluster stands twice in
  -- the inventory, and the cache of the metrics has the lifetime that NewThrottler gives it.
  pub get_named_metric-aggregate_mysql_metrics :
      (t : Throttler) (now later : Time) (dial : Bool) (name : Text) (probes : Probes)
      → t.is_leader ≡ true
      → c.ttl MetricResult t.aggregated_metrics ≡ some aggregated_metrics_expiration
      → KeysOnce t.mysql_inventory.clusters_probes
      → lookup name t.mysql_inventory.clusters_probes ≡ some probes
      → later ≤ now + 5 * second
      → get_named_metric (aggregate_mysql_metrics t now dial) later (codes "mysql/" ++ name)
        ≡ cluster_metric dial t.mysql_inventory name probes
  unfolding get_named_metric aggregate_mysql_metrics
  get_named_metric-aggregate_mysql_metrics t now later dial name probes l d k e h = ground (
    arith,
    l,
    e,
    get-aggregate_clusters dial t.mysql_inventory now later t.mysql_inventory.clusters_probes
        t.aggregated_metrics name d h k,
  )
