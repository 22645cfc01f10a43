-- ===== src/Throttle/Run/Verdict.antt =====
-- From the probes to the answer: a check after an aggregation, by the hosts of the cluster.
use freno.Prelude.{
  ℕ, ◌+◌, ◌*◌, ◌≤◌, ◌≡◌, ◌≢◌, ◌↔◌, ◌⊎◌, ap, Bool, true, false, none, some, [], ◌∷◌, ◌++◌, count_of,
  or_else, arith,
}
use freno.Go.Text.{Text, codes, text_eq}
use freno.Go.Int.{ℤ, pos, pos_part, ltb_ℤ, ◌<ℤ◌, ◌≤ℤ◌}
use freno.Go.Float.{Float, float_zero}
use freno.Go.Dict.{lookup}
use freno.Go.Time.{Time, second}
use freno.Cache.Api.{CacheApi}
use freno.Mysql.Probe.{Probes}
use freno.Mysql.Inventory.{MySqlInventory}
use freno.Throttle.Aggregate.{Inputs, aggregate_mysql_probes}
use freno.Throttle.Aggregate.Collect.{values_of, errors_of, unreads_of}
use freno.Throttle.Aggregate.Result.{ignored_values, aggregate_mysql_probes_succeeds}
use freno.Throttle.Aggregate.Rank.{aggregate_mysql_probes-above}
use freno.Throttle.State.{
  Throttler, get_mysql_cluster_metrics, get_share_domain_seconds_since_health,
}
use freno.Throttle.Inventory.{cluster_metric, aggregate_mysql_metrics}
use freno.Throttle.Inventory.Laws.{
  aggregate_mysql_metrics_frame, get_named_metric-aggregate_mysql_metrics,
}
use freno.Throttle.Check.{CheckFlags, check, freno_app_name, status_ok}
use freno.Throttle.Check.Laws.{effective_threshold, denied, check_ok_iff}
use freno.Throttle.Run.{Reached}
use freno.Throttle.Run.Invariant.{Reached-IsWellFormed}

-- What the inventory has for the aggregation of a cluster.
abbrev pub cluster_inputs : Bool → MySqlInventory → Text → Inputs
cluster_inputs dial inventory name = record {
  cluster_name = name;
  instance_results_map = inventory.instance_key_metrics;
  cluster_instance_http_checks_map = inventory.cluster_instance_http_checks;
  ignore_dial_tcp_errors = dial;
  ignore_hosts_threshold = or_else (lookup name inventory.ignore_hosts_threshold) float_zero;
}

abbrev pub tokens : MySqlInventory → Text → ℤ
tokens inventory name = or_else (lookup name inventory.ignore_hosts_count) (pos 0)

-- Every host of the cluster has been read, errors are at most as many as may be ignored, some host
-- has a value, and those above the bound are at most as many as are ignored.
abbrev pub IsWithin : Inputs → Probes → ℤ → Float → Type 0
IsWithin i probes count bound =
    (unreads_of i probes ≡ 0)
    × (errors_of i probes ≤ pos_part count)
    × (values_of i probes ≢ [])
    × (count_of (ltb_ℤ bound) (values_of i probes) ≤ ignored_values i probes count)

-- The aggregated metric passes the tests of a check exactly then.
metric-IsWithin :
    (i : Inputs) (probes : Probes) (count : ℤ) (bound : Float)
    → (((aggregate_mysql_probes i probes count).get.1 ≡ none)
        × ((aggregate_mysql_probes i probes count).get.0 ≤ℤ bound))
      ↔ IsWithin i probes count bound
metric-IsWithin i probes count bound = (
  λ h.
      let (u, e, v) = (aggregate_mysql_probes_succeeds i probes count).0 h.0 in
      (u, e, v, ground (arith, h.1, aggregate_mysql_probes-above i probes count bound u e v)),
  λ w.
      let (u, e, v, c) = w in
      (
        (aggregate_mysql_probes_succeeds i probes count).1 (u, e, v),
        ground (arith, c, aggregate_mysql_probes-above i probes count bound u e v),
      ),
)

module _ ⦃c : CacheApi⦄ where
  cluster_metrics-aggregated :
      (t : Throttler) (now later : Time) (dial : Bool) (name : Text) (probes : Probes)
      (threshold : Float)
      → Reached t
      → t.is_leader ≡ true
      → lookup name t.mysql_inventory.clusters_probes ≡ some probes
      → c.get Float t.mysql_cluster_thresholds later name ≡ some threshold
      → later ≤ now + 5 * second
      → get_mysql_cluster_metrics (aggregate_mysql_metrics t now dial) later name ≡ (
        aggregate_mysql_probes
            (cluster_inputs dial t.mysql_inventory name)
            probes
            (tokens t.mysql_inventory name),
        threshold,
      )
  unfolding get_mysql_cluster_metrics cluster_metric
  cluster_metrics-aggregated t now later dial name probes threshold r l e h p =
      let (thresholds, health, metrics, marks, once) = (Reached-IsWellFormed r).1 in
      ground (
        arith,
        h,
        ap (λ (u : Throttler). u.mysql_cluster_thresholds)
            (aggregate_mysql_metrics_frame t now dial).0,
        get_named_metric-aggregate_mysql_metrics t now later dial name probes l metrics once e p,
      )

  -- In every state that the throttler reaches as a leader, for five seconds after an aggregation, a
  -- check of a cluster of the inventory that has a threshold is answered with 200 exactly when the
  -- app is named and not denied; of the hosts that the aggregation does not pass over none is
  -- unread, those with an error are at most as many as may be ignored, some have a value, and those
  -- whose value is above the threshold of the check are at most as many as the aggregation ignores;
  -- and the app is freno itself or the shared domain is healthy as far as is known.
  pub check-aggregate_mysql_metrics_iff :
      (t : Throttler) (now later : Time) (dial : Bool) (rand : ℕ → Float)
      (app_name store_name remote_addr : Text) (flags : CheckFlags) (probes : Probes)
      (threshold : Float)
      → Reached t
      → t.is_leader ≡ true
      → lookup store_name t.mysql_inventory.clusters_probes ≡ some probes
      → c.get Float t.mysql_cluster_thresholds later store_name ≡ some threshold
      → later ≤ now + 5 * second
      → let t' = aggregate_mysql_metrics t now dial in
        ((check t' later rand app_name (codes "mysql") store_name remote_addr flags).0.status_code
          ≡ status_ok)
        ↔ ((app_name ≢ [])
            × (denied t' later rand app_name store_name flags ≡ false)
            × IsWithin
                (cluster_inputs dial t.mysql_inventory store_name)
                probes
                (tokens t.mysql_inventory store_name)
                (effective_threshold flags threshold)
            × ((app_name ≡ freno_app_name)
                ⊎ (get_share_domain_seconds_since_health t' later
                      (codes "mysql" ++ (b'/' ∷ store_name))
                    <ℤ pos 1)))
  check-aggregate_mysql_metrics_iff t now later dial rand app_name store_name remote_addr flags
        probes threshold r l e h p =
      let t' = aggregate_mysql_metrics t now dial in
      let i = cluster_inputs dial t.mysql_inventory store_name in
      let count = tokens t.mysql_inventory store_name in
      let ok = check_ok_iff t' later rand app_name store_name flags remote_addr in
      let within = metric-IsWithin i probes count (effective_threshold flags threshold) in
      let m = cluster_metrics-aggregated t now later dial store_name probes threshold r l e h p in
      (
        λ s.
            let (a, d, n, v, f) = ok.0 s in
            (a, d, within.0 (ground (arith, m, n), ground (arith, m, v)), f),
        λ q.
            let (a, d, w, f) = q in
            ok.1 (a, d, ground (arith, m, within.1 w), ground (arith, m, within.1 w), f),
      )
