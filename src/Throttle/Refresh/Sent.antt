-- ===== src/Throttle/Refresh/Sent.antt =====
-- What a refresh of a cluster sends, from whichever source its hosts come.
use freno.Prelude.{
  ◌≡◌, ◌⊎◌, inl, inr, refl, Bool, true, false, not, ◌&&◌, ◌||◌, Option, none, some, List, [], ◌∷◌,
  if◌then◌else◌, if_keeps, Bool-cases, arith,
}
use mathlib.Core.Path.{subst}
use freno.Go.Text.{Text}
use freno.Go.Int.{pos}
use freno.Go.Float.{float_zero}
use freno.Go.Dict.{lookup}
use freno.Go.Time.{Time}
use freno.Cache.Api.{CacheApi}
use freno.Config.Stores.{
  MySqlClusterSettings, Url, haproxy_is_empty, proxysql_is_empty, vitess_is_empty,
  static_hosts_is_empty, get_proxy_addresses,
}
use freno.Mysql.Key.{InstanceKey, key_eq}
use freno.Mysql.Probe.{ClusterProbes}
use freno.Proxysql.{MySqlConnectionPoolServer}
use freno.Vitess.{Tablet}
use freno.Throttle.State.{Throttler}
use freno.Throttle.Refresh.{
  Sources, Refreshed, sent_probes, not_refreshed, panicked, HaproxyHosts, total_hosts, unreadable,
  index_panic, probe_of, add_keys, cluster_probes, host_keys, server_keys, tablet_keys, static_keys,
  haproxy_hosts, from_haproxy, from_servers, from_tablets, from_static, refresh_cluster,
}
use freno.Throttle.Refresh.Laws.{has_key, admissible, lookup-add_keys}

-- A dynamic source of hosts is configured.
abbrev pub has_dynamic_source : (Text → Option Url) → MySqlClusterSettings → Bool
has_dynamic_source parse_url cluster =
    not (haproxy_is_empty parse_url cluster.haproxy_settings)
    || (not (proxysql_is_empty cluster.proxysql_settings)
        || not (vitess_is_empty cluster.vitess_settings))

module _ ⦃c : CacheApi⦄ (t : Throttler) (now : Time) (cluster_name : Text)
    (cluster : MySqlClusterSettings) where
  -- The probes are the cluster's, for keys that may have one, and come with the counts of hosts to
  -- ignore that the flag allows.
  abbrev pub IsSound : Bool → ClusterProbes → Type 0
  IsSound counted p =
      (p.cluster_name ≡ cluster_name)
      × (p.ignore_hosts_count ≡ (if counted then cluster.ignore_hosts_count else pos 0))
      × (p.ignore_hosts_threshold
          ≡ (if counted then cluster.ignore_hosts_threshold else float_zero))
      × ((k : InstanceKey)
          → (lookup k p.instance_probes ≡ none)
            ⊎ ((lookup k p.instance_probes ≡ some (probe_of cluster k))
                × (admissible t now cluster k ≡ true)))

  abbrev SendsSound : Bool → Refreshed → Type 0
  SendsSound counted (sent_probes p) = IsSound counted p
  SendsSound counted not_refreshed = Unit
  SendsSound counted panicked = Unit

  add_keys-admissible :
      (keys : List InstanceKey) (k : InstanceKey)
      → (lookup k (add_keys t now cluster keys []) ≡ none)
        ⊎ ((lookup k (add_keys t now cluster keys []) ≡ some (probe_of cluster k))
            × (admissible t now cluster k ≡ true))
  unfolding lookup
  add_keys-admissible keys k = elim (Bool-cases (has_key k keys && admissible t now cluster k)) [
    | inl e ↦ inr (ground (arith, lookup-add_keys t now cluster keys [] k, e), ground (arith, e))
    | inr e ↦ inl (ground (arith, lookup-add_keys t now cluster keys [] k, e))
  ]

  cluster_probes-SendsSound :
      (keys : List InstanceKey) → SendsSound true (cluster_probes t now cluster_name cluster keys)
  unfolding cluster_probes
  cluster_probes-SendsSound keys = (refl, refl, refl, add_keys-admissible keys)

  from_haproxy-SendsSound :
      (hosts : HaproxyHosts) → SendsSound true (from_haproxy t now cluster_name cluster hosts)
  unfolding from_haproxy
  from_haproxy-SendsSound unreadable = tt
  from_haproxy-SendsSound index_panic = tt
  from_haproxy-SendsSound (total_hosts []) = tt
  from_haproxy-SendsSound (total_hosts (h ∷ hosts)) =
      cluster_probes-SendsSound (host_keys cluster.port (h ∷ hosts))

  from_servers-SendsSound :
      (servers : Option (List MySqlConnectionPoolServer))
      → SendsSound true (from_servers t now cluster_name cluster servers)
  unfolding from_servers
  from_servers-SendsSound none = tt
  from_servers-SendsSound (some servers) = cluster_probes-SendsSound (server_keys servers)

  from_tablets-SendsSound :
      (tablets : Option (List Tablet))
      → SendsSound true (from_tablets t now cluster_name cluster tablets)
  unfolding from_tablets
  from_tablets-SendsSound none = tt
  from_tablets-SendsSound (some tablets) = cluster_probes-SendsSound (tablet_keys tablets)

  from_static-SendsSound :
      (keys : Option (List InstanceKey))
      → SendsSound false (from_static t now cluster_name cluster keys)
  unfolding from_static
  from_static-SendsSound none = tt
  from_static-SendsSound (some keys) = (refl, refl, refl, add_keys-admissible keys)

  module _ (parse_url : Text → Option Url) (sources : Sources) where
    refresh_cluster-SendsSound :
        SendsSound
          (has_dynamic_source parse_url cluster)
          (refresh_cluster parse_url sources t now cluster_name cluster)
    unfolding refresh_cluster
    refresh_cluster-SendsSound =
        elim (Bool-cases (haproxy_is_empty parse_url cluster.haproxy_settings)) [
          | inr e ↦ rw e (
              from_haproxy-SendsSound (
                haproxy_hosts sources.haproxy_read cluster.haproxy_settings.pool_name
                  (get_proxy_addresses parse_url cluster.haproxy_settings).0 []))
          | inl e ↦ elim (Bool-cases (proxysql_is_empty cluster.proxysql_settings)) [
            | inr f ↦ rw (e, f) (from_servers-SendsSound sources.proxysql_servers)
            | inl f ↦ elim (Bool-cases (vitess_is_empty cluster.vitess_settings)) [
              | inr g ↦ rw (e, f, g) (from_tablets-SendsSound sources.vitess_tablets)
              | inl g ↦
                  rw (e, f, g)
                    (if_keeps (SendsSound false)
                      (not (static_hosts_is_empty cluster.static_hosts_settings))
                      (from_static t now cluster_name cluster
                        (static_keys cluster.port cluster.static_hosts_settings.hosts))
                      not_refreshed
                      (from_static-SendsSound
                        (static_keys cluster.port cluster.static_hosts_settings.hosts))
                      tt)
            ]
          ]
        ]

    -- Whatever source of hosts a refresh of a cluster takes, and whatever it answers, the probes
    -- that are sent are those of the cluster's name, and a key that has one is valid, its host is
    -- not skipped, no text to ignore stands in it, and the probe has the cluster's settings. The
    -- count and the threshold of hosts to ignore are the cluster's own where a dynamic source is
    -- configured, and 0 for a fixed list.
    pub refresh_cluster-IsSound :
        (p : ClusterProbes)
        → refresh_cluster parse_url sources t now cluster_name cluster ≡ sent_probes p
        → IsSound (has_dynamic_source parse_url cluster) p
    refresh_cluster-IsSound p h =
        subst (SendsSound (has_dynamic_source parse_url cluster)) h refresh_cluster-SendsSound
