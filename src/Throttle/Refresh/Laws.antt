-- ===== src/Throttle/Refresh/Laws.antt =====
-- The laws of a refresh: which probes it makes of its keys.
use freno.Prelude.{
  ◌≡◌, refl, Bool, true, false, not, ◌&&◌, ◌||◌, none, some, List, [], ◌∷◌, if◌then◌else◌, arith,
}
use freno.Go.Text.{text_eq}
use freno.Go.Dict.{lookup, lookup-insert}
use freno.Go.Time.{Time}
use freno.Config.Stores.{MySqlClusterSettings}
use freno.Mysql.Key.{InstanceKey, key_eq, equals, equals_iff, is_valid, string_code}
use freno.Mysql.Probe.{Probes}
use freno.Cache.Api.{CacheApi}
use freno.Throttle.State.{Throttler}
use freno.Throttle.Refresh.{contains_any, probe_of, add_instance_key, add_keys}

pub has_key : InstanceKey → List InstanceKey → Bool
has_key k [] = false
has_key k (j ∷ keys) = equals j k || has_key k keys

module _ ⦃c : CacheApi⦄ where
  -- A key that gets a probe: no text to ignore stands in it, its host is not skipped, and it is
  -- valid.
  abbrev pub admissible : Throttler → Time → MySqlClusterSettings → InstanceKey → Bool
  admissible t now cluster k =
      not (contains_any (string_code k) cluster.ignore_hosts)
      && (elim (c.get Time t.skipped_hosts now k.hostname) [ some expire_at ↦ false | none ↦ true ]
          && is_valid k)

  lookup-add_instance_key :
      (t : Throttler) (now : Time) (cluster : MySqlClusterSettings) (j : InstanceKey)
      (probes : Probes) (k : InstanceKey)
      → lookup k (add_instance_key t now j cluster probes) ≡ (
          if equals j k && admissible t now cluster k
          then some (probe_of cluster k)
          else lookup k probes)
  unfolding add_instance_key
  lookup-add_instance_key t now cluster j probes k =
      ground (arith, equals_iff j k, lookup-insert j k (probe_of cluster j) probes)

  -- After the keys have been added, a key has a probe with the cluster's settings if it is one of
  -- them, no text to ignore stands in it, its host is not skipped, and it is valid. Otherwise it
  -- has the probe that it had.
  pub lookup-add_keys :
      (t : Throttler) (now : Time) (cluster : MySqlClusterSettings) (keys : List InstanceKey)
      (probes : Probes) (k : InstanceKey)
      → lookup k (add_keys t now cluster keys probes) ≡ (
          if has_key k keys && admissible t now cluster k
          then some (probe_of cluster k)
          else lookup k probes)
  unfolding has_key add_keys
  lookup-add_keys t now cluster [] probes k = refl
  lookup-add_keys t now cluster (j ∷ keys) probes k = ground (
    arith,
    lookup-add_instance_key t now cluster j probes k,
    lookup-add_keys t now cluster keys (add_instance_key t now j cluster probes) k,
  )
