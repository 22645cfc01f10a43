-- ===== src/Throttle/Clients.antt =====
-- pkg/throttle/throttler.go: what NewThrottler sets up beside the state of the throttler: its
-- clients and the functions that the start gives it.
use freno.Prelude.{
  ℕ, ◌*◌, Bool, true, false, not, Option, none, some, List, [], ◌∷◌, if◌then◌else◌, length, ltb,
}
use freno.Go.Text.{Text}
use freno.Go.Dict.{Dict}
use freno.Go.Time.{second}
use freno.Cache.Api.{CacheApi}
use freno.Base.Http.{HttpClient, setup_http_client}
use freno.Config.Stores.{MySqlClusterSettings, proxysql_is_empty}
use freno.Config.Read.{ConfigurationSettings}
use freno.Proxysql.{Client, new_client}

abbrev mysql_refresh_interval : ℕ
mysql_refresh_interval = 10 * second

has_proxysql_settings : Dict Text MySqlClusterSettings → Bool
has_proxysql_settings [] = false
has_proxysql_settings ((cluster_name, cluster) ∷ clusters) =
    let rest = has_proxysql_settings clusters in
    if not (proxysql_is_empty cluster.proxysql_settings) then true else rest

unfoldable pub has_proxysql_stores : ConfigurationSettings → Bool
unfolding has_proxysql_settings
has_proxysql_stores s = has_proxysql_settings s.stores.mysql.clusters

module _ ⦃c : CacheApi⦄ (Db : Type 0) where
  -- The servers of a memcache client, and the other clients; `none` is nil.
  pub record Clients : Type 0 where
    pub memcache_client : Option (List Text)
    pub memcache_path : Text
    pub proxysql_client : Option (Client Db)
    pub http_client : HttpClient

  unfoldable pub new_clients : ConfigurationSettings → Clients
  new_clients s = record {
    memcache_client = if ltb 0 (length s.memcache_servers) then some s.memcache_servers else none;
    memcache_path = s.memcache_path;
    proxysql_client =
        if has_proxysql_stores s then some (new_client Db mysql_refresh_interval) else none;
    http_client = setup_http_client 0;
  }
