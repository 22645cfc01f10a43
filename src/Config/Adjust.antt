-- ===== src/Config/Adjust.antt =====
-- The adjustments after the settings are read: postReadAdjustments of
-- pkg/config/mysql_config.go, haproxy_config.go and store_config.go.
use freno.Prelude.{ℕ, ◌==◌, not, ◌&&◌, List, [], ◌∷◌, if◌then◌else◌, length, ltb, map}
use freno.Go.Int.{ℤ, pos, eqb_ℤ}
use freno.Go.Text.{Text, str_eq}
use freno.Go.Dict.{Dict}
use freno.Config.Env.{from_env, Expanded, expanded, unknown_variable, running, expand}
use freno.Config.Stores.{
  ProxySqlSettings, VitessSettings, MySqlClusterSettings, MySqlSettings, proxysql_is_empty,
  vitess_is_empty,
}

abbrev pub default_mysql_port : ℤ
default_mysql_port = pos 3306

-- A setting that is left empty is inherited.
unfoldable pub text_or : Text → Text → Text
text_or own inherited = if str_eq own [] then inherited else own

unfoldable pub int_or : ℤ → ℤ → ℤ
int_or own inherited = if eqb_ℤ own (pos 0) then inherited else own

unfoldable pub list_or : List Text → List Text → List Text
list_or own inherited = if length own == 0 then inherited else own

unfoldable pub inherit_proxysql : MySqlSettings → ProxySqlSettings → ProxySqlSettings
unfolding text_or
inherit_proxysql settings own =
    if not (proxysql_is_empty own)
    then record own {
      addresses =
          if ltb (length own.addresses) 1 then settings.proxysql_addresses else own.addresses;
      user = text_or own.user settings.proxysql_user;
      password = text_or own.password settings.proxysql_password;
    }
    else own

unfoldable pub inherit_vitess : MySqlSettings → VitessSettings → VitessSettings
inherit_vitess settings own =
    if not (vitess_is_empty own) && ltb (length own.cells) 1
    then record own { cells = settings.vitess_cells }
    else own

-- The body of the loop over the clusters, after the cluster's own adjustments.
unfoldable pub inherit : MySqlSettings → MySqlClusterSettings → MySqlClusterSettings
inherit settings cluster = record cluster {
  user = text_or cluster.user settings.user;
  password = text_or cluster.password settings.password;
  metric_query = text_or cluster.metric_query settings.metric_query;
  cache_millis = int_or cluster.cache_millis settings.cache_millis;
  throttle_threshold = int_or cluster.throttle_threshold settings.throttle_threshold;
  port = int_or cluster.port settings.port;
  ignore_hosts_count = int_or cluster.ignore_hosts_count settings.ignore_hosts_count;
  ignore_hosts_threshold = int_or cluster.ignore_hosts_threshold settings.ignore_hosts_threshold;
  http_check_port = int_or cluster.http_check_port settings.http_check_port;
  http_check_path = text_or cluster.http_check_path settings.http_check_path;
  ignore_hosts = list_or cluster.ignore_hosts settings.ignore_hosts;
  proxysql_settings = inherit_proxysql settings cluster.proxysql_settings;
  vitess_settings = inherit_vitess settings cluster.vitess_settings;
}

-- What the adjustments end in: the settings, the error of an unknown variable, or no end within the
-- fuel for the references in the addresses of HAProxy.
pub data Adjusted (A : Type 0) : Type 0 where
  adjusted : A → Adjusted A
  refused : Text → Adjusted A
  unfinished : Adjusted A

module _ (getenv : Text → Text) (fuel : ℕ) where
  with_addresses : MySqlClusterSettings → Expanded → Adjusted MySqlClusterSettings
  with_addresses cluster (expanded addresses) = adjusted (record cluster {
    haproxy_settings = record cluster.haproxy_settings { addresses = addresses };
  })
  with_addresses cluster (unknown_variable name) = refused name
  with_addresses cluster running = unfinished

  unfoldable pub adjust_cluster : MySqlClusterSettings → Adjusted MySqlClusterSettings
  unfolding with_addresses
  adjust_cluster cluster =
      with_addresses
        (record cluster {
          user = from_env getenv cluster.user;
          password = from_env getenv cluster.password;
        })
        (expand getenv fuel cluster.haproxy_settings.addresses)

  -- The loop over the clusters stops at the first that is refused.
  adjust_clusters :
      MySqlSettings → Dict Text MySqlClusterSettings → Adjusted (Dict Text MySqlClusterSettings)
  adjust_clusters settings [] = adjusted []
  adjust_clusters settings ((name, cluster) ∷ clusters) = elim (adjust_cluster cluster) [
    | refused e ↦ refused e
    | unfinished ↦ unfinished
    | adjusted own ↦ elim (adjust_clusters settings clusters) [
      | refused e ↦ refused e
      | unfinished ↦ unfinished
      | adjusted rest ↦ adjusted ((name, inherit settings own) ∷ rest)
    ]
  ]

  -- The settings that the clusters inherit.
  unfoldable pub own_adjustments : MySqlSettings → MySqlSettings
  own_adjustments settings = record settings {
    port = int_or settings.port default_mysql_port;
    user = from_env getenv settings.user;
    password = from_env getenv settings.password;
    vitess_cells = map (from_env getenv) settings.vitess_cells;
  }

  unfoldable pub post_read_adjustments : MySqlSettings → Adjusted MySqlSettings
  unfolding adjust_clusters own_adjustments
  post_read_adjustments settings =
      elim (adjust_clusters (own_adjustments settings) settings.clusters) [
        | refused e ↦ refused e
        | unfinished ↦ unfinished
        | adjusted clusters ↦ adjusted (record (own_adjustments settings) { clusters = clusters })
      ]
