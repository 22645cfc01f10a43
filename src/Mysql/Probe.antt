-- ===== src/Mysql/Probe.antt =====
-- pkg/mysql/probe.go and mysql_http_check.go. The parser of IP addresses (package net), the
-- configured collation and the HTTP client are arguments.
use freno.Prelude.{ℕ, Bool, not, Option, none, some, [], ◌∷◌, ◌++◌, if◌then◌else◌}
use freno.Go.Int.{ℤ, pos, ltb_ℤ}
use freno.Go.Text.{Text, codes, str_eq}
use freno.Go.Float.{Float}
use freno.Go.Decimal.{itoa}
use freno.Go.Dict.{Dict}
use freno.Mysql.Key.{InstanceKey, equals, key_eq, string_code}

pub record Probe : Type 0 where
  pub key : InstanceKey
  pub user : Text
  pub password : Text
  pub metric_query : Text
  pub cache_millis : ℤ
  pub query_in_progress : ℤ
  pub http_check_port : ℤ
  pub http_check_path : Text
  pub http_check_in_progress : ℤ

abbrev pub Probes : Type 0
Probes = Dict InstanceKey Probe

pub record ClusterProbes : Type 0 where
  pub cluster_name : Text
  pub ignore_hosts_count : ℤ
  pub ignore_hosts_threshold : Float
  pub instance_probes : Probes

unfoldable pub new_probe : Probe
new_probe = record {
  key = record { hostname = []; port = pos 0 };
  user = [];
  password = [];
  metric_query = [];
  cache_millis = pos 0;
  query_in_progress = pos 0;
  http_check_port = pos 0;
  http_check_path = [];
  http_check_in_progress = pos 0;
}

unfoldable pub duplicate_credentials : Probe → InstanceKey → Probe
unfolding new_probe
duplicate_credentials probe key = record new_probe {
  key = key;
  user = probe.user;
  password = probe.password;
}

unfoldable pub duplicate : Probe → Probe
unfolding duplicate_credentials
duplicate probe = duplicate_credentials probe probe.key

unfoldable pub print : Probe → Text
print probe = string_code probe.key ++ codes ", user=" ++ probe.user

unfoldable pub probe_equals : Probe → Probe → Bool
probe_equals probe other = equals probe.key other.key

abbrev pub timeout_millis : ℤ
timeout_millis = pos 1000

-- `is_ipv6` is `ip != nil && ip.To4() == nil` of the parsed hostname.
unfoldable pub get_db_uri : (Text → Bool) → Text → Probe → Text → Text
get_db_uri is_ipv6 collation probe database_name =
    let hostname =
      if is_ipv6 probe.key.hostname
      then codes "[" ++ (probe.key.hostname ++ codes "]")
      else probe.key.hostname in
    let dsn_charset_collation =
      if not (str_eq collation [])
      then codes "collation=" ++ collation
      else codes "charset=utf8mb4,utf8,latin1" in
    probe.user
    ++ (codes ":"
        ++ (probe.password
            ++ (codes "@tcp("
                ++ (hostname
                    ++ (codes ":"
                        ++ (itoa probe.key.port
                            ++ (codes ")/"
                                ++ (database_name
                                    ++ (codes "?interpolateParams=true&"
                                        ++ (dsn_charset_collation
                                            ++ (codes "&timeout="
                                                ++ (itoa timeout_millis ++ codes "ms"))))))))))))

abbrev pub status_ok : ℕ
status_ok = 200

abbrev pub status_not_found : ℕ
status_not_found = 404

abbrev pub status_internal_server_error : ℕ
status_internal_server_error = 500

pub record MySqlHttpCheck : Type 0 where
  pub cluster_name : Text
  pub key : InstanceKey
  pub check_result : ℕ

unfoldable pub new_mysql_http_check : Text → InstanceKey → ℕ → MySqlHttpCheck
new_mysql_http_check cluster_name key check_result = record {
  cluster_name = cluster_name;
  key = key;
  check_result = check_result;
}

unfoldable pub mysql_http_check_hash_key : Text → InstanceKey → Text
mysql_http_check_hash_key cluster_name key = cluster_name ++ b':' ∷ string_code key

unfoldable pub hash_key : MySqlHttpCheck → Text
hash_key check = mysql_http_check_hash_key check.cluster_name check.key

status_of : Option ℕ → ℕ
status_of none = status_internal_server_error
status_of (some status) = status

-- `http_get` answers a URL with the status code, or with `none` on an error. The counters of the
-- package metrics are not modelled.
unfoldable pub check_http : (Text → Option ℕ) → Text → Probe → MySqlHttpCheck
unfolding new_mysql_http_check status_of
check_http http_get cluster_name probe =
    if not (ltb_ℤ (pos 0) probe.http_check_port)
    then new_mysql_http_check cluster_name probe.key status_ok
    else new_mysql_http_check cluster_name probe.key (
        status_of (
          http_get (
            codes "http://"
            ++ (probe.key.hostname
                ++ (codes ":"
                    ++ (itoa probe.http_check_port ++ (codes "/" ++ probe.http_check_path)))))))
