-- ===== src/Tests.antt =====
-- The theorems of the metrics, the MySQL probes, the settings and the Vitess client at concrete data.
use freno.Prelude.{◌≡◌, ◌↔◌, false, none, some, [], ◌∷◌, arith, Among}
use freno.Go.Text.{codes, text_eq}
use freno.Go.Int.{pos}
use freno.Base.Health.{MetricHealth}
use freno.Mysql.Key.{InstanceKey, parsed, parse_instance_key, string_code}
use freno.Mysql.KeyLaws.{parse_instance_key-string_code}
use freno.Mysql.Probe.{Probe}
use freno.Mysql.ThrottleMetric.{Databases}
use freno.Config.Stores.{MySqlSettings, MySqlClusterSettings, ProxySqlSettings, VitessSettings}
use freno.Config.Adjust.{inherit}
use freno.Config.Inherit.{proxysql_settings-inherit}
use freno.Proxysql.{MySqlConnectionPoolServer, QueryAnswer, scanned, rows}
use freno.Vitess.{Tablet, replica, parse_cells, filter_replica_tablets}
use freno.Vitess.Laws.{Probed, filter_replica_tablets_iff}

abbrev healthy : MetricHealth
healthy = record { last_healthy_at = 9; seconds_since_last_healthy = pos 0 }

abbrev unhealthy : MetricHealth
unhealthy = record { last_healthy_at = 1; seconds_since_last_healthy = pos 8 }

abbrev replica_key : InstanceKey
replica_key = record { hostname = codes "db1"; port = pos 3306 }

parse_instance_key-string_code_example :
    parse_instance_key (string_code replica_key) (pos 3307) ≡ parsed replica_key
parse_instance_key-string_code_example =
    parse_instance_key-string_code replica_key (pos 3307) (ground arith) (omega arith) (omega arith)

abbrev replica_probe : Probe
replica_probe = record {
  key = replica_key;
  user = [];
  password = [];
  metric_query = codes "select 1";
  cache_millis = pos 50;
  query_in_progress = pos 0;
  http_check_port = pos 0;
  http_check_path = [];
  http_check_in_progress = pos 0;
}

abbrev answering : Databases
answering = record {
  get_db = λ uri. none;
  query_row = λ uri query. (pos 7, none);
  slave_rows = λ uri. ([], none);
}

abbrev proxysql : ProxySqlSettings
proxysql = record {
  addresses = codes "proxysql:6032" ∷ [];
  user = [];
  password = [];
  hostgroup_id = 1;
  ignore_server_ttl_secs = 0;
}

abbrev vitess : VitessSettings
vitess = record {
  api = [];
  cells = codes " ash " ∷ [];
  keyspace = [];
  shard = [];
  timeout_secs = 0;
}

abbrev cluster : MySqlClusterSettings
cluster = record {
  user = [];
  password = [];
  metric_query = [];
  cache_millis = pos 0;
  throttle_threshold = pos 0;
  port = pos 0;
  ignore_hosts_count = pos 0;
  ignore_hosts_threshold = pos 0;
  http_check_port = pos 0;
  http_check_path = [];
  ignore_hosts = [];
  haproxy_settings = record { host = []; port = pos 0; addresses = []; pool_name = [] };
  proxysql_settings = proxysql;
  vitess_settings = vitess;
  static_hosts_settings = record { hosts = [] };
}

abbrev settings : MySqlSettings
settings = record {
  user = codes "freno";
  password = codes "secret";
  metric_query = codes "select 1";
  cache_millis = pos 50;
  throttle_threshold = pos 1;
  port = pos 3306;
  ignore_dial_tcp_errors = false;
  ignore_hosts_count = pos 1;
  ignore_hosts_threshold = pos 9;
  http_check_port = pos 80;
  http_check_path = codes "/check";
  ignore_hosts = codes "backup" ∷ [];
  proxysql_addresses = codes "other:6032" ∷ [];
  proxysql_user = codes "stats";
  proxysql_password = codes "stats";
  vitess_cells = [];
  collation = [];
  clusters = [];
}

proxysql_settings-inherit_example : (inherit settings cluster).proxysql_settings ≡ proxysql
proxysql_settings-inherit_example = proxysql_settings-inherit settings cluster

abbrev serving : Tablet
serving = record {
  alias = some (codes "ash");
  mysql_hostname = codes "db1";
  mysql_port = pos 3306;
  stats = none;
  tablet_type = replica;
}

filter_replica_tablets_iff_example :
    Among serving (filter_replica_tablets vitess (serving ∷ []))
    ↔ (Among serving (serving ∷ []) × Probed (parse_cells vitess) serving)
filter_replica_tablets_iff_example = filter_replica_tablets_iff vitess (serving ∷ []) serving

-- A host that is offline in one answer and online in the next.
abbrev offline_db1 : MySqlConnectionPoolServer
offline_db1 = record { host = codes "db1"; port = pos 3306; status = codes "OFFLINE_HARD" }

abbrev db1 : MySqlConnectionPoolServer
db1 = record { host = codes "db1"; port = pos 3306; status = codes "ONLINE" }

abbrev db2 : MySqlConnectionPoolServer
db2 = record { host = codes "db2"; port = pos 3306; status = codes "ONLINE" }

abbrev two_rows : QueryAnswer
two_rows = rows (scanned db1 ∷ (scanned db2 ∷ [])) none
