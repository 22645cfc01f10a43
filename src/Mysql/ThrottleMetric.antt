-- ===== src/Mysql/ThrottleMetric.antt =====
-- pkg/mysql/mysql_throttle_metric.go. The databases are an argument: what opening one gives, and
-- what the queries give. The metrics of the reads are not modelled.
use freno.Prelude.{ℕ, ◌*◌, not, Option, none, some, List, [], ◌∷◌, ◌++◌, if◌then◌else◌}
use freno.Go.Int.{ℤ, pos, negsuc, ltb_ℤ, eqb_ℤ}
use freno.Go.Text.{Text, codes, str_eq, has_prefix, to_lower, text_eq}
use freno.Go.Float.{Float, float_zero, float_of}
use freno.Go.Time.{Time}
use freno.Base.Metric.{Error, other, MetricResult}
use freno.Mysql.Key.{InstanceKey, string_code}
use freno.Mysql.Probe.{Probe}
use freno.Mysql.Inventory.{ClusterInstanceKey, get_cluster_instance_key, hash_code}
use freno.Cache.Api.{CacheApi, after}

pub record MySqlThrottleMetric : Type 0 where
  pub cluster_name : Text
  pub key : InstanceKey
  pub value : Float
  pub err : Option Error

unfoldable pub cluster_instance_key_of : MySqlThrottleMetric → ClusterInstanceKey
cluster_instance_key_of metric = get_cluster_instance_key metric.cluster_name metric.key

unfoldable pub metric_hash_code : MySqlThrottleMetric → Text
unfolding cluster_instance_key_of
metric_hash_code metric = hash_code (cluster_instance_key_of metric)

-- The metric as a `MetricResult`, by its method Get.
unfoldable pub metric_result : MySqlThrottleMetric → MetricResult
metric_result metric = record { get = (metric.value, metric.err) }

-- A row of `show slave status`: Slave_IO_Running, Slave_SQL_Running and Seconds_Behind_Master.
pub record SlaveRow : Type 0 where
  pub slave_io_running : Text
  pub slave_sql_running : Text
  pub seconds_behind_master : Option ℤ

-- `get_db` is the error of sqlutils.GetDB for a URI. `query_row` gives the value that a query of
-- one row leaves in the metric, and the error of its Scan. `slave_rows` gives the rows, and the
-- error that the query ends with after them.
pub record Databases : Type 0 where
  pub get_db : Text → Option Error
  pub query_row : Text → Text → Float × Option Error
  pub slave_rows : Text → List SlaveRow × Option Error

unfoldable pub get_mysql_metric_cache_key : Probe → Text
get_mysql_metric_cache_key probe = string_code probe.key ++ (b':' ∷ probe.metric_query)

abbrev pub millisecond : ℕ
millisecond = 1000000

-- time.Duration(CacheMillis) * time.Millisecond, for a positive CacheMillis.
abbrev pub cache_duration : ℤ → ℕ
cache_duration (pos n) = n * millisecond
cache_duration (negsuc n) = 0

not_running : SlaveRow → Error
not_running row = other (
    codes "replication not running; Slave_IO_Running="
    ++ (row.slave_io_running ++ (codes ", Slave_SQL_Running=" ++ row.slave_sql_running)))

-- The rows in turn: each valid lag is stored, and the first row without one ends the query.
read_slave_rows : Float → List SlaveRow → Option Error → Float × Option Error
unfolding not_running
read_slave_rows value [] e = (value, e)
read_slave_rows value (row ∷ rows) e = elim row.seconds_behind_master [
  | none ↦ (value, some (not_running row))
  | some seconds ↦ read_slave_rows (float_of seconds) rows e
]

module _ ⦃c : CacheApi⦄ where
  unfoldable pub cache_mysql_throttle_metric :
      c.Cache MySqlThrottleMetric
      → Time
      → Probe
      → MySqlThrottleMetric
      → MySqlThrottleMetric × c.Cache MySqlThrottleMetric
  cache_mysql_throttle_metric m now probe metric = elim metric.err [
    | some e ↦ (metric, m)
    | none ↦ (
      metric,
      if ltb_ℤ (pos 0) probe.cache_millis
          then c.set MySqlThrottleMetric m now (get_mysql_metric_cache_key probe) metric
              (after (cache_duration probe.cache_millis))
          else m,
    )
  ]

  unfoldable pub get_cached_mysql_throttle_metric :
      c.Cache MySqlThrottleMetric → Time → Probe → Option MySqlThrottleMetric
  get_cached_mysql_throttle_metric m now probe =
      if eqb_ℤ probe.cache_millis (pos 0)
      then none
      else c.get MySqlThrottleMetric m now (get_mysql_metric_cache_key probe)

  -- The read of a database; the two kinds of queries and the default are told apart by the text of
  -- the query.
  read_db :
      Databases
      → Text
      → c.Cache MySqlThrottleMetric
      → Time
      → Probe
      → Text
      → MySqlThrottleMetric × c.Cache MySqlThrottleMetric
  unfolding read_slave_rows
  read_db db uri m now probe cluster_name =
      let metric : MySqlThrottleMetric = record {
        cluster_name = cluster_name;
        key = probe.key;
        value = float_zero;
        err = none;
      } in
      let query = to_lower probe.metric_query in
      let row = db.query_row uri probe.metric_query in
      let lag = read_slave_rows float_zero (db.slave_rows uri).0 (db.slave_rows uri).1 in
      if has_prefix query (codes "select")
      then cache_mysql_throttle_metric m now probe (record metric { value = row.0; err = row.1 })
      else if has_prefix query (codes "show global")
      then cache_mysql_throttle_metric m now probe (record metric { value = row.0; err = row.1 })
      else if not (str_eq probe.metric_query [])
      then (
        record metric {
          err = some (other (codes "Unsupported metrics query type: " ++ probe.metric_query));
        },
        m,
      )
      else cache_mysql_throttle_metric m now probe (record metric { value = lag.0; err = lag.1 })

  -- `uri` is the probe's GetDBUri of information_schema.
  unfoldable pub read_throttle_metric :
      Databases
      → Text
      → c.Cache MySqlThrottleMetric
      → Time
      → Probe
      → Text
      → MySqlThrottleMetric × c.Cache MySqlThrottleMetric
  unfolding read_db
  read_throttle_metric db uri m now probe cluster_name =
      elim (get_cached_mysql_throttle_metric m now probe) [
        | some metric ↦ (metric, m)
        | none ↦ elim (db.get_db uri) [
          | some e ↦ (
            record {
              cluster_name = cluster_name;
              key = probe.key;
              value = float_zero;
              err = some e;
            },
            m,
          )
          | none ↦ read_db db uri m now probe cluster_name
        ]
      ]
