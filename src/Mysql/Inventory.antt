-- ===== src/Mysql/Inventory.antt =====
-- pkg/mysql/mysql_inventory.go.
use freno.Prelude.{ℕ, Bool, ◌&&◌, [], ◌∷◌, ◌++◌, ◌≡◌, ◌↔◌, arith, Eq, true}
use freno.Go.Int.{ℤ}
use freno.Go.Text.{Text, str_eq, str_eq_iff, text_eq}
use freno.Go.Float.{Float}
use freno.Go.Dict.{Dict}
use freno.Base.Metric.{MetricResult}
use freno.Mysql.Key.{InstanceKey, equals, equals_iff, string_code}
use freno.Mysql.Probe.{Probes}

pub record ClusterInstanceKey : Type 0 where
  pub cluster_name : Text
  pub key : InstanceKey

unfoldable pub get_cluster_instance_key : Text → InstanceKey → ClusterInstanceKey
get_cluster_instance_key cluster_name key = record { cluster_name = cluster_name; key = key }

unfoldable pub hash_code : ClusterInstanceKey → Text
hash_code c = c.cluster_name ++ b':' ∷ string_code c.key

-- Go's `==` on the struct.
unfoldable pub same_key : ClusterInstanceKey → ClusterInstanceKey → Bool
same_key a b = str_eq a.cluster_name b.cluster_name && equals a.key b.key

pub same_key_iff : (a b : ClusterInstanceKey) → (same_key a b ≡ true) ↔ (a ≡ b)
unfolding same_key
same_key_iff a b = ground (arith, str_eq_iff a.cluster_name b.cluster_name, equals_iff a.key b.key)

instance abbrev pub cluster_instance_key_eq : Eq ClusterInstanceKey
cluster_instance_key_eq = record { beq = same_key; beq_iff = same_key_iff }

abbrev pub InstanceMetricResultMap : Type 0
InstanceMetricResultMap = Dict ClusterInstanceKey MetricResult

abbrev pub ClusterInstanceHttpCheckResultMap : Type 0
ClusterInstanceHttpCheckResultMap = Dict Text ℕ

pub record MySqlInventory : Type 0 where
  pub clusters_probes : Dict Text Probes
  pub ignore_hosts_count : Dict Text ℤ
  pub ignore_hosts_threshold : Dict Text Float
  pub instance_key_metrics : InstanceMetricResultMap
  pub cluster_instance_http_checks : ClusterInstanceHttpCheckResultMap

unfoldable pub new_mysql_inventory : MySqlInventory
new_mysql_inventory = record {
  clusters_probes = [];
  ignore_hosts_count = [];
  ignore_hosts_threshold = [];
  instance_key_metrics = [];
  cluster_instance_http_checks = [];
}
