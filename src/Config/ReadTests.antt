-- ===== src/Config/ReadTests.antt =====
-- The theorems on the reading of the settings and on the variables in them at concrete files.
use freno.Prelude.{◌≡◌, ◌≢◌, refl, true, Option, some, List, [], ◌∷◌, arith, if◌then◌else◌}
use freno.Go.Text.{Text, codes, str_eq}
use freno.Go.Int.{pos}
use freno.Config.Adjust.{post_read_adjustments}
use freno.Config.Env.{from_env, env_submatch, expand, running}
use freno.Config.Env.Ends.{expand_ends}
use freno.Config.Read.{
  ConfigurationSettings, completed, adjust_settings, resolve, backend_error, adjust_stores,
  new_configuration, File, missing, content, Flags, read, load_configuration,
}
use freno.Config.Read.Laws.{Outcome, read-Outcome}

-- The value of every variable.
abbrev getenv : Text → Text
getenv name = codes "db-1"

expand_ends_example : expand getenv 3 (codes "http://${A}:80,${B}") ≢ running
expand_ends_example =
    expand_ends getenv 3 (codes "http://${A}:80,${B}") (λ name. ground arith) (omega arith)

-- The file of the machine names a variable for the host of the backend; the local one a schema.
abbrev files : Text → File (ConfigurationSettings → ConfigurationSettings)
files name =
    if str_eq name (codes "/etc/freno.conf.json")
    then content (λ s. record s { backend_mysql_host = codes "${HOST}" })
    else if str_eq name (codes "conf/freno.conf.json")
    then content (λ s. record s { backend_mysql_schema = codes "freno" })
    else missing

abbrev decode :
    (ConfigurationSettings → ConfigurationSettings)
    → ConfigurationSettings
    → Option ConfigurationSettings
decode f s = some (f s)

abbrev names : List Text
names = codes "/etc/freno.conf.json" ∷ (codes "conf/freno.conf.json" ∷ [])

read-Outcome_example :
    Outcome new_configuration names (read files decode getenv 1 new_configuration names)
read-Outcome_example = read-Outcome files decode getenv 1 new_configuration names

read_completes : (read files decode getenv 1 new_configuration names).1 ≡ completed
unfolding read adjust_settings resolve backend_error adjust_stores from_env env_submatch str_eq
    post_read_adjustments
read_completes = refl

abbrev flags : Flags
flags = record {
  flag_raft_data_dir = [];
  flag_raft_bind = [];
  flag_raft_nodes = codes "one,two";
  flag_http_port = pos 8111;
  flag_enable_profiling = true;
}

load_completes : (load_configuration files decode getenv 1 [] new_configuration).1 ≡ completed
unfolding load_configuration str_eq
load_completes = read_completes
