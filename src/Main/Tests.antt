-- ===== src/Main/Tests.antt =====
-- The start of the service from a file with the settings of the MySQL backend.
use freno.Prelude.{◌≡◌, refl, Bool, true, false, Option, some, []}
use freno.Go.Text.{Text, codes, str_eq, text_eq}
use freno.Go.Int.{pos}
use freno.Cache.Table.{table_cache}
use freno.Config.Env.{from_env, env_submatch}
use freno.Config.Adjust.{post_read_adjustments}
use freno.Config.Read.{
  ConfigurationSettings, new_configuration_settings, new_configuration, File, content, completed,
  load_configuration, read, adjust_settings, resolve, backend_error, adjust_stores, Flags, override,
}
use freno.Throttle.Apps.{new_throttler}
use freno.Group.Consensus.{RaftSetup, Service, holds}
use freno.Main.{start, serving, start-serving}

abbrev with_host : ConfigurationSettings
with_host = record new_configuration_settings {
  backend_mysql_host = codes "db-1";
  backend_mysql_schema = codes "freno";
  raft_data_dir = codes "/var/lib/freno";
}

abbrev opens : RaftSetup → Bool
opens store = true

abbrev files : Text → File ConfigurationSettings
files name = content with_host

abbrev decode : ConfigurationSettings → ConfigurationSettings → Option ConfigurationSettings
decode contents s = some contents

abbrev no_flags : Flags
no_flags = record {
  flag_raft_data_dir = [];
  flag_raft_bind = [];
  flag_raft_nodes = [];
  flag_http_port = pos 0;
  flag_enable_profiling = false;
}

abbrev getenv : Text → Text
getenv name = []

load_completes :
    (load_configuration files decode getenv 1 (codes "freno.json") new_configuration).1 ≡ completed
unfolding load_configuration read adjust_settings resolve backend_error adjust_stores from_env
    env_submatch str_eq post_read_adjustments
load_completes = refl

start-serving_example :
    (service : Service) × (start files decode getenv 1 opens no_flags
        (codes "freno.json")
        true
        (some (codes "one"))
        5
      ≡ serving
          (override no_flags
            (load_configuration files decode getenv 1
              (codes "freno.json")
              new_configuration).0.settings).listen_port
          (new_throttler 5)
          (holds service))
start-serving_example =
    start-serving files decode getenv 1 opens no_flags (codes "freno.json") (codes "one") 5
      load_completes (λ setup. refl)
