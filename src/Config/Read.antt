-- ===== src/Config/Read.antt =====
-- pkg/config/config.go: the settings of freno and their reading from files, and store_config.go;
-- of cmd/freno/main.go the flags that override settings. The files, the decoder of JSON and the
-- environment are arguments. The global instance is the configuration that is passed on.
pub mod Laws
use freno.Prelude.{
  ℕ, Bool, true, false, not, ◌&&◌, Option, none, some, List, [], ◌∷◌, if◌then◌else◌,
}
use freno.Go.Int.{ℤ, pos, ltb_ℤ}
use freno.Go.Text.{Text, codes, str_eq, split}
use freno.Config.Stores.{MySqlSettings}
use freno.Config.Env.{from_env}
use freno.Config.Adjust.{Adjusted, adjusted, refused, unfinished, post_read_adjustments}

pub record StoresSettings : Type 0 where
  pub mysql : MySqlSettings

pub record ConfigurationSettings : Type 0 where
  pub listen_port : ℤ
  pub data_center : Text
  pub environment : Text
  pub domain : Text
  pub share_domain : Text
  pub raft_bind : Text
  pub raft_data_dir : Text
  pub default_raft_port : ℤ
  pub raft_nodes : List Text
  pub backend_mysql_host : Text
  pub backend_mysql_port : ℤ
  pub backend_mysql_schema : Text
  pub backend_mysql_user : Text
  pub backend_mysql_password : Text
  pub backend_mysql_collation : Text
  pub memcache_servers : List Text
  pub memcache_path : Text
  pub enable_profiling : Bool
  pub stores : StoresSettings

-- The zero value of the settings of MySQL.
abbrev no_mysql_settings : MySqlSettings
no_mysql_settings = record {
  user = [];
  password = [];
  metric_query = [];
  cache_millis = pos 0;
  throttle_threshold = pos 0;
  port = pos 0;
  ignore_dial_tcp_errors = false;
  ignore_hosts_count = pos 0;
  ignore_hosts_threshold = pos 0;
  http_check_port = pos 0;
  http_check_path = [];
  ignore_hosts = [];
  proxysql_addresses = [];
  proxysql_user = [];
  proxysql_password = [];
  vitess_cells = [];
  collation = [];
  clusters = [];
}

abbrev pub new_configuration_settings : ConfigurationSettings
new_configuration_settings = record {
  listen_port = pos 8087;
  data_center = [];
  environment = [];
  domain = [];
  share_domain = [];
  raft_bind = codes "127.0.0.1:10008";
  raft_data_dir = [];
  default_raft_port = pos 0;
  raft_nodes = [];
  backend_mysql_host = [];
  backend_mysql_port = pos 3306;
  backend_mysql_schema = [];
  backend_mysql_user = [];
  backend_mysql_password = [];
  backend_mysql_collation = [];
  memcache_servers = [];
  memcache_path = codes "freno";
  enable_profiling = false;
  stores = record { mysql = no_mysql_settings };
}

pub record Configuration : Type 0 where
  pub read_file_names : List Text
  pub settings : ConfigurationSettings

abbrev pub new_configuration : Configuration
new_configuration = record { read_file_names = []; settings = new_configuration_settings }

-- A name in the file system: os.Stat fails, os.Open fails, or a content is read.
pub data File (D : Type 0) : Type 0 where
  missing unreadable : File D
  content : D → File D

pub data ReadError : Type 0 where
  cannot_open cannot_decode : Text → ReadError
  no_backend no_schema : ReadError
  unknown_reference : Text → ReadError

-- What a method answers: success, an error, or no answer yet when the fuel for the references to
-- variables is used up.
pub data Answer : Type 0 where
  completed : Answer
  failed : ReadError → Answer
  pending : Answer

-- The settings after the files, or the first error.
pub data Loaded : Type 0 where
  loaded : ConfigurationSettings → Loaded
  broken : ReadError → Loaded

-- The settings that are read from the environment.
unfoldable pub resolve : (Text → Text) → ConfigurationSettings → ConfigurationSettings
resolve getenv s = record s {
  backend_mysql_host = from_env getenv s.backend_mysql_host;
  backend_mysql_schema = from_env getenv s.backend_mysql_schema;
  backend_mysql_user = from_env getenv s.backend_mysql_user;
  backend_mysql_password = from_env getenv s.backend_mysql_password;
  data_center = from_env getenv s.data_center;
  environment = from_env getenv s.environment;
  domain = from_env getenv s.domain;
  share_domain = from_env getenv s.share_domain;
}

-- The error of the settings of the backends, if there is one.
unfoldable pub backend_error : ConfigurationSettings → Option ReadError
backend_error s =
    if str_eq s.raft_data_dir [] && str_eq s.backend_mysql_host []
    then some no_backend
    else if not (str_eq s.backend_mysql_host []) && str_eq s.backend_mysql_schema []
    then some no_schema
    else none

unfoldable pub adjust_stores : (Text → Text) → ℕ → StoresSettings → Adjusted StoresSettings
adjust_stores getenv fuel stores = elim (post_read_adjustments getenv fuel stores.mysql) [
  | adjusted mysql ↦ adjusted (record { mysql = mysql })
  | refused e ↦ refused e
  | unfinished ↦ unfinished
]

-- The end of postReadAdjustments: the errors in the order in which they are tested.
unfoldable pub finish :
    ConfigurationSettings
    → Option ReadError
    → Adjusted StoresSettings
    → ConfigurationSettings × Answer
finish s (some e) stores = (s, failed e)
finish s none (adjusted stores) = (record s { stores = stores }, completed)
finish s none (refused e) = (s, failed (unknown_reference e))
finish s none unfinished = (s, pending)

unfoldable pub adjust_settings :
    (Text → Text) → ℕ → ConfigurationSettings → ConfigurationSettings × Answer
unfolding resolve finish
adjust_settings getenv fuel settings =
    let s = resolve getenv settings in
    finish s (backend_error s) (adjust_stores getenv fuel s.stores)

-- The assignments at the end of Read, after the adjustments.
unfoldable pub store_settings :
    Configuration → List Text → ConfigurationSettings × Answer → Configuration × Answer
store_settings config file_names (settings, completed) =
    (record { read_file_names = file_names; settings = settings }, completed)
store_settings config file_names (settings, failed e) = (config, failed e)
store_settings config file_names (settings, pending) = (config, pending)

-- The files that loadConfiguration reads: the one of the flag, or the two default ones.
abbrev pub config_files : Text → List Text
config_files config_file =
    if not (str_eq config_file [])
    then config_file ∷ []
    else codes "/etc/freno.conf.json" ∷ (codes "conf/freno.conf.json" ∷ [])

-- `decode` fills settings from a content of a file, `none` on an error.
module _ {D : Type 0} (files : Text → File D)
    (decode : D → ConfigurationSettings → Option ConfigurationSettings) where
  -- The loop over the files.
  unfoldable pub load : List Text → ConfigurationSettings → Loaded
  load [] settings = loaded settings
  load (file_name ∷ file_names) settings = elim (files file_name) [
    | missing ↦ load file_names settings
    | unreadable ↦ broken (cannot_open file_name)
    | content d ↦ elim (decode d settings) [
      | none ↦ broken (cannot_decode file_name)
      | some settings' ↦ load file_names settings'
    ]
  ]

  module _ (getenv : Text → Text) (fuel : ℕ) where
    -- Read, after the loop over the files.
    read_loaded : Configuration → List Text → Loaded → Configuration × Answer
    unfolding store_settings
    read_loaded config file_names (broken e) = (config, failed e)
    read_loaded config file_names (loaded settings) =
        store_settings config file_names (adjust_settings getenv fuel settings)

    unfoldable pub read : Configuration → List Text → Configuration × Answer
    unfolding load read_loaded
    read config file_names =
        read_loaded config file_names (load file_names new_configuration_settings)

    unfoldable pub reload : Configuration → Configuration × Answer
    unfolding read
    reload config = read config config.read_file_names

    -- loadConfiguration of main.go, before the fatal error of an answer that is not `completed`.
    unfoldable pub load_configuration : Text → Configuration → Configuration × Answer
    unfolding read
    load_configuration config_file config = read config (config_files config_file)

-- The flags that override settings.
pub record Flags : Type 0 where
  pub flag_raft_data_dir : Text
  pub flag_raft_bind : Text
  pub flag_raft_nodes : Text
  pub flag_http_port : ℤ
  pub flag_enable_profiling : Bool

unfoldable pub override : Flags → ConfigurationSettings → ConfigurationSettings
override flags s = record s {
  raft_data_dir =
      if not (str_eq flags.flag_raft_data_dir [])
      then flags.flag_raft_data_dir
      else s.raft_data_dir;
  raft_bind = if not (str_eq flags.flag_raft_bind []) then flags.flag_raft_bind else s.raft_bind;
  raft_nodes =
      if not (str_eq flags.flag_raft_nodes [])
      then split flags.flag_raft_nodes b','
      else s.raft_nodes;
  listen_port = if ltb_ℤ (pos 0) flags.flag_http_port then flags.flag_http_port else s.listen_port;
  enable_profiling = if flags.flag_enable_profiling then true else s.enable_profiling;
}
