-- ===== src/Config/Stores.antt =====
-- pkg/config: the settings of the stores (mysql_config.go, haproxy_config.go, proxysql_config.go,
-- vitess_config.go, static_hosts_config.go, store_config.go).
pub mod Laws
use freno.Prelude.{
  ℕ, ◌==◌, Bool, true, false, not, ◌&&◌, ◌||◌, Option, none, some, List, [], ◌∷◌, ◌++◌,
  if◌then◌else◌, length, ltb,
}
use freno.Go.Int.{ℤ, pos, ltb_ℤ}
use freno.Go.Text.{Text, codes, str_eq, split, split_n2, has_byte, trim_space}
use freno.Go.Decimal.{atoi, itoa}
use freno.Go.Float.{Float}
use freno.Go.Dict.{Dict}

pub record HostPort : Type 0 where
  pub host : Text
  pub port : ℤ

unfoldable pub host_port_string : HostPort → Text
host_port_string h = h.host ++ (b':' ∷ itoa h.port)

pub data HostPortError : Type 0 where
  invalid_host_address : HostPortError
  cannot_parse_host_port : HostPortError
  invalid_port : HostPortError

pub data HostPortResult : Type 0 where
  host_port : HostPort → HostPortResult
  bad : HostPortError → HostPortResult

port_of : Text → Option ℤ → HostPortResult
port_of host none = bad invalid_port
port_of host (some port) = host_port (record { host = host; port = port })

host_port_tokens : List Text → HostPortResult
unfolding port_of
host_port_tokens (host ∷ (port ∷ [])) = port_of host (atoi port)
host_port_tokens _ = bad cannot_parse_host_port

unfoldable pub parse_host_port : Text → HostPortResult
unfolding host_port_tokens
parse_host_port address =
    if not (has_byte address b':')
    then (if str_eq address []
        then bad invalid_host_address
        else host_port (record { host = address; port = pos 80 }))
    else host_port_tokens (split_n2 address b':')

pub record HaproxySettings : Type 0 where
  pub host : Text
  pub port : ℤ
  pub addresses : Text
  pub pool_name : Text

-- A parsed URL of the package net/url: its text and its host part.
pub record Url : Type 0 where
  pub text : Text
  pub url_host : Text

-- `parse_url` is url.Parse, `none` on an error.
module _ (parse_url : Text → Option Url) where
  pub host_port_url : HostPort → Option Url
  host_port_url h = parse_url (codes "http://" ++ (h.host ++ (b':' ∷ itoa h.port)))

  checked_url : Option Url → Option Url
  checked_url none = none
  checked_url (some u) = elim (parse_host_port u.url_host) [ host_port h ↦ some u | bad e ↦ none ]

  -- The first result of `Some` is the URL, which HostPort.URL leaves nil where it does not parse.
  unfoldable pub parse_address : Text → Option (Option Url)
  unfolding host_port_url checked_url
  parse_address address = elim (parse_host_port address) [
    | host_port h ↦ some (host_port_url h)
    | bad e ↦ elim (checked_url (parse_url address)) [ none ↦ none | some u ↦ some (some u) ]
  ]

  -- The addresses before the first that is refused, and whether none is.
  unfoldable collect_addresses : List Text → List (Option Url) → List (Option Url) × Bool
  collect_addresses [] addresses = (addresses, true)
  collect_addresses (token ∷ tokens) addresses = elim (str_eq (trim_space token) []) [
    | true ↦ collect_addresses tokens addresses
    | false ↦ elim (parse_address (trim_space token)) [
      | none ↦ (addresses, false)
      | some u ↦ collect_addresses tokens (addresses ++ u ∷ [])
    ]
  ]

  unfoldable pub parse_addresses : HaproxySettings → List (Option Url) × Bool
  unfolding collect_addresses
  parse_addresses settings = collect_addresses (split settings.addresses b',') []

  unfoldable pub get_proxy_addresses : HaproxySettings → List (Option Url) × Bool
  unfolding parse_addresses host_port_url
  get_proxy_addresses settings =
      if not (str_eq settings.host []) && ltb_ℤ (pos 0) settings.port
      then (host_port_url (record { host = settings.host; port = settings.port }) ∷ [], true)
      else parse_addresses settings

  unfoldable pub haproxy_is_empty : HaproxySettings → Bool
  unfolding get_proxy_addresses
  haproxy_is_empty settings =
      if str_eq settings.pool_name [] then true else length (get_proxy_addresses settings).0 == 0

pub record ProxySqlSettings : Type 0 where
  pub addresses : List Text
  pub user : Text
  pub password : Text
  pub hostgroup_id : ℕ
  pub ignore_server_ttl_secs : ℕ

abbrev pub proxysql_default_database : Text
proxysql_default_database = codes "stats"

unfoldable pub address_to_dsn : ProxySqlSettings → Text → Text
address_to_dsn settings address =
    codes "mysql://"
    ++ (settings.user ++ (codes ":*****@" ++ (address ++ (codes "/" ++ proxysql_default_database))))

unfoldable pub proxysql_is_empty : ProxySqlSettings → Bool
proxysql_is_empty settings =
    if length settings.addresses == 0
    then true
    else if str_eq settings.user [] || str_eq settings.password []
    then true
    else if ltb settings.hostgroup_id 1
    then true
    else false

pub record VitessSettings : Type 0 where
  pub api : Text
  pub cells : List Text
  pub keyspace : Text
  pub shard : Text
  pub timeout_secs : ℕ

unfoldable pub vitess_is_empty : VitessSettings → Bool
vitess_is_empty settings =
    if str_eq settings.api [] then true else if str_eq settings.keyspace [] then true else false

pub record StaticHostsSettings : Type 0 where
  pub hosts : List Text

unfoldable pub static_hosts_is_empty : StaticHostsSettings → Bool
static_hosts_is_empty settings = length settings.hosts == 0

pub record MySqlClusterSettings : Type 0 where
  pub user : Text
  pub password : Text
  pub metric_query : Text
  pub cache_millis : ℤ
  pub throttle_threshold : Float
  pub port : ℤ
  pub ignore_hosts_count : ℤ
  pub ignore_hosts_threshold : Float
  pub http_check_port : ℤ
  pub http_check_path : Text
  pub ignore_hosts : List Text
  pub haproxy_settings : HaproxySettings
  pub proxysql_settings : ProxySqlSettings
  pub vitess_settings : VitessSettings
  pub static_hosts_settings : StaticHostsSettings

pub record MySqlSettings : Type 0 where
  pub user : Text
  pub password : Text
  pub metric_query : Text
  pub cache_millis : ℤ
  pub throttle_threshold : Float
  pub port : ℤ
  pub ignore_dial_tcp_errors : Bool
  pub ignore_hosts_count : ℤ
  pub ignore_hosts_threshold : Float
  pub http_check_port : ℤ
  pub http_check_path : Text
  pub ignore_hosts : List Text
  pub proxysql_addresses : List Text
  pub proxysql_user : Text
  pub proxysql_password : Text
  pub vitess_cells : List Text
  pub collation : Text
  pub clusters : Dict Text MySqlClusterSettings
