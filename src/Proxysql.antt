-- ===== src/Proxysql.antt =====
-- pkg/proxysql/client.go: the ProxySQL admin client. Opening and pinging a database, closing it, and
-- the rows of a query are arguments.
pub mod Laws
pub mod Quarantine
use freno.Prelude.{
  ℕ, ◌*◌, Bool, true, false, Option, none, some, List, [], ◌∷◌, ◌++◌, if◌then◌else◌, ltb,
}
use freno.Go.Int.{ℤ}
use freno.Go.Text.{Text, codes, str_eq, str_lt, text_eq}
use freno.Go.Decimal.{itoa}
use freno.Go.Dict.{Dict, lookup, insert, erase}
use freno.Go.Time.{Time, second}
use freno.Cache.Api.{CacheApi, after}
use freno.Config.Stores.{ProxySqlSettings}

pub record MySqlConnectionPoolServer : Type 0 where
  pub host : Text
  pub port : ℤ
  pub status : Text

unfoldable pub address : MySqlConnectionPoolServer → Text
address ms = ms.host ++ (b':' ∷ itoa ms.port)

-- sort.Strings
insert_text : Text → List Text → List Text
insert_text x [] = x ∷ []
insert_text x (y ∷ ys) = elim (str_lt y x) [ true ↦ y ∷ insert_text x ys | false ↦ x ∷ y ∷ ys ]

unfoldable pub sort_texts : List Text → List Text
unfolding insert_text
sort_texts [] = []
sort_texts (x ∷ xs) = insert_text x (sort_texts xs)

-- A row as Scan reads it, or the error of Scan.
pub data ScannedRow : Type 0 where
  scanned : MySqlConnectionPoolServer → ScannedRow
  scan_error : Text → ScannedRow

-- What the query gives: an error, or the rows with the error that ends them, if any.
pub data QueryAnswer : Type 0 where
  query_error : Text → QueryAnswer
  rows : List ScannedRow → Option Text → QueryAnswer

-- `Db` is the type of the database handles.
module _ ⦃c : CacheApi⦄ (Db : Type 0) where
  pub record Client : Type 0 where
    pub dbs : Dict Text Db
    pub default_ignore_server_ttl : ℕ
    pub ignore_server_cache : c.Cache Bool

  unfoldable pub new_client : ℕ → Client
  new_client default_ignore_server_ttl = record {
    dbs = [];
    default_ignore_server_ttl = default_ignore_server_ttl;
    ignore_server_cache = c.new Bool none;
  }

  -- What opening and pinging an address gives.
  pub data Opened : Type 0 where
    opened : Db → Opened
    open_error : Text → Opened

  -- The database and its address, or the error.
  pub data Connected : Type 0 where
    connected : Db → Text → Connected
    no_connection : Text → Connected

  connect : (Text → Opened) → Client → List Text → Option Text → Connected × Client
  connect open_db client [] none = (no_connection (codes "failed to get connection"), client)
  connect open_db client [] (some last_err) = (no_connection last_err, client)
  connect open_db client (addr ∷ addrs) last_err = elim (lookup addr client.dbs) [
    | some db ↦ (connected db addr, client)
    | none ↦ elim (open_db addr) [
      | open_error e ↦ connect open_db client addrs (some e)
      | opened db ↦ (connected db addr, record client { dbs = insert addr db client.dbs })
    ]
  ]

  unfoldable pub get_db : (Text → Opened) → Client → ProxySqlSettings → Connected × Client
  unfolding connect
  get_db open_db client settings = connect open_db client (sort_texts settings.addresses) none

  unfoldable pub close_db : Client → Text → Client
  close_db client addr = record client { dbs = erase addr client.dbs }

module _ ⦃c : CacheApi⦄ where
  delete_all : c.Cache Bool → List Text → c.Cache Bool
  delete_all m [] = m
  delete_all m (a ∷ rest) = delete_all (c.delete Bool m a) rest

  -- The loop over the rows: the servers so far, the cache, and the addresses whose deletion is
  -- deferred to the return.
  scan_rows :
      Time
      → ℕ
      → List ScannedRow
      → List MySqlConnectionPoolServer
      → c.Cache Bool
      → List Text
      → Option Text
      → List MySqlConnectionPoolServer × Option Text × c.Cache Bool
  unfolding delete_all
  scan_rows now ttl [] servers m deferred rows_err = (servers, rows_err, delete_all m deferred)
  scan_rows now ttl (scan_error e ∷ rest) servers m deferred rows_err =
      ([], some e, delete_all m deferred)
  scan_rows now ttl (scanned server ∷ rest) servers m deferred rows_err =
      elim (str_eq server.status (codes "ONLINE")) [
        | true ↦ elim (c.get Bool m now (address server)) [
          | some ignore ↦ scan_rows now ttl rest servers m deferred rows_err
          | none ↦ scan_rows now ttl rest (servers ++ server ∷ []) m deferred rows_err
        ]
        | false ↦ elim (str_eq server.status (codes "SHUNNED_REPLICATION_LAG")) [
          | true ↦
              scan_rows now ttl rest (servers ++ server ∷ []) m (address server ∷ deferred) rows_err
          | false ↦
              scan_rows now ttl rest servers (c.set Bool m now (address server) true (after ttl))
                deferred rows_err
        ]
      ]

  abbrev pub ignore_server_ttl : ℕ → ProxySqlSettings → ℕ
  ignore_server_ttl default_ttl settings =
      if ltb 0 settings.ignore_server_ttl_secs
      then settings.ignore_server_ttl_secs * second
      else default_ttl

  answered :
      Time
      → ℕ
      → c.Cache Bool
      → QueryAnswer
      → List MySqlConnectionPoolServer × Option Text × c.Cache Bool
  unfolding scan_rows
  answered now ttl m (query_error e) = ([], some e, m)
  answered now ttl m (rows scanned_rows rows_err) = scan_rows now ttl scanned_rows [] m [] rows_err

  -- The servers, the error, and the cache of the client afterwards.
  unfoldable pub get_servers :
      Time
      → ℕ
      → c.Cache Bool
      → QueryAnswer
      → ProxySqlSettings
      → List MySqlConnectionPoolServer × Option Text × c.Cache Bool
  unfolding answered
  get_servers now default_ttl m answer settings =
      answered now (ignore_server_ttl default_ttl settings) m answer
