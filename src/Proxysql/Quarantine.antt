-- ===== src/Proxysql/Quarantine.antt =====
-- GetServers across two calls: a server that was not online is left out for the time to live.
use freno.Prelude.{ℕ, ◌+◌, ◌≤◌, ◌≡◌, ◌⊎◌, Bool, true, false, some, List, All, Among}
use freno.Go.Text.{Text, codes, str_eq, text_eq}
use freno.Go.Time.{Time}
use freno.Cache.Api.{CacheApi}
use freno.Proxysql.{MySqlConnectionPoolServer, address}

abbrev pub is_online : MySqlConnectionPoolServer → Bool
is_online server = str_eq server.status (codes "ONLINE")

abbrev pub is_lagging : MySqlConnectionPoolServer → Bool
is_lagging server = str_eq server.status (codes "SHUNNED_REPLICATION_LAG")

-- No row of the address is shunned for lag.
abbrev pub NeverLags : Text → List MySqlConnectionPoolServer → Type 0
NeverLags addr servers =
    All (λ server. str_eq (address server) addr ≡ true → is_lagging server ≡ false) servers

module _ ⦃c : CacheApi⦄ where
  module _ (now later : Time) (ttl : ℕ) (s : MySqlConnectionPoolServer) (live : later ≤ now + ttl)
      (offline : is_online s ≡ false) (shunned : is_lagging s ≡ false) where
    -- The address is marked, or the server's row is still to come.
    Pending : c.Cache Bool → List MySqlConnectionPoolServer → Type 0
    Pending m servers = (c.get Bool m later (address s) ≡ some true) ⊎ Among s servers
