-- ===== src/Proxysql/Laws.antt =====
-- The law of GetServers on servers that are to be ignored.
use freno.Prelude.{
  ℕ, ◌≡◌, ◌⊎◌, ap, Bool, true, Option, some, List, [], ◌∷◌, ◌++◌, arith, Among, inl, inr,
  Bool-cases, Option-cases,
}
use freno.Go.Text.{Text, codes, str_eq, str_eq_iff, text_eq}
use freno.Go.Time.{Time}
use freno.Cache.Api.{CacheApi, after}
use freno.Config.Stores.{ProxySqlSettings}
use freno.Proxysql.{
  MySqlConnectionPoolServer, address, ScannedRow, scanned, scan_error, QueryAnswer, query_error,
  rows, scan_rows, get_servers, ignore_server_ttl,
}

Among-append_one :
    (s server : MySqlConnectionPoolServer) (servers : List MySqlConnectionPoolServer)
    → Among s (servers ++ server ∷ [])
    → Among s servers ⊎ (server ≡ s)
Among-append_one s server [] (inl e) = inr e
Among-append_one s server [] (inr a) = absurd a
Among-append_one s server (t ∷ servers) (inl e) = inl (inl e)
Among-append_one s server (t ∷ servers) (inr a) = elim (Among-append_one s server servers a) [
  | inl b ↦ inl (inr b)
  | inr e ↦ inr e
]

module _ ⦃c : CacheApi⦄ (now : Time) (ttl : ℕ) (s : MySqlConnectionPoolServer)
    (online : s.status ≡ codes "ONLINE") where
  -- A row changes neither the mark on the server nor its absence.
  scan_rows_omits :
      (scanned_rows : List ScannedRow) (servers : List MySqlConnectionPoolServer) (m : c.Cache Bool)
      (deferred : List Text) (rows_err : Option Text)
      → c.get Bool m now (address s) ≡ some true
      → ¬ Among s servers
      → ¬ Among s (scan_rows now ttl scanned_rows servers m deferred rows_err).0
  unfolding scan_rows
  scan_rows_omits [] servers m deferred rows_err h n = n
  scan_rows_omits (scan_error e ∷ rest) servers m deferred rows_err h n = λ a. a
  scan_rows_omits (scanned server ∷ rest) servers m deferred rows_err h n =
      elim (Bool-cases (str_eq server.status (codes "ONLINE"))) [
        | inl o ↦ elim (Option-cases (c.get Bool m now (address server))) [
          | inl e ↦
              rw (scan_rows, o, e)
                (scan_rows_omits rest (servers ++ server ∷ []) m deferred rows_err h (λ a.
                  elim (Among-append_one s server servers a) [
                    | inl b ↦ n b
                    | inr q ↦ ground (arith, h, e, ap address q)
                  ]))
          | inr (b, e) ↦ rw (scan_rows, o, e) (scan_rows_omits rest servers m deferred rows_err h n)
        ]
        | inr o ↦ elim (Bool-cases (str_eq server.status (codes "SHUNNED_REPLICATION_LAG"))) [
          | inl l ↦
              rw (scan_rows, o, l)
                (scan_rows_omits rest (servers ++ server ∷ []) m (address server ∷ deferred)
                  rows_err h
                  (λ a. elim (Among-append_one s server servers a) [
                    | inl b ↦ n b
                    | inr q ↦
                        ground (arith, o, online, str_eq_iff server.status (codes "ONLINE"), q)
                  ]))
          | inr l ↦
              rw (scan_rows, o, l)
                (scan_rows_omits rest servers (c.set Bool m now (address server) true (after ttl))
                  deferred rows_err
                  (ground (
                    arith,
                    h,
                    c.get-set Bool m now (address server) true (after ttl) now (address s),
                    str_eq_iff (address server) (address s),
                  ))
                  n)
        ]
      ]

module _ ⦃c : CacheApi⦄ where
  -- A server whose address the client's cache marks is not returned where its row, and so the
  -- server, has the status ONLINE, whatever the other rows are and whatever the query ends in.
  pub get_servers_omits_ignored :
      (now : Time) (default_ttl : ℕ) (m : c.Cache Bool) (answer : QueryAnswer)
      (settings : ProxySqlSettings) (s : MySqlConnectionPoolServer)
      → s.status ≡ codes "ONLINE"
      → c.get Bool m now (address s) ≡ some true
      → ¬ Among s (get_servers now default_ttl m answer settings).0
  unfolding get_servers
  get_servers_omits_ignored now default_ttl m (query_error e) settings s o h = λ a. a
  get_servers_omits_ignored now default_ttl m (rows scanned_rows rows_err) settings s o h =
      scan_rows_omits now (ignore_server_ttl default_ttl settings) s o scanned_rows [] m [] rows_err
        h (λ a. a)
