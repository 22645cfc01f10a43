-- ===== src/Haproxy/Parser/Tests.antt =====
-- The theorems of the HAProxy parser at a status page with one host.
use freno.Prelude.{◌≡◌, ◌≢◌, ◌↔◌, refl, false, none, some, [], ◌∷◌, arith, length, count_of}
use freno.Go.Text.{Text, codes, str_eq, text_eq, split, contains, trim_left, trim_right, trim_space}
use freno.Go.Dict.{lookup, insert}
use freno.Haproxy.Host.{
  BackendHost, filter_throttler_hosts, status_up, new_backend_host, to_backend_host_status,
}
use freno.Haproxy.Parser.{
  parse_hosts, parse_header, missing_pool, all_hosts_transitioning, all_up_hosts_transitioning,
  of_tally, scan_lines, scan_line, row_of, cell, pool_line, parse_status, second_has_slash,
  first_token, apply_row, add_host, bump, verdict, index_tokens,
}
use freno.Haproxy.Parser.Lines.{Lists, NoPool}
use freno.Haproxy.Parser.Laws.{in_transition, AllInTransition, AllUpInTransition, parse_hosts-Lists}
use freno.Haproxy.Filter.{filter_throttler_hosts-parse_hosts}

abbrev header : Text
header = codes "# pxname,svname,status"

abbrev host_line : Text
host_line = codes "pool,db1,UP"

abbrev db1 : BackendHost
db1 = record { hostname = codes "db1"; status = status_up; is_transitioning = false }

read_page : parse_hosts (header ∷ host_line ∷ []) (codes "pool") ≡ some (db1 ∷ [], none)
unfolding parse_hosts of_tally scan_lines scan_line row_of cell pool_line parse_status
    second_has_slash first_token apply_row add_host bump verdict index_tokens parse_header lookup
    insert split contains trim_left trim_right trim_space str_eq to_backend_host_status
    new_backend_host
read_page = refl

parse_hosts-Lists_example :
    Lists (parse_header header) (codes "pool") (host_line ∷ []) (db1 ∷ [])
    × ((none ≡ some missing_pool) ↔ NoPool (parse_header header) (codes "pool") (host_line ∷ []))
    × ((none ≡ some all_hosts_transitioning) ↔ AllInTransition (db1 ∷ []))
    × ((none ≡ some all_up_hosts_transitioning)
        ↔ (AllUpInTransition (db1 ∷ []) × (count_of in_transition (db1 ∷ []) ≢ length (db1 ∷ []))))
parse_hosts-Lists_example =
    parse_hosts-Lists header host_line [] (codes "pool") (db1 ∷ []) none read_page

filter_throttler_hosts-parse_hosts_example : filter_throttler_hosts (db1 ∷ []) ≢ []
filter_throttler_hosts-parse_hosts_example =
    filter_throttler_hosts-parse_hosts header host_line [] (codes "pool") (db1 ∷ []) read_page
      (omega arith)
